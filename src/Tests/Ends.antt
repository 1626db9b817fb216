-- ===== src/Tests/Ends.antt =====
-- A connection inside the process at concrete inputs.
use proxyio.Base.{◌<◌, ◌≡◌, ◌⊎◌, refl, true, false, none, some}
use proxyio.MsgbufHead.{msgbuf_head_init}
use proxyio.Inproc.{
  InprocSock, inproc_open, drop_ref, inproc_connector_bind, inproc_connector_close,
}
use proxyio.Inproc.Ends.{Ends, opened, Reachable, binds, closes, turns, opened-Reachable}
use proxyio.Socket.{Sockbase, xlistener, xconnector, sockbase_init, xclose, acceptq_add}

abbrev listener : Sockbase
listener = sockbase_init xlistener 1

-- The near end is closed, and then looked at from the other side.
abbrev half_closed : Ends
half_closed = record {
  pair = record {
    near = some (record { base = sockbase_init xconnector 3; ref = 1 });
    far = some (record { base = (xclose (sockbase_init xconnector 2)).0; ref = 1 });
  };
  near_open = true;
  far_open = false;
}

half_closed-Reachable : Reachable half_closed
unfolding inproc_connector_bind inproc_open inproc_connector_close drop_ref sockbase_init
    msgbuf_head_init
half_closed-Reachable =
    turns (closes false (binds listener 2 3 (acceptq_add listener 3) refl) refl refl)

opened-Reachable_example :
    ((opened half_closed ≡ 0) × (half_closed.pair.near ≡ none) × (half_closed.pair.far ≡ none))
    ⊎ ((0 < opened half_closed)
        × (s s' : InprocSock) × (half_closed.pair.near ≡ some s)
        × (half_closed.pair.far ≡ some s')
        × (s.ref ≡ opened half_closed)
        × (s'.ref ≡ opened half_closed))
opened-Reachable_example = opened-Reachable half_closed-Reachable
