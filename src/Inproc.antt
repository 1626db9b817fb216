-- ===== src/Inproc.antt =====
-- src/socket/inproc/inproc.c: a connection inside the process, two sockets that know each other. `none`
-- in the place of a socket is memory that was freed. An operation is seen from the near end; `swap`
-- changes the ends.
pub mod Ends
pub mod Listening
use proxyio.Base.{ℕ, ◌+◌, ◌-◌, Bool, true, false, Option, none, some, ◌==◌, if◌then◌else◌}
use proxyio.Msgbuf.{Msgbuf}
use proxyio.Socket.{
  has_waiters, xconnector, Sockbase, sockbase_init, Effects, Turn, did, rcv_msgbuf_head_add,
  Received, xgeneric_recv, acceptq_add, xclose,
}

pub record InprocSock : Type 0 where
  pub base : Sockbase
  pub ref : ℕ

pub record Pair : Type 0 where
  pub near : Option InprocSock
  pub far : Option InprocSock

abbrev pub swap : Pair → Pair
swap p = record { near = p.far; far = p.near }

unfoldable pub inproc_open : ℕ → InprocSock
inproc_open fd = record { base = sockbase_init xconnector fd; ref = 1 }

-- `econnrefused` and `emfile` are the results -1; else the two ends, and what the listener does.
pub data Bound : Type 0 where
  econnrefused emfile : Bound
  bound : Pair → Turn (Unit {0}) → Bound

-- With the listener of the address, if there is one, and the number of the new socket, if there is
-- one. `acceptq_add` always succeeds.
unfoldable pub inproc_connector_bind : Option Sockbase → Option ℕ → InprocSock → Bound
inproc_connector_bind none new_fd self = econnrefused
inproc_connector_bind (some listener) none self = emfile
inproc_connector_bind (some listener) (some new_fd) self =
    let new = inproc_open new_fd in
    let pair : Pair = record {
      near = some (record self { ref = self.ref + 1 });
      far = some (record new { ref = new.ref + 1 });
    } in
    bound pair (acceptq_add listener new_fd)

-- `none` is a BUG_ON, or freed memory that is used.
unfoldable pub sent_to : Pair → InprocSock → Turn (Unit {0}) → Option (Pair × Effects)
sent_to p peer (did sb x eff) = some (record p { far = some (record peer { base = sb }) }, eff)
sent_to p peer _ = none

unfoldable pub inproc_send : Pair → Msgbuf → Option (Pair × Effects)
inproc_send p msg = elim p.far [
  | none ↦ none
  | some peer ↦ sent_to p peer (rcv_msgbuf_head_add peer.base msg)
]

-- `atomic_decr (&ref) == 1` destroys the socket.
unfoldable pub drop_ref : InprocSock → Option InprocSock
drop_ref s = if s.ref == 1 then none else some (record s { ref = s.ref - 1 })

-- The socket after `__xclose` has marked it, and whether the peer's sleepers are woken. The two ends
-- are bound to each other, so that `self->peer` is set.
unfoldable pub inproc_connector_close : Pair → Option (Pair × Bool)
inproc_connector_close p = elim p.near [
  | none ↦ none
  | some self ↦ elim p.far [
    | none ↦ none
    | some peer ↦
        let marked : InprocSock = record self { base = (xclose self.base).0 } in
        some (record { near = drop_ref marked; far = drop_ref peer }, has_waiters peer.base)
  ]
]
