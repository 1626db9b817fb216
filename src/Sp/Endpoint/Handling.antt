-- ===== src/Sp/Endpoint/Handling.antt =====
-- What the runner of sp_module.c does for a connector with an event: `connector_event_hndl`, then the
-- closing of bad sockets. What the kind of endpoint does with a message, and the socket's answers, are
-- given.
pub mod Closing
use proxyio.Base.{
  ℕ, zero, suc, ◌+◌, ◌≡◌, refl, sym, ap, subst, ◌∙◌, ◌⊎◌, inl, inr, Bool, true, false, ◌||◌, List,
  [], ◌∷◌, ◌++◌, Option, none, some, map, ◌==◌, if◌then◌else◌, Bool-cases, append-nil, arith,
}
use proxyio.Msgbuf.{Msgbuf}
use proxyio.MsgbufHead.{MsgbufHead, Event, msgbuf_head_in}
use proxyio.Socket.{Events}
use proxyio.Sp.Endpoint.{Tgtd, Epbase, take_first, epbase_close_bad_tgtds}

-- `xrecv` and `xsend`: 0, or -1 with EAGAIN, or -1 with another `errno`.
pub data Xrecv : Type 0 where
  got : Msgbuf → Xrecv
  recv_again recv_failed : Xrecv

pub data Xsend : Type 0 where
  went send_again send_failed : Xsend

-- `ep->vfptr.add` and `ep->vfptr.rm`, at a socket.
pub record EpbaseVfptr : Type 0 where
  pub add : Epbase → ℕ → Msgbuf → Epbase × Bool
  pub rm : Epbase → ℕ → Epbase × Option Msgbuf

-- `sg_update_tg` without XPOLLOUT, at the first target with the socket.
unfoldable pub tgtd_try_disable_out : ℕ → List Tgtd → List Tgtd
tgtd_try_disable_out fd [] = []
tgtd_try_disable_out fd (t ∷ ts) =
    let rest = tgtd_try_disable_out fd ts in
    if t.fd == fd then record t { pollout = false } ∷ ts else t ∷ rest

abbrev pub queue_in : Epbase → Option (MsgbufHead × List Event) → Epbase
queue_in ep none = ep
queue_in ep (some (bh, evs)) = record ep { rcv = bh }

-- What a subscriber does with a message, and its having none to send. After a BUG_ON of
-- `msgbuf_head_in` nothing follows; the endpoint as it was stands for that.
unfoldable pub sub_vfptr : EpbaseVfptr
sub_vfptr = record {
  add = λ ep fd m. (queue_in ep (msgbuf_head_in ep.rcv m), true);
  rm = λ ep fd. (record ep { connectors = tgtd_try_disable_out fd ep.connectors }, none);
}

-- The target moves to the end of the bad ones, from whichever list it is in.
unfoldable pub sp_generic_term_by_tgtd : Epbase → ℕ → Epbase
sp_generic_term_by_tgtd ep fd = elim (take_first fd ep.connectors) [
  | some (tg, rest) ↦ record ep { connectors = rest; bad_socks = ep.bad_socks ++ tg ∷ [] }
  | none ↦ elim (take_first fd ep.listeners) [
    | some (tg, rest) ↦ record ep { listeners = rest; bad_socks = ep.bad_socks ++ tg ∷ [] }
    | none ↦ elim (take_first fd ep.bad_socks) [
      | some (tg, rest) ↦ record ep { bad_socks = rest ++ tg ∷ [] }
      | none ↦ ep
    ]
  ]
]

-- The endpoint, whether XPOLLERR is set by now, and the messages sent and freed so far.
pub record Tending : Type 0 where
  pub ep : Epbase
  pub pollerr : Bool
  pub sent : List Msgbuf
  pub freed : List Msgbuf

module _ (vfptr : EpbaseVfptr) where
  unfoldable pub tend_in : Xrecv → ℕ → Tending → Tending
  tend_in (got m) fd t =
      let (ep, kept) = vfptr.add t.ep fd m in
      if kept then record t { ep = ep } else record t { ep = ep; freed = t.freed ++ m ∷ [] }
  tend_in recv_again fd t = t
  tend_in recv_failed fd t = record t { pollerr = true }

  unfoldable pub send_result : Xsend → Msgbuf → Tending → Tending
  send_result went m t = record t { sent = t.sent ++ m ∷ [] }
  send_result send_again m t = record t { freed = t.freed ++ m ∷ [] }
  send_result send_failed m t = record t { freed = t.freed ++ m ∷ []; pollerr = true }

  unfoldable pub tend_out : (Msgbuf → Xsend) → ℕ → Tending → Tending
  tend_out xsend fd t =
      let (ep, msg) = vfptr.rm t.ep fd in
      elim msg [
        | none ↦ record t { ep = ep }
        | some m ↦ send_result (xsend m) m (record t { ep = ep })
      ]

  unfoldable pub connector_event_hndl : Xrecv → (Msgbuf → Xsend) → Epbase → ℕ → Events → Tending
  connector_event_hndl xrecv xsend ep fd happened =
      let t : Tending = record { ep = ep; pollerr = happened.pollerr; sent = []; freed = [] } in
      let t' = if happened.pollin then tend_in xrecv fd t else t in
      let t'' = if happened.pollout then tend_out xsend fd t' else t' in
      if t''.pollerr then record t'' { ep = sp_generic_term_by_tgtd t''.ep fd } else t''

  -- The end of `event_hndl`: the endpoint, and the sockets that are closed.
  unfoldable pub connector_event : Xrecv → (Msgbuf → Xsend) → Epbase → ℕ → Events → Epbase × List ℕ
  connector_event xrecv xsend ep fd happened =
      epbase_close_bad_tgtds (Tending.ep (connector_event_hndl xrecv xsend ep fd happened))

-- Whether the calls of the handler fail with an `errno` other than EAGAIN.
abbrev pub recv_fails : Xrecv → Bool
recv_fails recv_failed = true
recv_fails _ = false

abbrev pub send_fails : Xsend → Bool
send_fails send_failed = true
send_fails _ = false
