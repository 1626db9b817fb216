-- ===== src/Sio/Schedule.antt =====
-- A connection whose senders and whose event loop take turns. What stands between two takings of the
-- socket's lock is one step: a send, the begin of the handler of EV_WRITE, one `sendmsg` of its flush,
-- and its end.
use proxyio.Base.{
  ℕ, ◌+◌, ◌^◌, ◌<◌, ◌≡◌, Bool, true, false, ◌||◌, List, [], ◌∷◌, ◌++◌, some, concat, map, length,
}
use proxyio.Msgbuf.{Msgbuf}
use proxyio.Msgbuf.Ctl.{usize}
use proxyio.Msgbuf.Send.{RexIov}
use proxyio.Msgbuf.Tree.{IsMessage, unsent}
use proxyio.Msgbuf.Ordered.{IsOrdered}
use proxyio.MsgbufHead.{Event, is_empty}
use proxyio.MsgbufHead.Order.{total}
use proxyio.MsgbufHead.Sending.{AreSending}
use proxyio.Socket.{Turn, waits, did, snd_msgbuf_head_add, snd_woken}
use proxyio.Socket.Readiness.{IsConnector}
use proxyio.Sio.{
  Errno, Answer, Sio, Signal, ev_sndbuf_add, tcps_sndhead_vfptr, sndhead_add_ev_usignal, salloc,
  sio_init, sio_lock_send, Sent, sent, stopped, simple_send,
}
use proxyio.Sio.Sending.{IsSendmsg}
use proxyio.Sio.Handler.{set_base, unlock_send}

-- The connection and the signals that the event loop has not handled yet.
pub record Loop : Type 0 where
  pub tcps : Sio
  pub pending : List Signal

abbrev pub signals : Sio → List Event → List Signal
signals tcps calls = concat (map (sndhead_add_ev_usignal tcps) calls)

-- A sender's turn: up to its end, or to its sleep.
unfoldable pub after_turn : Loop → Turn (Unit {0}) → Loop
after_turn l (did sb x eff) = record {
  tcps = set_base l.tcps sb;
  pending = l.pending ++ signals l.tcps eff.calls;
}
after_turn l (waits sb) = record l { tcps = set_base l.tcps sb }
after_turn l Turn.bug = l

unfoldable pub after_sent : Loop → Sent → Loop
after_sent l (sent bytes sb effs) = record l { tcps = set_base l.tcps sb }
after_sent l (stopped e) = l
after_sent l Sent.bug = l

pub data Step : Loop → Loop → Type 0 where
  sends :
      {l : Loop} (m : Msgbuf)
      → IsMessage m
      → IsOrdered m
      → 0 < length (unsent m)
      → total l.tcps.base.snd.head + usize m < 2 ^ 31
      → Step l (after_turn l (snd_msgbuf_head_add l.tcps.base m))
  wakes : {l : Loop} → Step l (record l { tcps = set_base l.tcps (snd_woken l.tcps.base) })
  signalled :
      {l : Loop} (tcps : Sio) (rest : List Signal)
      → l.pending ≡ ev_sndbuf_add ∷ rest
      → sio_lock_send l.tcps ≡ some tcps
      → Step l (record { tcps = tcps; pending = rest })
  writable :
      {l : Loop} (tcps : Sio)
      → l.tcps.ev_write ≡ true
      → sio_lock_send l.tcps ≡ some tcps
      → Step l (record l { tcps = tcps })
  writes :
      {l : Loop} (sendmsg : List RexIov → Answer) (errno : Errno)
      → IsSendmsg sendmsg
      → l.tcps.send_lock ≡ true
      → Step l (after_sent l (simple_send sendmsg errno l.tcps.base))
  releases :
      {l : Loop} (tcps : Sio)
      → l.tcps.send_lock ≡ true
      → unlock_send l.tcps ≡ some tcps
      → Step l (record l { tcps = tcps })

pub data Reachable : Loop → Type 0 where
  bound :
      (fd : ℕ)
      → Reachable (record { tcps = record (sio_init (salloc fd)) { binded = true }; pending = [] })
  goes : {a b : Loop} → Reachable a → Step a b → Reachable b

-- A flush goes on, or EV_WRITE is watched, or the signal that starts a flush is on its way.
abbrev pub has_signal : List Signal → Bool
has_signal [] = false
has_signal (ev_sndbuf_add ∷ pending) = true
has_signal (_ ∷ pending) = has_signal pending

abbrev pub alert : Loop → Bool
alert l = l.tcps.send_lock || (l.tcps.ev_write || has_signal l.pending)

pub record IsAlert (l : Loop) : Type 0 where
  pub connector : IsConnector l.tcps.base
  pub sending : AreSending l.tcps.base.snd.head
  pub hndl : l.tcps.base.snd.ev_hndl ≡ tcps_sndhead_vfptr
  pub alerted : is_empty l.tcps.base.snd.head ≡ false → alert l ≡ true
