-- ===== src/Sio/Alert.antt =====
-- No message is forgotten: in every schedule, what waits in the send queue is on its way.
use proxyio.Base.{◌≡◌, refl, ap, ◌∙◌, inl, inr, true, ◌||◌, Bool-cases, arith}
use proxyio.MsgbufHead.{msgbuf_head_init, msgbuf_head_ev_hndl, is_empty, sub_int}
use proxyio.MsgbufHead.Sending.{AreSending}
use proxyio.Socket.{sockbase_init, snd_woken}
use proxyio.Socket.Readiness.{IsConnector}
use proxyio.Sio.{salloc, sio_init}
use proxyio.Sio.Schedule.{
  Loop, Step, sends, wakes, signalled, writable, writes, releases, Reachable, bound, goes, alert,
  IsAlert,
}
use proxyio.Sio.Turns.{
  waiting-IsConnector, sends-IsAlert, locked-IsAlert, writes-IsAlert, releases-IsAlert,
}

Step-IsAlert : {a b : Loop} → Step a b → IsAlert a → IsAlert b
unfolding snd_woken
Step-IsAlert (sends {l} m v o pos room) a = sends-IsAlert l m a v o pos room
Step-IsAlert (wakes {l}) a = record {
  connector = waiting-IsConnector l.tcps.base (sub_int l.tcps.base.snd.waiters 1) a.connector;
  sending = a.sending;
  hndl = a.hndl;
  alerted = a.alerted;
}
Step-IsAlert (signalled {l} tcps rest first e) a = locked-IsAlert l tcps rest a e
Step-IsAlert (writable {l} tcps watched e) a = locked-IsAlert l tcps l.pending a e
Step-IsAlert (writes {l} sendmsg errno net locked) a = writes-IsAlert l sendmsg errno a net locked
Step-IsAlert (releases {l} tcps locked e) a = releases-IsAlert l tcps a locked e

Reachable-IsAlert : {l : Loop} → Reachable l → IsAlert l
unfolding salloc sio_init sockbase_init msgbuf_head_init msgbuf_head_ev_hndl
Reachable-IsAlert (bound fd) = record {
  connector = record {
    connector = refl;
    rcv_head = record { counted = refl; small = omega arith; window = omega arith };
    snd_head = record { counted = refl; small = omega arith; window = omega arith };
  };
  sending = tt;
  hndl = refl;
  alerted = λ e. absurd (cc);
}
Reachable-IsAlert (goes r s) = Step-IsAlert s (Reachable-IsAlert r)

-- In every schedule of senders, sleepers and the event loop, the queues of the connection are well
-- formed; and as long as a message waits in the send queue, a flush is going on, or EV_WRITE is
-- watched, or the signal that starts a flush is on its way.
pub alert-Reachable :
    {l : Loop}
    → Reachable l
    → IsConnector l.tcps.base
      × AreSending l.tcps.base.snd.head
      × ((is_empty l.tcps.base.snd.head || alert l) ≡ true)
alert-Reachable {l} r =
    let a = Reachable-IsAlert r in
    (
      a.connector,
      a.sending,
      elim (Bool-cases (is_empty l.tcps.base.snd.head)) [
        | inl e ↦ ap (λ b. b || alert l) e
        | inr e ↦ ap (λ b. b || alert l) e ∙ a.alerted e
      ],
    )
