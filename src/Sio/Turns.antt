-- ===== src/Sio/Turns.antt =====
-- Each step of a schedule leaves a connection that is alert.
use proxyio.Base.{
  ℕ, ◌+◌, ◌^◌, ◌<◌, ◌≡◌, refl, sym, ap, subst, ◌∙◌, inl, inr, Bool, true, false, not, ◌&&◌, ◌||◌,
  List, [], ◌∷◌, ◌++◌, Option, none, some, length, leb, if◌then◌else◌, Bool-cases,
}
use proxyio.Msgbuf.{Msgbuf}
use proxyio.Msgbuf.Ctl.{usize}
use proxyio.Msgbuf.Send.{RexIov}
use proxyio.Msgbuf.Tree.{IsMessage, unsent}
use proxyio.Msgbuf.Ordered.{IsOrdered}
use proxyio.MsgbufHead.{
  Event, add, nonempty, full, MsgbufHead, is_empty, call, add_int, msgbuf_head_in,
}
use proxyio.MsgbufHead.Order.{total, pushed_events, msgbuf_head_in_lem}
use proxyio.MsgbufHead.Sending.{AreSending}
use proxyio.Socket.{Sockbase, waits, finish, snd_sleeps, snd_msgbuf_head_add}
use proxyio.Socket.Readiness.{IsConnector, finish_lem}
use proxyio.Sio.{
  Errno, Answer, Sio, Signal, ev_sndbuf_add, tcps_sndhead_vfptr, sndhead_add_ev_usignal,
  sio_lock_send, simple_send,
}
use proxyio.Sio.Flush.{with_snd}
use proxyio.Sio.Sending.{IsSendmsg, simple_send_lem}
use proxyio.Sio.Handler.{unlock_send, released, unlock_send_lem}
use proxyio.Sio.Schedule.{Loop, signals, after_turn, after_sent, has_signal, IsAlert}

has_signal-append : (ss ts : List Signal) → has_signal (ss ++ ts) ≡ (has_signal ss || has_signal ts)
has_signal-append [] ts = refl
has_signal-append (ev_sndbuf_add ∷ ss) ts = refl
has_signal-append (Signal.ev_rcvbuf_full ∷ ss) ts = has_signal-append ss ts
has_signal-append (Signal.ev_rcvbuf_nonfull ∷ ss) ts = has_signal-append ss ts

append-AreSending :
    (ms : List Msgbuf) (m : Msgbuf)
    → AreSending ms
    → IsMessage m
    → IsOrdered m
    → 0 < length (unsent m)
    → AreSending (ms ++ m ∷ [])
append-AreSending [] m s v o pos = (v, o, pos, tt)
append-AreSending (x ∷ ms) m s v o pos = (s.0, s.1, s.2, append-AreSending ms m s.3 v o pos)

-- A push makes the callback `add` and no other.
pushed_add :
    (bh : MsgbufHead) (len : ℕ) → bh.ev_hndl ≡ tcps_sndhead_vfptr → pushed_events bh len ≡ add ∷ []
pushed_add bh len e =
    ap
      (λ h.
        call (h.has_nonempty && is_empty bh.head) nonempty
        ++ (call h.has_add add ++ call (h.has_full && leb bh.wnd (total bh.head + len)) full))
      e

-- The signal is raised where nothing else starts a flush.
raised :
    (tcps : Sio) (pending : List Signal)
    → (tcps.send_lock || (tcps.ev_write || has_signal (pending ++ signals tcps (add ∷ [])))) ≡ true
unfolding sndhead_add_ev_usignal
raised tcps pending =
    ap (λ b. tcps.send_lock || (tcps.ev_write || b))
      (has_signal-append pending (signals tcps (add ∷ [])))
    ∙ test tcps.send_lock tcps.ev_write (has_signal pending)
  where
    test :
        (a b c : Bool)
        → (a
            || (b || (c || has_signal ((if not a && not b then ev_sndbuf_add ∷ [] else []) ++ []))))
          ≡ true
    test true b c = refl
    test false true c = refl
    test false false true = refl
    test false false false = refl

sleep_step :
    (sb : Sockbase) (m : Msgbuf)
    → snd_sleeps sb ≡ true
    → snd_msgbuf_head_add sb m
      ≡ waits (record sb { snd = record sb.snd { waiters = add_int sb.snd.waiters 1 } })
unfolding snd_msgbuf_head_add
sleep_step sb m e = rw e refl

add_step :
    (sb : Sockbase) (m : Msgbuf) (bh : MsgbufHead) (evs : List Event)
    → snd_sleeps sb ≡ false
    → msgbuf_head_in sb.snd m ≡ some (bh, evs)
    → snd_msgbuf_head_add sb m ≡ finish (with_snd sb bh) tt evs false
unfolding snd_msgbuf_head_add
add_step sb m bh evs e f = rw (e, f) refl

-- Another count of sleepers.
pub waiting-IsConnector :
    (sb : Sockbase) (n : ℕ)
    → IsConnector sb
    → IsConnector (with_snd sb (record sb.snd { waiters = n }))
waiting-IsConnector sb n v = record {
  connector = v.connector;
  rcv_head = v.rcv_head;
  snd_head = record {
    counted = v.snd_head.counted;
    small = v.snd_head.small;
    window = v.snd_head.window;
  };
}

pub sends-IsAlert :
    (l : Loop) (m : Msgbuf)
    → IsAlert l
    → IsMessage m
    → IsOrdered m
    → 0 < length (unsent m)
    → total l.tcps.base.snd.head + usize m < 2 ^ 31
    → IsAlert (after_turn l (snd_msgbuf_head_add l.tcps.base m))
unfolding after_turn
sends-IsAlert l m a v o pos room = elim (Bool-cases (snd_sleeps l.tcps.base)) [
  | inl asleep ↦
      subst (λ t. IsAlert (after_turn l t)) (sym (sleep_step l.tcps.base m asleep))
        (record {
          connector =
              waiting-IsConnector l.tcps.base (add_int l.tcps.base.snd.waiters 1) a.connector;
          sending = a.sending;
          hndl = a.hndl;
          alerted = a.alerted;
        })
  | inr awake ↦
      let (bh, e, valid, front, wnd, hndl) =
        msgbuf_head_in_lem l.tcps.base.snd m a.connector.snd_head room in
      let w : IsConnector (with_snd l.tcps.base bh) = record {
        connector = a.connector.connector;
        rcv_head = a.connector.rcv_head;
        snd_head = valid;
      } in
      let calls : pushed_events l.tcps.base.snd (usize m) ≡ add ∷ [] =
        pushed_add l.tcps.base.snd (usize m) a.hndl in
      let out =
        add_step l.tcps.base m bh (pushed_events l.tcps.base.snd (usize m)) awake e
        ∙ ap (λ c. finish (with_snd l.tcps.base bh) tt c false) calls
        ∙ finish_lem (with_snd l.tcps.base bh) tt (add ∷ []) false w in
      subst (λ t. IsAlert (after_turn l t)) (sym out)
        (record {
          connector = w;
          sending =
              subst AreSending (sym front)
                (append-AreSending l.tcps.base.snd.head m a.sending v o pos);
          hndl = hndl ∙ a.hndl;
          alerted = λ x. raised l.tcps l.pending;
        })
]

-- What a taking of the lock gives.
Locks : Sio → Option Sio → Type 0
Locks tcps none = Unit {0}
Locks tcps (some tcps') = record tcps { send_lock = true } ≡ tcps'

lock-Locks : (tcps : Sio) → Locks tcps (sio_lock_send tcps)
unfolding Locks sio_lock_send
lock-Locks tcps = elim (Bool-cases tcps.send_lock) [ inl e ↦ rw e tt | inr e ↦ rw e refl ]

lock_lem :
    (tcps tcps' : Sio) → sio_lock_send tcps ≡ some tcps' → record tcps { send_lock = true } ≡ tcps'
unfolding Locks
lock_lem tcps tcps' e = subst (Locks tcps) e (lock-Locks tcps)

-- With the lock, whatever signals are left.
pub locked-IsAlert :
    (l : Loop) (tcps : Sio) (pending : List Signal)
    → IsAlert l
    → sio_lock_send l.tcps ≡ some tcps
    → IsAlert (record { tcps = tcps; pending = pending })
locked-IsAlert l tcps pending a e =
    subst (λ t. IsAlert (record { tcps = t; pending = pending })) (lock_lem l.tcps tcps e)
      (record { connector = a.connector; sending = a.sending; hndl = a.hndl; alerted = λ x. refl })

pub writes-IsAlert :
    (l : Loop) (sendmsg : List RexIov → Answer) (errno : Errno)
    → IsAlert l
    → IsSendmsg sendmsg
    → l.tcps.send_lock ≡ true
    → IsAlert (after_sent l (simple_send sendmsg errno l.tcps.base))
unfolding after_sent
writes-IsAlert l sendmsg errno a net locked =
    elim (simple_send_lem sendmsg errno l.tcps.base a.connector a.sending net) [
      | inl (e, out, end) ↦ subst (λ r. IsAlert (after_sent l r)) (sym out) a
      | inr (bytes, bh, effs, out, pos, w) ↦
          subst (λ r. IsAlert (after_sent l r)) (sym out)
            (record {
              connector = w.connector;
              sending = w.sending;
              hndl = w.hndl ∙ a.hndl;
              alerted = λ x. ap (λ b. b || (l.tcps.ev_write || has_signal l.pending)) locked;
            })
    ]

pub releases-IsAlert :
    (l : Loop) (tcps : Sio)
    → IsAlert l
    → l.tcps.send_lock ≡ true
    → unlock_send l.tcps ≡ some tcps
    → IsAlert (record l { tcps = tcps })
releases-IsAlert l tcps a locked e =
    let both : some (released l.tcps) ≡ some tcps =
      sym (unlock_send_lem l.tcps a.connector locked) ∙ e in
    let same : released l.tcps ≡ tcps = cc in
    subst (λ t. IsAlert (record l { tcps = t })) same
      (record {
        connector = a.connector;
        sending = a.sending;
        hndl = a.hndl;
        alerted = λ x. ap (λ b. not b || has_signal l.pending) x;
      })
