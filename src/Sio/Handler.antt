-- ===== src/Sio/Handler.antt =====
-- src/socket/sio/sio.c: the handlers that the event loop calls, `sio_connector_hndl` for the events of
-- the connection and `sio_usignal_hndl` for the signals of its queues.
use proxyio.Base.{
  ℕ, ◌+◌, ◌≤◌, ◌<◌, ◌≡◌, refl, ap, ◌∙◌, Bool, true, false, not, ◌&&◌, ◌||◌, List, [], ◌∷◌, ◌++◌,
  Option, none, some, length, if◌then◌else◌,
}
use proxyio.Msgbuf.Send.{RexIov}
use proxyio.MsgbufHead.{MsgbufHead, is_empty, msgbuf_head_empty}
use proxyio.MsgbufHead.Order.{head_empty_lem}
use proxyio.MsgbufHead.Sending.{stream, AreSending}
use proxyio.Socket.{has_waiters, Sockbase, Effects, emit_pollevents}
use proxyio.Socket.Readiness.{IsConnector}
use proxyio.Sio.{
  Errno, epipe, is_eagain, Answer, Sio, Signal, ev_sndbuf_add, ev_rcvbuf_full, ev_rcvbuf_nonfull,
  sio_lock_send, Flushed, flushed, flush_snd_msgbuf, Arrived, arrived, lost, sio_connector_rcv,
}
use proxyio.Sio.Flush.{with_snd}
use proxyio.Sio.Sending.{IsSendmsg, Written, Ends}
use proxyio.Sio.Delivery.{flush_snd_msgbuf_lem}

unfoldable pub try_disable_ev_read : Sio → Sio
try_disable_ev_read tcps = if tcps.ev_read then record tcps { ev_read = false } else tcps

unfoldable pub try_enable_ev_read : Sio → Sio
try_enable_ev_read tcps = if tcps.ev_read then tcps else record tcps { ev_read = true }

unfoldable pub try_disable_ev_write : Sio → Sio
try_disable_ev_write tcps = if tcps.ev_write then record tcps { ev_write = false } else tcps

unfoldable pub try_enable_ev_write : Sio → Sio
try_enable_ev_write tcps = if tcps.ev_write then tcps else record tcps { ev_write = true }

-- A part of the handler: the connection, whether `rc` is negative, `errno`, and the effects so far.
pub data Handled : Type 0 where
  handled : Sio → Bool → Errno → List Effects → Handled
  bug spent : Handled

abbrev pub set_base : Sio → Sockbase → Sio
set_base tcps sb = record tcps { base = sb }

-- The branch of EV_READ. A read that fails here fails with another errno than EAGAIN.
abbrev pub after_rcv : Sio → Errno → Arrived → Handled
after_rcv tcps errno (arrived sb b effs) =
    handled (record tcps { base = sb; rbuf = b }) false errno effs
after_rcv tcps errno lost = handled tcps true epipe []
after_rcv tcps errno Arrived.bug = bug
after_rcv tcps errno Arrived.spent = spent

-- The end of the branch of EV_WRITE. `none` is a BUG_ON.
unfoldable pub unlock_send : Sio → Option Sio
unlock_send tcps =
    if tcps.send_lock
    then elim (msgbuf_head_empty tcps.base.snd) [
      | none ↦ none
      | some true ↦ some (try_disable_ev_write (record tcps { send_lock = false }))
      | some false ↦ some (try_enable_ev_write (record tcps { send_lock = false }))
    ]
    else none

unfoldable pub after_flush : Sio → Flushed → Handled
after_flush tcps (flushed bytes sb effs e) = elim (unlock_send (set_base tcps sb)) [
  | none ↦ bug
  | some tcps' ↦ handled tcps' true e effs
]
after_flush tcps Flushed.bug = bug
after_flush tcps Flushed.spent = spent

unfoldable pub write_event : (ℕ → List RexIov → Answer) → ℕ → ℕ → Errno → Sio → Handled
write_event sendmsg fuel t errno tcps = elim (sio_lock_send tcps) [
  | none ↦ bug
  | some tcps' ↦ after_flush tcps' (flush_snd_msgbuf sendmsg fuel t errno tcps'.base)
]

-- The error is recorded, the sleepers are woken, and the pollers are told.
unfoldable pub end_event : Handled → Option (Sio × List Effects)
end_event (handled tcps failed errno effs) =
    let lost = failed && not (is_eagain errno) in
    let sb = record tcps.base { epipe = lost || tcps.base.epipe } in
    elim (emit_pollevents sb) [
      | none ↦ none
      | some emits ↦
          let eff : Effects = record {
            calls = [];
            emits = emits;
            woken = lost && has_waiters sb;
          } in
          some (set_base tcps sb, effs ++ eff ∷ [])
    ]
end_event bug = none
end_event spent = none

abbrev pub then_write : (Errno → Sio → Handled) → Bool → Handled → Handled
then_write write ev_write (handled tcps failed errno effs) =
    if ev_write
    then elim (write errno tcps) [
      | handled tcps' failed' errno' effs' ↦ handled tcps' failed' errno' (effs ++ effs')
      | bug ↦ bug
      | spent ↦ spent
    ]
    else handled tcps failed errno effs
then_write write ev_write bug = bug
then_write write ev_write spent = spent

-- With the events EV_READ and EV_WRITE as they happened. The write overrides what the read returned.
unfoldable pub sio_connector_hndl :
    (List ℕ → ℕ)
    → ℕ
    → List (List ℕ)
    → Bool
    → (ℕ → List RexIov → Answer)
    → ℕ
    → ℕ
    → Errno
    → Sio
    → Bool
    → Bool
    → Option (Sio × List Effects)
sio_connector_hndl crc16 budget reads no_more sendmsg fuel t errno tcps on_read on_write =
    let start =
      if on_read
      then after_rcv tcps errno (sio_connector_rcv crc16 budget tcps.base tcps.rbuf reads no_more)
      else handled tcps false errno [] in
    end_event (then_write (write_event sendmsg fuel t) on_write start)

-- The handler of the signals. `hndl` is `sio_connector_hndl` with EV_WRITE alone.
unfoldable pub sio_usignal_hndl :
    (Sio → Option (Sio × List Effects)) → Sio → Signal → Option (Sio × List Effects)
sio_usignal_hndl hndl tcps ev_sndbuf_add = hndl tcps
sio_usignal_hndl hndl tcps ev_rcvbuf_full = some (try_disable_ev_read tcps, [])
sio_usignal_hndl hndl tcps ev_rcvbuf_nonfull = some (try_enable_ev_read tcps, [])

enable_lem : (tcps : Sio) → try_enable_ev_write tcps ≡ record tcps { ev_write = true }
unfolding try_enable_ev_write
enable_lem tcps = go tcps.ev_write refl
  where
    go :
        (w : Bool)
        → tcps.ev_write ≡ w
        → (if w then tcps else record tcps { ev_write = true }) ≡ record tcps { ev_write = true }
    go true e = ap (λ w. record tcps { ev_write = w }) e
    go false e = refl

disable_lem : (tcps : Sio) → try_disable_ev_write tcps ≡ record tcps { ev_write = false }
unfolding try_disable_ev_write
disable_lem tcps = go tcps.ev_write refl
  where
    go :
        (w : Bool)
        → tcps.ev_write ≡ w
        → (if w then record tcps { ev_write = false } else tcps) ≡ record tcps { ev_write = false }
    go true e = refl
    go false e = ap (λ w. record tcps { ev_write = w }) e

-- The connection with the lock released, watched for EV_WRITE as long as something is left.
abbrev pub released : Sio → Sio
released tcps = record tcps { send_lock = false; ev_write = not (is_empty tcps.base.snd.head) }

unlock_step :
    (tcps : Sio) (e : Bool)
    → tcps.send_lock ≡ true
    → msgbuf_head_empty tcps.base.snd ≡ some e
    → unlock_send tcps ≡ some (record tcps { send_lock = false; ev_write = not e })
unfolding unlock_send
unlock_step tcps true locked p =
    rw (locked, p, unlock_send) (ap some (disable_lem (record tcps { send_lock = false })))
unlock_step tcps false locked p =
    rw (locked, p, unlock_send) (ap some (enable_lem (record tcps { send_lock = false })))

pub unlock_send_lem :
    (tcps : Sio)
    → IsConnector tcps.base
    → tcps.send_lock ≡ true
    → unlock_send tcps ≡ some (released tcps)
unlock_send_lem tcps v locked =
    unlock_step tcps (is_empty tcps.base.snd.head) locked (head_empty_lem tcps.base.snd v.snd_head)

write_step :
    (sendmsg : ℕ → List RexIov → Answer) (fuel t : ℕ) (errno : Errno) (tcps : Sio) (r : Flushed)
    → tcps.send_lock ≡ false
    → flush_snd_msgbuf sendmsg fuel t errno tcps.base ≡ r
    → write_event sendmsg fuel t errno tcps ≡ after_flush (record tcps { send_lock = true }) r
unfolding write_event sio_lock_send
write_step sendmsg fuel t errno tcps r free e = rw (free, e) refl

flush_step :
    (tcps tcps' : Sio) (bytes : List ℕ) (sb : Sockbase) (effs : List Effects) (e : Errno)
    → unlock_send (set_base tcps sb) ≡ some tcps'
    → after_flush tcps (flushed bytes sb effs e) ≡ handled tcps' true e effs
unfolding after_flush
flush_step tcps tcps' bytes sb effs e u = rw (u, after_flush) refl

-- The connection after a write event.
pub record Wrote (tcps : Sio) (bytes : List ℕ) (bh : MsgbufHead) (tcps' : Sio) : Type 0 where
  pub written : Written tcps.base bytes bh
  pub base : tcps'.base ≡ with_snd tcps.base bh
  pub unlocked : tcps'.send_lock ≡ false
  pub watched : tcps'.ev_write ≡ not (is_empty bh.head)

-- The handler of EV_WRITE always returns: what is sent is a front of the queue's bytes, the lock is
-- released, EV_WRITE stays watched exactly while something is left, and something is left only where
-- the network refused it.
pub write_event_lem :
    (sendmsg : ℕ → List RexIov → Answer) (fuel t : ℕ) (errno : Errno) (tcps : Sio)
    → IsConnector tcps.base
    → AreSending tcps.base.snd.head
    → ((i : ℕ) → IsSendmsg (sendmsg i))
    → length (stream tcps.base.snd.head) < fuel
    → tcps.send_lock ≡ false
    → (bytes : List ℕ) × (bh : MsgbufHead) × (tcps' : Sio) × (e : Errno) × (effs : List Effects)
      × (write_event sendmsg fuel t errno tcps ≡ handled tcps' true e effs)
      × Wrote tcps bytes bh tcps'
      × ((i : ℕ) × (i ≤ t + length bytes) × Ends (sendmsg i) tcps'.base)
write_event_lem sendmsg fuel t errno tcps v s net h free =
    let (bytes, bh, effs, e, out, w, end) =
      flush_snd_msgbuf_lem sendmsg errno fuel t tcps.base v s net h in
    let locked : Sio = record tcps { send_lock = true } in
    let tcps' : Sio = released (set_base locked (with_snd tcps.base bh)) in
    (
      bytes,
      bh,
      tcps',
      e,
      effs,
      write_step sendmsg fuel t errno tcps (flushed bytes (with_snd tcps.base bh) effs e) free out
          ∙ flush_step locked tcps' bytes (with_snd tcps.base bh) effs e
              (unlock_send_lem (set_base locked (with_snd tcps.base bh)) w.connector refl),
      record { written = w; base = refl; unlocked = refl; watched = refl },
      end,
    )
