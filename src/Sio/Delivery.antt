-- ===== src/Sio/Delivery.antt =====
-- What a flush of the send queue hands to the network, in which order, and that it ends.
use proxyio.Base.{
  ℕ, zero, suc, ◌+◌, ◌≤◌, ◌<◌, ◌≡◌, refl, ap, ◌∙◌, inl, inr, List, [], ◌++◌, length, arith,
  length-append, append_assoc,
}
use proxyio.Msgbuf.Send.{RexIov}
use proxyio.MsgbufHead.{MsgbufHead}
use proxyio.MsgbufHead.Sending.{stream, AreSending}
use proxyio.Socket.{Sockbase, Effects}
use proxyio.Socket.Readiness.{IsConnector}
use proxyio.Sio.{
  Errno, Answer, sent, stopped, simple_send, Flushed, flushed, after_send, flush_snd_msgbuf,
}
use proxyio.Sio.Flush.{with_snd}
use proxyio.Sio.Sending.{IsSendmsg, Written, Ends, simple_send_lem}

module _ (sendmsg : ℕ → List RexIov → Answer) (errno : Errno) (fuel t : ℕ) (sb : Sockbase) where
  flush_stopped :
      (e : Errno)
      → simple_send (sendmsg t) errno sb ≡ stopped e
      → flush_snd_msgbuf sendmsg (suc fuel) t errno sb ≡ flushed [] sb [] e
  unfolding flush_snd_msgbuf
  flush_stopped e x = rw (x, flush_snd_msgbuf) refl

  flush_sent :
      (bytes : List ℕ) (sb' : Sockbase) (effs : List Effects) (r : Flushed)
      → simple_send (sendmsg t) errno sb ≡ sent bytes sb' effs
      → flush_snd_msgbuf sendmsg fuel (suc t) errno sb' ≡ r
      → flush_snd_msgbuf sendmsg (suc fuel) t errno sb ≡ after_send bytes effs r
  unfolding flush_snd_msgbuf
  flush_sent bytes sb' effs r x y = rw (x, flush_snd_msgbuf, y) refl

-- Each call of `sendmsg` that does not fail takes a byte at least, so with more fuel than there are
-- bytes the loop ends. What was written, followed by what is left, is what was to be sent; the rest
-- of the connection is as it was; and it ends only when nothing is left or the network refuses.
pub flush_snd_msgbuf_lem :
    (sendmsg : ℕ → List RexIov → Answer) (errno : Errno) (fuel t : ℕ) (sb : Sockbase)
    → IsConnector sb
    → AreSending sb.snd.head
    → ((i : ℕ) → IsSendmsg (sendmsg i))
    → length (stream sb.snd.head) < fuel
    → (bytes : List ℕ) × (bh : MsgbufHead) × (effs : List Effects) × (e : Errno) × (flush_snd_msgbuf
          sendmsg fuel t errno sb
        ≡ flushed bytes (with_snd sb bh) effs e)
      × Written sb bytes bh
      × ((i : ℕ) × (i ≤ t + length bytes) × Ends (sendmsg i) (with_snd sb bh))
flush_snd_msgbuf_lem sendmsg errno zero t sb v s net h = absurd (omega (arith, h))
flush_snd_msgbuf_lem sendmsg errno (suc fuel) t sb v s net h =
    elim (simple_send_lem (sendmsg t) errno sb v s (net t)) [
      | inl (e, out, end) ↦ (
        [],
        sb.snd,
        [],
        e,
        flush_stopped sendmsg errno fuel t sb e out,
        record { connector = v; split = refl; sending = s; hndl = refl },
        (t, omega arith, end),
      )
      | inr (bytes, bh, effs, out, pos, w) ↦
          let shorter : length (stream bh.head) < fuel =
            omega
              (arith, h, pos, ap (length {A = ℕ}) w.split, length-append bytes (stream bh.head)) in
          let (bytes', bh', effs', e, out', w', (i, le, end)) =
            flush_snd_msgbuf_lem sendmsg errno fuel (suc t) (with_snd sb bh) w.connector w.sending
              net shorter in
          (
            bytes ++ bytes',
            bh',
            effs ++ effs',
            e,
            flush_sent sendmsg errno fuel t sb bytes (with_snd sb bh) effs
                (flushed bytes' (with_snd sb bh') effs' e) out out',
            record {
              connector = w'.connector;
              split =
                  append_assoc bytes bytes' (stream bh'.head)
                  ∙ ap (λ x. bytes ++ x) w'.split
                  ∙ w.split;
              sending = w'.sending;
              hndl = w'.hndl ∙ w.hndl;
            },
            (i, omega (arith, le, pos, length-append bytes bytes'), end),
          )
    ]
