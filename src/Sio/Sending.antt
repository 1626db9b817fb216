-- ===== src/Sio/Sending.antt =====
-- What one `sendmsg` of a flush does to the send queue.
use proxyio.Base.{
  ℕ, ◌≤◌, ◌<◌, ◌≡◌, refl, sym, ap, ap₂, ◌∙◌, ◌⊎◌, inl, inr, false, List, [], ◌∷◌, ◌++◌, some, take,
  drop, length, arith, ◌==◌, if◌then◌else◌, length-take, take-append_left, take-append-drop, subst,
}
use proxyio.Msgbuf.{Msgbuf}
use proxyio.Msgbuf.Fragments.{all_bytes}
use proxyio.Msgbuf.Send.{RexIov}
use proxyio.MsgbufHead.{MsgbufHead, msgbuf_head_preinstall_iovs, preinstall_walk}
use proxyio.MsgbufHead.Sending.{stream, AreSending}
use proxyio.MsgbufHead.Offering.{
  offered-stream, offered-positive, take-preinstall_walk, queue_fragments,
}
use proxyio.Socket.{Sockbase, Effects}
use proxyio.Socket.Readiness.{IsConnector}
use proxyio.Sio.{
  Errno, eagain, epipe, can_retry, Answer, moved, failed, rex_gen_send, sndhead_preinstall_iovs,
  sndhead_install_iovs, sent, stopped, installed, simple_send,
}
use proxyio.Sio.Flush.{with_snd, sndhead_install_iovs_lem}

-- A `sendmsg` that does not fail takes a byte at least, and no more than it is given.
pub record IsSendmsg (sendmsg : List RexIov → Answer) : Type 0 where
  pub takes :
      (iovs : List RexIov) (n : ℕ)
      → 0 < length (all_bytes iovs)
      → sendmsg iovs ≡ moved n
      → (0 < n) × (n ≤ length (all_bytes iovs))

-- The bytes that are written and those that are left are what was to be sent.
pub record Written (sb : Sockbase) (bytes : List ℕ) (bh : MsgbufHead) : Type 0 where
  pub connector : IsConnector (with_snd sb bh)
  pub split : bytes ++ stream bh.head ≡ stream sb.snd.head
  pub sending : AreSending bh.head
  pub hndl : bh.ev_hndl ≡ sb.snd.ev_hndl

-- Nothing is left, or the network refuses what it is offered.
abbrev pub Ends : (List RexIov → Answer) → Sockbase → Type 0
Ends sendmsg sb =
    (sb.snd.head ≡ []) ⊎ ((e : Errno) × (sendmsg (sndhead_preinstall_iovs sb) ≡ failed e))

answer_cases : (a : Answer) → ((n : ℕ) × (a ≡ moved n)) ⊎ ((e : Errno) × (a ≡ failed e))
answer_cases (moved n) = inl (n, refl)
answer_cases (failed e) = inr (e, refl)

module _ (sendmsg : List RexIov → Answer) (errno : Errno) (sb : Sockbase) where
  preinstall_all : take 100 (sndhead_preinstall_iovs sb) ≡ sndhead_preinstall_iovs sb
  unfolding sndhead_preinstall_iovs msgbuf_head_preinstall_iovs
  preinstall_all = take-preinstall_walk sb.snd.head 100

  gen_send_step :
      (a : Answer)
      → sendmsg (sndhead_preinstall_iovs sb) ≡ a
      → rex_gen_send sendmsg (sndhead_preinstall_iovs sb)
        ≡ elim a [ moved rc ↦ moved rc | failed e ↦ failed (if can_retry e then eagain else epipe) ]
  unfolding rex_gen_send
  gen_send_step a e = rw (ap sendmsg preinstall_all ∙ e, rex_gen_send) refl

  send_nothing : sndhead_preinstall_iovs sb ≡ [] → simple_send sendmsg errno sb ≡ stopped eagain
  unfolding simple_send
  send_nothing e = rw (e, simple_send) refl

  send_failed :
      (e : Errno)
      → (length (sndhead_preinstall_iovs sb) == 0) ≡ false
      → rex_gen_send sendmsg (sndhead_preinstall_iovs sb) ≡ failed e
      → simple_send sendmsg errno sb ≡ stopped e
  unfolding simple_send
  send_failed e k f = rw (k, f, simple_send) refl

  installed_step :
      (bytes : List ℕ) (n : ℕ) (r : Sockbase × List Effects)
      → sndhead_install_iovs sb n ≡ some r
      → installed bytes sb n ≡ sent bytes r.0 r.1
  unfolding installed
  installed_step bytes n r g = rw (g, installed) refl

  send_moved :
      (n : ℕ) (r : Sockbase × List Effects)
      → (length (sndhead_preinstall_iovs sb) == 0) ≡ false
      → rex_gen_send sendmsg (sndhead_preinstall_iovs sb) ≡ moved n
      → (n == 0) ≡ false
      → sndhead_install_iovs sb n ≡ some r
      → simple_send sendmsg errno sb
        ≡ sent (take n (all_bytes (sndhead_preinstall_iovs sb))) r.0 r.1
  unfolding simple_send
  send_moved n r k f pos g =
      rw (k, f, pos) (installed_step (take n (all_bytes (sndhead_preinstall_iovs sb))) n r g)

  -- What one send does.
  abbrev Sends : Type 0
  Sends =
      ((e : Errno) × (simple_send sendmsg errno sb ≡ stopped e) × Ends sendmsg sb)
      ⊎ ((bytes : List ℕ) × (bh : MsgbufHead) × (effs : List Effects) × (simple_send sendmsg errno
              sb
            ≡ sent bytes (with_snd sb bh) effs)
          × (0 < length bytes)
          × Written sb bytes bh)

  module _ (v : IsConnector sb) (s : AreSending sb.snd.head) (net : IsSendmsg sendmsg) where
    positive :
        (m : Msgbuf) (ms : List Msgbuf)
        → sb.snd.head ≡ m ∷ ms
        → 0 < length (all_bytes (sndhead_preinstall_iovs sb))
    unfolding sndhead_preinstall_iovs msgbuf_head_preinstall_iovs
    positive m ms e =
        subst (λ l. 0 < length (all_bytes (preinstall_walk l 100))) (sym e)
          (offered-positive m ms 100 (subst AreSending e s) (omega arith))

    offered :
        all_bytes (sndhead_preinstall_iovs sb) ++ all_bytes (drop 100 (queue_fragments sb.snd.head))
        ≡ stream sb.snd.head
    unfolding sndhead_preinstall_iovs msgbuf_head_preinstall_iovs
    offered = offered-stream sb.snd.head 100 s

    not_none :
        0 < length (all_bytes (sndhead_preinstall_iovs sb))
        → (length (sndhead_preinstall_iovs sb) == 0) ≡ false
    not_none pos = go (sndhead_preinstall_iovs sb) pos
      where
        go : (vs : List RexIov) → 0 < length (all_bytes vs) → (length vs == 0) ≡ false
        go [] h = absurd (omega (arith, h))
        go (x ∷ vs) h = ground arith

    -- The network took `n` bytes.
    taken :
        (n : ℕ)
        → (length (sndhead_preinstall_iovs sb) == 0) ≡ false
        → sendmsg (sndhead_preinstall_iovs sb) ≡ moved n
        → 0 < n
        → n ≤ length (all_bytes (sndhead_preinstall_iovs sb))
        → Sends
    taken n k answer pos le =
        let bytes : List ℕ = all_bytes (sndhead_preinstall_iovs sb) in
        let (bh, effs, out, gone) = sndhead_install_iovs_lem sb n v s pos in
        let front : take n bytes ≡ take n (stream sb.snd.head) =
          sym (take-append_left n bytes (all_bytes (drop 100 (queue_fragments sb.snd.head))) le)
          ∙ ap (take n) offered in
        inr (
          take n bytes,
          bh,
          effs,
          send_moved n (with_snd sb bh, effs) k (gen_send_step (moved n) answer)
              (ground (arith, pos)) out,
          omega (arith, length-take n bytes, pos, le),
          record {
            connector = gone.connector;
            split = ap₂ (λ x y. x ++ y) front gone.bytes ∙ take-append-drop n (stream sb.snd.head);
            sending = gone.sending;
            hndl = gone.hndl;
          },
        )

    pub simple_send_lem : Sends
    unfolding sndhead_preinstall_iovs msgbuf_head_preinstall_iovs preinstall_walk
    simple_send_lem = go sb.snd.head refl
      where
        go : (ms : List Msgbuf) → sb.snd.head ≡ ms → Sends
        go [] e = inl (eagain, send_nothing (ap (λ l. preinstall_walk l 100) e), inl e)
        go (m ∷ ms) e =
            let pos = positive m ms e in
            elim (answer_cases (sendmsg (sndhead_preinstall_iovs sb))) [
              | inl (n, answer) ↦
                  let k = net.takes (sndhead_preinstall_iovs sb) n pos answer in
                  taken n (not_none pos) answer k.0 k.1
              | inr (x, answer) ↦ inl (
                _,
                send_failed _ (not_none pos) (gen_send_step (failed x) answer),
                inr (x, answer),
              )
            ]
