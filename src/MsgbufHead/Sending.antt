-- ===== src/MsgbufHead/Sending.antt =====
-- The queue of a connection while it is sent: what `msgbuf_head_install_iovs` does to the bytes that
-- are still to be sent, and how many messages it counts as done.
use proxyio.Base.{
  ℕ, suc, ◌+◌, ◌-◌, ◌≤◌, ◌<◌, ◌≡◌, refl, sym, ap, ap₂, subst, ◌∙◌, inl, inr, true, List, [], ◌∷◌,
  ◌++◌, length, drop, take, arith, leb, ◌==◌, Bool-cases, length-drop, drop-append, drop_all,
  drop-nil,
}
use proxyio.Msgbuf.{Msgbuf}
use proxyio.Msgbuf.Tree.{IsMessage, unsent}
use proxyio.Msgbuf.Ordered.{IsOrdered}
use proxyio.Msgbuf.Install.{msgbuf_install_iovs_lem}
use proxyio.Msgbuf.Send.{msgbuf_install_iovs}
use proxyio.MsgbufHead.{MsgbufHead, install_walk, msgbuf_head_install_iovs}

-- The bytes of a queue that are still to be sent.
abbrev pub stream : List Msgbuf → List ℕ
stream [] = []
stream (m ∷ ms) = unsent m ++ stream ms

-- Every message is well formed and sent in order, and has bytes left.
abbrev pub AreSending : List Msgbuf → Type 0
AreSending [] = Unit {0}
AreSending (m ∷ ms) = IsMessage m × IsOrdered m × (0 < length (unsent m)) × AreSending ms

-- What the walk has done: the first `r.1` messages are wholly sent, and the others go on as before.
record Walked (ms : List Msgbuf) (len : ℕ) (r : List Msgbuf × ℕ) : Type 0 where
  bytes : stream r.0 ≡ drop len (stream ms)
  done : stream (take r.1 r.0) ≡ []
  others : AreSending (drop r.1 r.0)
  number : length r.0 ≡ length ms

module _ (m m' : Msgbuf) (ms : List Msgbuf) (len : ℕ)
    (bytes : unsent m' ≡ drop len (unsent m)) where
  length_rest : length (unsent m') ≡ length (unsent m) - len
  length_rest = ap length bytes ∙ length-drop len (unsent m)

  stream_stop : len ≤ length (unsent m) → unsent m' ++ stream ms ≡ drop len (unsent m ++ stream ms)
  stream_stop h =
      let z : len - length (unsent m) ≡ 0 = omega arith in
      sym (
        drop-append len (unsent m) (stream ms) ∙ ap₂ (λ x k. x ++ drop k (stream ms)) (sym bytes) z)

  nothing_left : length (unsent m) ≤ len → unsent m' ≡ []
  nothing_left h = bytes ∙ drop_all len (unsent m) h

  -- The walk stops at the end of a message.
  exact-Walked : AreSending ms → length (unsent m) ≡ len → Walked (m ∷ ms) len (m' ∷ ms, 1)
  exact-Walked v e = record {
    bytes = stream_stop (omega arith);
    done = ap (λ x. x ++ []) (nothing_left (omega arith));
    others = v;
    number = refl;
  }

  -- The walk stops inside a message.
  inside-Walked :
      IsMessage m'
      → IsOrdered m'
      → AreSending ms
      → len < length (unsent m)
      → Walked (m ∷ ms) len (m' ∷ ms, 0)
  inside-Walked w o v h = record {
    bytes = stream_stop (omega arith);
    done = refl;
    others = (w, o, omega (arith, length_rest), v);
    number = refl;
  }

  -- The walk goes on.
  past-Walked :
      (r : List Msgbuf × ℕ)
      → length (unsent m) ≤ len
      → Walked ms (len - length (unsent m)) r
      → Walked (m ∷ ms) len (m' ∷ r.0, suc r.1)
  past-Walked r h w = record {
    bytes =
        ap (λ x. x ++ stream r.0) (nothing_left h)
        ∙ w.bytes
        ∙ sym (
            drop-append len (unsent m) (stream ms)
            ∙ ap (λ x. x ++ drop (len - length (unsent m)) (stream ms))
                (drop_all len (unsent m) h));
    done = ap (λ x. x ++ stream (take r.1 r.0)) (nothing_left h) ∙ w.done;
    others = w.others;
    number = ap suc w.number;
  }

install_walk-Walked :
    (ms : List Msgbuf) (len : ℕ) → AreSending ms → 0 < len → Walked ms len (install_walk ms len)
unfolding install_walk
install_walk-Walked [] len v pos = record {
  bytes = sym (drop-nil len);
  done = refl;
  others = tt;
  number = refl;
}
install_walk-Walked (m ∷ ms) len v pos = elim (Bool-cases (left == 0)) [
  | inl z ↦ rw z (elim (Bool-cases (leb (length (unsent m)) len)) [
    | inl e ↦ rw (x.4, e) (exact-Walked m m' ms len x.2 v.3 (ground (arith, z, e, x.3)))
    | inr k ↦ rw (x.4, k) (inside-Walked m m' ms len x.2 x.0 x.1 v.3 (ground (arith, k)))
  ])
  | inr k ↦
      let e : leb (length (unsent m)) len ≡ true = ground (arith, k, x.3) in
      let one : 1 + (install_walk ms left).1 ≡ suc (install_walk ms left).1 = omega arith in
      rw (k, x.4, e, one)
        (past-Walked m m' ms len x.2 (install_walk ms left) (ground (arith, e)) (
          subst (λ n. Walked ms n (install_walk ms left)) x.3
            (install_walk-Walked ms left v.3 (ground (arith, k)))))
]
  where
    m' : Msgbuf
    m' = (msgbuf_install_iovs m len).0

    left : ℕ
    left = (msgbuf_install_iovs m len).1

    x :
        IsMessage m'
        × IsOrdered m'
        × (unsent m' ≡ drop len (unsent m))
        × (left ≡ len - length (unsent m))
        × ((msgbuf_install_iovs m len).2 ≡ leb (length (unsent m)) len)
    x = msgbuf_install_iovs_lem m len v.0 v.1 pos

-- After the network took `len` bytes, exactly those bytes are gone from the front of the queue's
-- stream; the messages that are counted are the ones at the front that have nothing left to send,
-- and all the others still have.
pub msgbuf_head_install_iovs_lem :
    (bh : MsgbufHead) (len : ℕ)
    → AreSending bh.head
    → 0 < len
    → let (bh', n) = msgbuf_head_install_iovs bh len in
      (stream bh'.head ≡ drop len (stream bh.head))
      × (stream (take n bh'.head) ≡ [])
      × AreSending (drop n bh'.head)
unfolding msgbuf_head_install_iovs
msgbuf_head_install_iovs_lem bh len v pos =
    let w = install_walk-Walked bh.head len v pos in (w.bytes, w.done, w.others)
