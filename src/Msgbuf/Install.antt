-- ===== src/Msgbuf/Install.antt =====
-- `msgbuf_install_iovs` against the bytes of a message that are still to be sent.
use proxyio.Base.{
  ℕ, ◌+◌, ◌-◌, ◌≤◌, ◌<◌, ◌≡◌, refl, sym, ap, ap₂, ◌∙◌, inl, inr, true, false, List, [], ◌++◌, drop,
  length, arith, ltb, leb, ◌==◌, Bool-cases, length-append, length-drop, drop-append, drop-drop,
  drop_all, drop-nil,
}
use proxyio.Msgbuf.Frame.{Msghdr, msghdr_size, msghdr_bytes}
use proxyio.Msgbuf.{Msgbuf, msgbuf, Msgs, nil, cons, add_u32, sub_u32}
use proxyio.Msgbuf.Tree.{count, size, sizes, IsMessage, AreMessages, unsent, unsents, length-base}
use proxyio.Msgbuf.Send.{install, install_children, msgbuf_install_iovs}
use proxyio.Msgbuf.Ordered.{AreUntouched, IsOrdered, AreOrdered, length-unsents}

-- How the offsets of a message have moved on by `len` bytes: `left` bytes were too many, and the
-- offsets add up to `installed`.
record Moved (m : Msgbuf) (len : ℕ) (r : Msgbuf × ℕ × ℕ) : Type 0 where
  message : IsMessage r.0
  ordered : IsOrdered r.0
  same : size r.0 ≡ size m
  bytes : unsent r.0 ≡ drop len (unsent m)
  left : r.1 ≡ len - length (unsent m)
  sent : r.2 + length (unsent r.0) ≡ size m

record MovedAll (cs : Msgs) (len : ℕ) (r : Msgs × ℕ × ℕ) : Type 0 where
  message : AreMessages r.0
  ordered : AreOrdered r.0
  same : sizes r.0 ≡ sizes cs
  bytes : unsents r.0 ≡ drop len (unsents cs)
  left : r.1 ≡ len - length (unsents cs)
  sent : r.2 + length (unsents r.0) ≡ sizes cs
  number : count r.0 ≡ count cs

-- The frame of one message: it takes all the bytes, or leaves some to the children.
module _ (s : ℕ) (h : Msghdr) (u : List ℕ) (cs : Msgs) (len : ℕ) (v : IsMessage (msgbuf s h u cs))
    (o : IsOrdered (msgbuf s h u cs)) (pos : 0 < len) where
  base : List ℕ
  base = msghdr_bytes h ++ u

  length-base' : length base ≡ msghdr_size + h.ulen
  unfolding base
  length-base' = length-base h u v.1

  length_own : length (drop s base) ≡ msghdr_size + h.ulen - s
  length_own = omega (arith, length-drop s base, length-base')

  length_all : length (drop s base ++ unsents cs) ≡ msghdr_size + h.ulen - s + length (unsents cs)
  length_all = omega (arith, length-append (drop s base) (unsents cs), length_own)

  frame_takes-Moved :
      (e : len ≤ msghdr_size + h.ulen - s)
      → Moved (msgbuf s h u cs) len (msgbuf (s + len) h u cs, 0, s + len)
  unfolding base
  frame_takes-Moved e = record {
    message = (v.0, v.1, v.2, v.3, v.4, omega arith, v.6);
    ordered = (o.0, λ k. o.1 (omega arith));
    same = refl;
    bytes = sym gone;
    left = omega (arith, length_all);
    sent = omega (
      arith,
      length-append (drop (s + len) base) (unsents cs),
      length-drop (s + len) base,
      length-base',
      length-unsents cs v.6 (o.1 (omega arith)),
    );
  }
    where
      gone : drop len (drop s base ++ unsents cs) ≡ drop (s + len) base ++ unsents cs
      gone =
          let z : len - length (drop s base) ≡ 0 = omega (arith, length_own) in
          drop-append len (drop s base) (unsents cs)
          ∙ ap₂ (λ x k. x ++ drop k (unsents cs)) (drop-drop len s base) z

  -- The frame is done, and the children get the rest.
  children_take-Moved :
      (rest : ℕ) (r : Msgs × ℕ × ℕ)
      → msghdr_size + h.ulen - s + rest ≡ len
      → MovedAll cs rest r
      → Moved
          (msgbuf s h u cs)
          len
          (msgbuf (msghdr_size + h.ulen) h u r.0, r.1, msghdr_size + h.ulen + r.2)
  unfolding base
  children_take-Moved rest r e a = record {
    message = (v.0, v.1, v.2, v.3 ∙ sym a.number, v.4 ∙ sym a.same, omega arith, a.message);
    ordered = (a.ordered, λ k. absurd (omega arith));
    same = omega (arith, a.same);
    bytes = ap (λ x. x ++ unsents r.0) done ∙ a.bytes ∙ sym gone;
    left = omega (arith, a.left, length_all);
    sent = omega (arith, a.sent, ap length (ap (λ x. x ++ unsents r.0) done));
  }
    where
      done : drop (msghdr_size + h.ulen) base ≡ []
      done = drop_all (msghdr_size + h.ulen) base (omega (arith, length-base'))

      gone : drop len (drop s base ++ unsents cs) ≡ drop rest (unsents cs)
      gone =
          let z : len - length (drop s base) ≡ rest = omega (arith, length_own, v.5) in
          drop-append len (drop s base) (unsents cs)
          ∙ ap₂ (λ x k. x ++ drop k (unsents cs))
              (drop_all len (drop s base) (omega (arith, length_own))) z

-- The first child takes all the bytes, and the walk stops there.
first_takes-MovedAll :
    (c : Msgbuf) (cs : Msgs) (len : ℕ) (r : Msgbuf × ℕ × ℕ)
    → AreMessages (cons c cs)
    → AreOrdered (cons c cs)
    → 0 < len
    → Moved c len r
    → r.1 ≡ 0
    → MovedAll (cons c cs) len (cons r.0 cs, 0, r.2)
first_takes-MovedAll c cs len r v o pos m z = record {
  message = (m.message, v.1);
  ordered = (m.ordered, o.1, λ k. behind);
  same = omega (arith, m.same);
  bytes = ap (λ x. x ++ unsents cs) m.bytes ∙ sym gone;
  left = omega (arith, m.left, length-append (unsent c) (unsents cs));
  sent =
      omega (arith, m.sent, length-append (unsent r.0) (unsents cs), length-unsents cs v.1 behind);
  number = refl;
}
  where
    behind : AreUntouched cs
    behind = o.2 (omega (arith, m.left))

    gone : drop len (unsent c ++ unsents cs) ≡ drop len (unsent c) ++ unsents cs
    gone =
        let k : len - length (unsent c) ≡ 0 = omega (arith, m.left) in
        drop-append len (unsent c) (unsents cs)
        ∙ ap (λ n. drop len (unsent c) ++ drop n (unsents cs)) k

-- The first child is done, and the others get the rest.
others_take-MovedAll :
    (c : Msgbuf) (cs : Msgs) (len : ℕ) (r : Msgbuf × ℕ × ℕ) (q : Msgs × ℕ × ℕ)
    → Moved c len r
    → 0 < r.1
    → MovedAll cs r.1 q
    → MovedAll (cons c cs) len (cons r.0 q.0, q.1, r.2 + q.2)
others_take-MovedAll c cs len r q m pos a = record {
  message = (m.message, a.message);
  ordered = (m.ordered, a.ordered, λ k. absurd (omega (arith, ap length done)));
  same = omega (arith, m.same, a.same);
  bytes = ap (λ x. x ++ unsents q.0) done ∙ a.bytes ∙ sym gone;
  left = omega (arith, a.left, m.left, length-append (unsent c) (unsents cs));
  sent = omega (arith, m.sent, a.sent, length-append (unsent r.0) (unsents q.0), ap length done);
  number = omega (arith, a.number);
}
  where
    done : unsent r.0 ≡ []
    done = m.bytes ∙ drop_all len (unsent c) (omega (arith, m.left))

    gone : drop len (unsent c ++ unsents cs) ≡ drop r.1 (unsents cs)
    gone =
        drop-append len (unsent c) (unsents cs)
        ∙ ap₂ (λ x n. x ++ drop n (unsents cs)) (drop_all len (unsent c) (omega (arith, m.left)))
            (sym m.left)

mutual
  unfolding install install_children

  install_moves :
      (m : Msgbuf) (len : ℕ) → IsMessage m → IsOrdered m → 0 < len → Moved m len (install m len)
  install_moves (msgbuf s h u cs) len v o pos =
      let avail = sub_u32 (add_u32 msghdr_size h.ulen) s in
      elim (Bool-cases (ltb avail len)) [
        | inl t ↦ rw t (
            let test : (len - avail == 0) ≡ false = ground (arith, t) in
            let soff' : add_u32 s avail ≡ msghdr_size + h.ulen = omega (arith, v.2, v.5) in
            let rest : msghdr_size + h.ulen - s + (len - avail) ≡ len =
              ground (arith, t, v.2, v.5) in
            rw (test, soff')
              (children_take-Moved s h u cs len v o pos (len - avail)
                (install_children cs (len - avail)) rest
                (install_children_moves cs (len - avail) v.6 o.0 (ground (arith, t)))))
        | inr f ↦ rw f (
            let test : (len - len == 0) ≡ true = ground arith in
            let within : len ≤ msghdr_size + h.ulen - s = ground (arith, f, v.2, v.5) in
            let soff' : add_u32 s len ≡ s + len = omega (arith, within, v.2, v.5) in
            rw (test, soff') (frame_takes-Moved s h u cs len v o pos within))
      ]

  install_children_moves :
      (cs : Msgs) (len : ℕ)
      → AreMessages cs
      → AreOrdered cs
      → 0 < len
      → MovedAll cs len (install_children cs len)
  install_children_moves nil len v o pos = record {
    message = tt;
    ordered = tt;
    same = refl;
    bytes = sym (drop-nil len);
    left = omega arith;
    sent = refl;
    number = refl;
  }
  install_children_moves (cons c cs) len v o pos =
      let r = install c len in
      let m = install_moves c len v.0 o.0 pos in
      elim (Bool-cases (r.1 == 0)) [
        | inl z ↦ rw z (first_takes-MovedAll c cs len r v o pos m (ground (arith, z)))
        | inr k ↦ rw k (
            let more : 0 < r.1 = ground (arith, k) in
            others_take-MovedAll c cs len r (install_children cs r.1) m more
              (install_children_moves cs r.1 v.1 o.1 more))
      ]

-- When the network took `len` bytes, exactly the first `len` bytes still to be sent are gone,
-- what was too much is left over, and the result says whether all of the message is sent.
pub msgbuf_install_iovs_lem :
    (m : Msgbuf) (len : ℕ)
    → IsMessage m
    → IsOrdered m
    → 0 < len
    → let (m', left, done) = msgbuf_install_iovs m len in
      IsMessage m'
      × IsOrdered m'
      × (unsent m' ≡ drop len (unsent m))
      × (left ≡ len - length (unsent m))
      × (done ≡ leb (length (unsent m)) len)
unfolding msgbuf_install_iovs
msgbuf_install_iovs_lem (msgbuf s h u cs) len v o pos =
    (mv.message, mv.ordered, mv.bytes, mv.left, finished)
  where
    m : Msgbuf
    m = msgbuf s h u cs

    mv : Moved m len (install m len)
    mv = install_moves m len v o pos

    rest : length (unsent (install m len).0) ≡ length (unsent m) - len
    rest = ap length mv.bytes ∙ length-drop len (unsent m)

    whole : add_u32 (add_u32 msghdr_size h.ulen) h.cmsg_length ≡ size m
    whole = omega (arith, v.2, v.4, v.0.cmsg_length_fits)

    finished :
        ((install m len).2 == add_u32 (add_u32 msghdr_size h.ulen) h.cmsg_length)
        ≡ leb (length (unsent m)) len
    finished = ground (arith, whole, mv.sent, rest)
