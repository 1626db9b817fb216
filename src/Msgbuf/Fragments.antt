-- ===== src/Msgbuf/Fragments.antt =====
-- `msgbuf_serialize` against a plain listing of the fragments of a message.
use proxyio.Base.{
  ℕ, ◌+◌, ◌-◌, ◌^◌, ◌≤◌, ◌<◌, min, ◌≡◌, refl, sym, ap, ap₂, ◌∙◌, inl, inr, List, [], ◌∷◌, ◌++◌, map,
  concat, take, drop, length, arith, ltb, ◌==◌, if◌then◌else◌, Bool-cases, length-take, take-append,
  take-nil, take_all, append-nil, append_assoc, length-drop, drop_all,
}
use mathlib.Core.List.{map-append}
use proxyio.Msgbuf.Frame.{Msghdr, msghdr_size, msghdr_bytes}
use proxyio.Msgbuf.{Msgbuf, msgbuf, Msgs, nil, cons, add_u32, sub_u32}
use proxyio.Msgbuf.Tree.{IsMessage, AreMessages, unsent, unsents, length-base}
use proxyio.Msgbuf.Send.{RexIov, own_iov, msgbuf_serialize, serialize_children}

-- All the fragments, parents before children.
abbrev mutual
  pub fragments : Msgbuf → List RexIov
  fragments (msgbuf s h u cs) = own_iov s h u ++ fragments_all cs

  pub fragments_all : Msgs → List RexIov
  fragments_all nil = []
  fragments_all (cons c cs) = fragments c ++ fragments_all cs

abbrev pub iov_bytes : RexIov → List ℕ
iov_bytes v = take v.iov_len v.iov_base

length-own_iov : (s : ℕ) (h : Msghdr) (u : List ℕ) → length (own_iov s h u) ≤ 1
unfolding own_iov
length-own_iov s h u = ground arith

-- A child's entries and then the others', with the early end when the array is full.
pub serialize_step :
    (n : ℕ) (front back got more : List RexIov)
    → got ≡ take n front
    → more ≡ take (n - length got) back
    → (if length got == n then got else got ++ more) ≡ take n (front ++ back)
serialize_step n front back got more e f = elim (Bool-cases (length got == n)) [
  | inl full ↦ rw full (
      let z : n - length front ≡ 0 = ground (arith, full, l) in
      sym (take-append n front back ∙ ap₂ (λ x k. x ++ take k back) (sym e) z ∙ append-nil got))
  | inr part ↦ rw part (
      let z : n - length got ≡ n - length front = ground (arith, part, l) in
      ap (λ x. got ++ x) (f ∙ ap (λ k. take k back) z)
      ∙ ap (λ x. x ++ take (n - length front) back) e
      ∙ sym (take-append n front back))
]
  where
    l : length got ≡ min n (length front)
    l = ap length e ∙ length-take n front

mutual
  unfolding msgbuf_serialize serialize_children

  serialize_take : (m : Msgbuf) (n : ℕ) → msgbuf_serialize m n ≡ take n (fragments m)
  serialize_take (msgbuf s h u cs) n = elim (Bool-cases (n == 0)) [
    | inl z ↦ rw z (
        let e : n ≡ 0 = ground (arith, z) in sym (ap (λ k. take k (fragments (msgbuf s h u cs))) e))
    | inr z ↦ rw z (
        ap (λ x. own_iov s h u ++ x) (serialize_children-take cs (n - length (own_iov s h u)))
        ∙ sym (
            take-append n (own_iov s h u) (fragments_all cs)
            ∙ ap (λ x. x ++ take (n - length (own_iov s h u)) (fragments_all cs))
                (take_all n (own_iov s h u) (ground (arith, z, length-own_iov s h u)))))
  ]

  serialize_children-take :
      (cs : Msgs) (n : ℕ) → serialize_children cs n ≡ take n (fragments_all cs)
  serialize_children-take nil n = sym (take-nil n)
  serialize_children-take (cons c cs) n =
      let got = msgbuf_serialize c n in
      serialize_step n (fragments c) (fragments_all cs) got (serialize_children cs (n - length got))
        (serialize_take c n) (serialize_children-take cs (n - length got))

-- The entries installed are the first `n` fragments, so never more than there is room for (the
-- BUG_ON does not fire).
pub msgbuf_serialize_lem :
    (m : Msgbuf) (n : ℕ)
    → (msgbuf_serialize m n ≡ take n (fragments m)) × (length (msgbuf_serialize m n) ≤ n)
msgbuf_serialize_lem m n =
    (serialize_take m n, omega (arith, ap length (serialize_take m n), length-take n (fragments m)))

pub concat-append : (xs ys : List (List ℕ)) → concat (xs ++ ys) ≡ concat xs ++ concat ys
concat-append [] ys = refl
concat-append (x ∷ xs) ys =
    ap (λ z. x ++ z) (concat-append xs ys) ∙ sym (append_assoc x (concat xs) (concat ys))

abbrev pub all_bytes : List RexIov → List ℕ
all_bytes vs = concat (map iov_bytes vs)

pub all_bytes-append : (vs ws : List RexIov) → all_bytes (vs ++ ws) ≡ all_bytes vs ++ all_bytes ws
all_bytes-append vs ws =
    ap concat (map-append iov_bytes vs ws) ∙ concat-append (map iov_bytes vs) (map iov_bytes ws)

own_iov_bytes :
    (s : ℕ) (h : Msghdr) (u : List ℕ)
    → h.ulen ≡ length u
    → h.ulen < 2 ^ 31
    → s ≤ msghdr_size + h.ulen
    → all_bytes (own_iov s h u) ≡ drop s (msghdr_bytes h ++ u)
unfolding own_iov
own_iov_bytes s h u e small le = elim (Bool-cases (ltb 0 len)) [
  | inl t ↦ rw t (append-nil (take len left) ∙ take_all len left (omega (arith, size, b)))
  | inr f ↦ rw f (sym (drop_all s (msghdr_bytes h ++ u) (ground (arith, f, b))))
]
  where
    len : ℕ
    len = sub_u32 (add_u32 msghdr_size h.ulen) s

    left : List ℕ
    left = drop s (msghdr_bytes h ++ u)

    b : length (msghdr_bytes h ++ u) ≡ msghdr_size + h.ulen
    b = length-base h u e

    size : length left ≡ length (msghdr_bytes h ++ u) - s
    size = length-drop s (msghdr_bytes h ++ u)

mutual
  pub fragments-unsent : (m : Msgbuf) → IsMessage m → all_bytes (fragments m) ≡ unsent m
  fragments-unsent (msgbuf s h u cs) v =
      all_bytes-append (own_iov s h u) (fragments_all cs)
      ∙ ap₂ (λ x y. x ++ y) (own_iov_bytes s h u v.1 v.2 v.5) (fragments_all_unsent cs v.6)

  fragments_all_unsent : (cs : Msgs) → AreMessages cs → all_bytes (fragments_all cs) ≡ unsents cs
  fragments_all_unsent nil v = refl
  fragments_all_unsent (cons c cs) v =
      all_bytes-append (fragments c) (fragments_all cs)
      ∙ ap₂ (λ x y. x ++ y) (fragments-unsent c v.0) (fragments_all_unsent cs v.1)

-- With room for all fragments, the bytes of the entries are the bytes still to be sent, in order.
pub msgbuf_serialize-unsent :
    (m : Msgbuf) (n : ℕ)
    → IsMessage m
    → length (fragments m) ≤ n
    → all_bytes (msgbuf_serialize m n) ≡ unsent m
msgbuf_serialize-unsent m n v h =
    ap all_bytes ((msgbuf_serialize_lem m n).0 ∙ take_all n (fragments m) h) ∙ fragments-unsent m v
