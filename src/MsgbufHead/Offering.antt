-- ===== src/MsgbufHead/Offering.antt =====
-- What `msgbuf_head_preinstall_iovs` offers to the network: the front of the queue's stream.
use proxyio.Base.{
  ℕ, zero, suc, ◌-◌, ◌≤◌, ◌<◌, ◌^◌, ◌+◌, ◌≡◌, ◌≢◌, refl, sym, ap, ap₂, subst, ◌∙◌, inl, inr, true,
  List, [], ◌∷◌, ◌++◌, take, drop, length, arith, ltb, min, Bool-cases, length-append, length-take,
  length-drop, take-nil, take-append-drop, take-take,
}
use proxyio.Msgbuf.Frame.{Msghdr, msghdr_size, msghdr_bytes}
use proxyio.Msgbuf.{Msgbuf, msgbuf, Msgs, nil, cons, add_u32, sub_u32}
use proxyio.Msgbuf.Tree.{IsMessage, AreMessages, unsent, length-base}
use proxyio.Msgbuf.Send.{RexIov, own_iov, msgbuf_serialize}
use proxyio.Msgbuf.Fragments.{
  fragments, fragments_all, msgbuf_serialize_lem, serialize_step, iov_bytes, all_bytes,
  all_bytes-append, fragments-unsent,
}
use proxyio.MsgbufHead.{preinstall_walk}
use proxyio.MsgbufHead.Sending.{stream, AreSending}

abbrev pub queue_fragments : List Msgbuf → List RexIov
queue_fragments [] = []
queue_fragments (m ∷ ms) = fragments m ++ queue_fragments ms

pub preinstall_walk-take :
    (ms : List Msgbuf) (n : ℕ) → preinstall_walk ms n ≡ take n (queue_fragments ms)
unfolding preinstall_walk
preinstall_walk-take [] n = sym (take-nil n)
preinstall_walk-take (m ∷ ms) n =
    let got = msgbuf_serialize m n in
    serialize_step n (fragments m) (queue_fragments ms) got (preinstall_walk ms (n - length got))
      (msgbuf_serialize_lem m n).0 (preinstall_walk-take ms (n - length got))

queue_fragments-stream :
    (ms : List Msgbuf) → AreSending ms → all_bytes (queue_fragments ms) ≡ stream ms
queue_fragments-stream [] v = refl
queue_fragments-stream (m ∷ ms) v =
    all_bytes-append (fragments m) (queue_fragments ms)
    ∙ ap₂ (λ x y. x ++ y) (fragments-unsent m v.0) (queue_fragments-stream ms v.3)

-- The bytes offered are a front of the stream.
pub offered-stream :
    (ms : List Msgbuf) (n : ℕ)
    → AreSending ms
    → all_bytes (preinstall_walk ms n) ++ all_bytes (drop n (queue_fragments ms)) ≡ stream ms
offered-stream ms n v =
    ap (λ x. all_bytes x ++ all_bytes (drop n (queue_fragments ms))) (preinstall_walk-take ms n)
    ∙ sym (all_bytes-append (take n (queue_fragments ms)) (drop n (queue_fragments ms)))
    ∙ ap all_bytes (take-append-drop n (queue_fragments ms))
    ∙ queue_fragments-stream ms v

-- No entry is empty.
abbrev AreFull : List RexIov → Type 0
AreFull [] = Unit {0}
AreFull (f ∷ fs) = (0 < length (iov_bytes f)) × AreFull fs

append-AreFull : (fs gs : List RexIov) → AreFull fs → AreFull gs → AreFull (fs ++ gs)
append-AreFull [] gs v w = w
append-AreFull (f ∷ fs) gs v w = (v.0, append-AreFull fs gs v.1 w)

own_iov-AreFull :
    (s : ℕ) (h : Msghdr) (u : List ℕ)
    → h.ulen ≡ length u
    → h.ulen < 2 ^ 31
    → s ≤ msghdr_size + h.ulen
    → AreFull (own_iov s h u)
unfolding own_iov
own_iov-AreFull s h u e small le = elim (Bool-cases (ltb 0 len)) [
  | inl t ↦ rw t (
    omega (
      arith,
      length-take len (drop s (msghdr_bytes h ++ u)),
      length-drop s (msghdr_bytes h ++ u),
      length-base h u e,
      positive t,
    ),
    tt,
  )
  | inr f ↦ rw f tt
]
  where
    len : ℕ
    len = sub_u32 (add_u32 msghdr_size h.ulen) s

    positive : ltb 0 len ≡ true → 0 < len
    positive t = ground (arith, t)

mutual
  fragments-AreFull : (m : Msgbuf) → IsMessage m → AreFull (fragments m)
  fragments-AreFull (msgbuf s h u cs) v =
      append-AreFull (own_iov s h u) (fragments_all cs) (own_iov-AreFull s h u v.1 v.2 v.5)
        (fragments_all-AreFull cs v.6)

  fragments_all-AreFull : (cs : Msgs) → AreMessages cs → AreFull (fragments_all cs)
  fragments_all-AreFull nil v = tt
  fragments_all-AreFull (cons c cs) v =
      append-AreFull (fragments c) (fragments_all cs) (fragments-AreFull c v.0)
        (fragments_all-AreFull cs v.1)

queue_fragments-AreFull : (ms : List Msgbuf) → AreSending ms → AreFull (queue_fragments ms)
queue_fragments-AreFull [] v = tt
queue_fragments-AreFull (m ∷ ms) v =
    append-AreFull (fragments m) (queue_fragments ms) (fragments-AreFull m v.0)
      (queue_fragments-AreFull ms v.3)

front :
    (fs : List RexIov) (n : ℕ) → AreFull fs → fs ≢ [] → 0 < n → 0 < length (all_bytes (take n fs))
front [] n v ne pos = absurd (ne refl)
front (f ∷ fs) zero v ne pos = absurd (omega (arith, pos))
front (f ∷ fs) (suc n) v ne pos =
    omega (arith, v.0, length-append (iov_bytes f) (all_bytes (take n fs)))

-- A queue that has something to send offers at least a byte.
pub offered-positive :
    (m : Msgbuf) (ms : List Msgbuf) (n : ℕ)
    → AreSending (m ∷ ms)
    → 0 < n
    → 0 < length (all_bytes (preinstall_walk (m ∷ ms) n))
offered-positive m ms n v pos =
    let some_left : queue_fragments (m ∷ ms) ≢ [] = λ none_left.
      let e : stream (m ∷ ms) ≡ [] =
        sym (queue_fragments-stream (m ∷ ms) v) ∙ ap all_bytes none_left in
      omega (arith, ap (length {A = ℕ}) e, length-append (unsent m) (stream ms), v.2) in
    subst (λ vs. 0 < length (all_bytes vs)) (sym (preinstall_walk-take (m ∷ ms) n))
      (front (queue_fragments (m ∷ ms)) n (queue_fragments-AreFull (m ∷ ms) v) some_left pos)

-- An array that has room for all entries stays as it is.
pub take-preinstall_walk :
    (ms : List Msgbuf) (n : ℕ) → take n (preinstall_walk ms n) ≡ preinstall_walk ms n
take-preinstall_walk ms n =
    let e : min n n ≡ n = omega arith in
    ap (take n) (preinstall_walk-take ms n)
    ∙ take-take n n (queue_fragments ms)
    ∙ ap (λ k. take k (queue_fragments ms)) e
    ∙ sym (preinstall_walk-take ms n)
