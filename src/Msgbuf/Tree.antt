-- ===== src/Msgbuf/Tree.antt =====
-- Well-formed messages, their size, and the bytes that they stand for on the wire.
use proxyio.Base.{
  ℕ, suc, ◌+◌, ◌^◌, ◌≤◌, ◌<◌, ◌≡◌, refl, sym, ap, ◌∙◌, List, [], ◌++◌, length, drop, arith,
  length-append,
}
use proxyio.Msgbuf.Frame.{Msghdr, IsMsghdr, msghdr_size, msghdr_bytes, length-msghdr_bytes}
use proxyio.Msgbuf.{Msgbuf, msgbuf, Msgs, nil, cons, msgbuf_lens, lens_from, add_u32}

abbrev pub count : Msgs → ℕ
count nil = 0
count (cons c cs) = suc (count cs)

-- Sizes that do not wrap.
abbrev mutual
  pub size : Msgbuf → ℕ
  size (msgbuf s h u cs) = (msghdr_size + h.ulen) + sizes cs

  pub sizes : Msgs → ℕ
  sizes nil = 0
  sizes (cons c cs) = size c + sizes cs

-- The header describes the tree: the body has `ulen` bytes, `cmsg_num` children hang below it, of
-- `cmsg_length` bytes in all, and no more of the frame is sent than there is.
abbrev mutual
  pub IsMessage : Msgbuf → Type 0
  IsMessage (msgbuf s h u cs) =
      IsMsghdr h
      × (h.ulen ≡ length u)
      × (h.ulen < 2 ^ 31)
      × (h.cmsg_num ≡ count cs)
      × (h.cmsg_length ≡ sizes cs)
      × (s ≤ msghdr_size + h.ulen)
      × AreMessages cs

  pub AreMessages : Msgs → Type 0
  AreMessages nil = Unit {0}
  AreMessages (cons c cs) = IsMessage c × AreMessages cs

-- The bytes of a message on the wire: its frame, then its children's.
abbrev mutual
  pub wire : Msgbuf → List ℕ
  wire (msgbuf s h u cs) = (msghdr_bytes h ++ u) ++ wires cs

  pub wires : Msgs → List ℕ
  wires nil = []
  wires (cons c cs) = wire c ++ wires cs

-- The bytes that are still to be sent.
abbrev mutual
  pub unsent : Msgbuf → List ℕ
  unsent (msgbuf s h u cs) = drop s (msghdr_bytes h ++ u) ++ unsents cs

  pub unsents : Msgs → List ℕ
  unsents nil = []
  unsents (cons c cs) = unsent c ++ unsents cs

pub length-base :
    (h : Msghdr) (u : List ℕ)
    → h.ulen ≡ length u
    → length (msghdr_bytes h ++ u) ≡ msghdr_size + h.ulen
length-base h u e = omega (arith, length-append (msghdr_bytes h) u, length-msghdr_bytes h)

pub size-bound : (m : Msgbuf) → IsMessage m → size m < 2 ^ 31 + 2 ^ 13
size-bound (msgbuf s h u cs) v = omega (arith, v.0.cmsg_length_fits)

-- The lengths that the code adds up on 32 bits are the sizes.
mutual
  unfolding msgbuf_lens lens_from

  lens_size : (m : Msgbuf) → IsMessage m → msgbuf_lens m ≡ size m
  lens_size (msgbuf s h u cs) v =
      let e : add_u32 msghdr_size h.ulen ≡ msghdr_size + h.ulen = omega arith in
      lens_from_size (add_u32 msghdr_size h.ulen) cs v.6 (omega (arith, v.0.cmsg_length_fits))
      ∙ ap (λ k. k + sizes cs) e

  lens_from_size :
      (iovlen : ℕ) (cs : Msgs)
      → AreMessages cs
      → iovlen + sizes cs < 2 ^ 32
      → lens_from iovlen cs ≡ iovlen + sizes cs
  lens_from_size iovlen nil v h = omega arith
  lens_from_size iovlen (cons c cs) v h =
      let l = lens_size c v.0 in
      let e : add_u32 iovlen (msgbuf_lens c) ≡ iovlen + size c = omega (arith, l) in
      lens_from_size (add_u32 iovlen (msgbuf_lens c)) cs v.1 (omega (arith, e)) ∙ omega (arith, e)

pub msgbuf_lens-size : (m : Msgbuf) → IsMessage m → msgbuf_lens m ≡ size m
msgbuf_lens-size m v = lens_size m v

mutual
  length-wire' : (m : Msgbuf) → IsMessage m → length (wire m) ≡ size m
  length-wire' (msgbuf s h u cs) v = omega (
    arith,
    length-append (msghdr_bytes h ++ u) (wires cs),
    length-base h u v.1,
    length-wires' cs v.6,
  )

  length-wires' : (cs : Msgs) → AreMessages cs → length (wires cs) ≡ sizes cs
  length-wires' nil v = refl
  length-wires' (cons c cs) v =
      omega (arith, length-append (wire c) (wires cs), length-wire' c v.0, length-wires' cs v.1)

-- `msgbuf_lens` is the number of bytes on the wire.
pub msgbuf_lens-wire : (m : Msgbuf) → IsMessage m → msgbuf_lens m ≡ length (wire m)
msgbuf_lens-wire m v = msgbuf_lens-size m v ∙ sym (length-wire' m v)

pub length-wire : (m : Msgbuf) → IsMessage m → length (wire m) ≡ size m
length-wire m v = length-wire' m v

pub length-wires : (cs : Msgs) → AreMessages cs → length (wires cs) ≡ sizes cs
length-wires cs v = length-wires' cs v
