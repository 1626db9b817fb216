-- ===== src/Msgbuf/Malformed.antt =====
-- `msgbuf_deserialize` on what is not, or not yet, a whole message.
use proxyio.Base.{
  ℕ, suc, ◌+◌, ◌-◌, ◌^◌, ◌≤◌, ◌<◌, ◌≡◌, refl, sym, ap, ◌∙◌, inl, inr, true, false, List, [], some,
  ◌++◌, length, take, drop, arith, ltb, Bool-cases, append-nil, append_assoc, length-append,
  take-append_left, take-append-drop, take-append_length,
}
use proxyio.Bufio.{Bio}
use proxyio.Bufio.Stream.{contents, IsBio}
use proxyio.Msgbuf.Frame.{Msghdr, IsMsghdr, msghdr_size, msghdr_bytes, length-msghdr_bytes}
use proxyio.Msgbuf.{Msgbuf, msgbuf, nil}
use proxyio.Msgbuf.Tree.{IsMessage, wire, wires, length-base, length-wires}
use proxyio.Msgbuf.Parse.{
  again, bug, peek, msgbuf_recv_finish, extract_msgbuf, take_children, msgbuf_deserialize,
}
use proxyio.Msgbuf.RoundTrip.{peek-front, recv_finish_lem, extract_lem, deserialize_step}

-- A buffer that holds eight bytes of a longer text begins with the text's header.
begins :
    (xs more hdr tail : List ℕ)
    → xs ++ more ≡ hdr ++ tail
    → length hdr ≤ length xs
    → xs ≡ hdr ++ drop (length hdr) xs
begins xs more hdr tail e h =
    sym (take-append-drop (length hdr) xs)
    ∙ ap (λ z. z ++ drop (length hdr) xs)
        (sym (take-append_left (length hdr) xs more h)
          ∙ ap (take (length hdr)) e
          ∙ take-append_length hdr tail)

pub recv_finish_short : (b : Bio) → b.bsize < msghdr_size → msgbuf_recv_finish b ≡ false
unfolding msgbuf_recv_finish
recv_finish_short b h = ground arith

recv_finish_part :
    (b : Bio) (h : Msghdr)
    → peek b ≡ h
    → IsMsghdr h
    → h.ulen < 2 ^ 31
    → b.bsize < msghdr_size + h.ulen + h.cmsg_length
    → msgbuf_recv_finish b ≡ false
unfolding msgbuf_recv_finish
recv_finish_part b h e v small k = rw e (ground (arith, v.cmsg_length_fits))

pub deserialize_again :
    (crc16 : List ℕ → ℕ) (fuel : ℕ) (b : Bio)
    → msgbuf_recv_finish b ≡ false
    → msgbuf_deserialize crc16 (suc fuel) b ≡ again
unfolding msgbuf_deserialize
deserialize_again crc16 fuel b e = rw e refl

-- Nothing is delivered of a message that has not arrived whole: on a proper prefix of its bytes the
-- result is EAGAIN.
pub msgbuf_deserialize-prefix :
    (crc16 : List ℕ → ℕ) (m : Msgbuf) (fuel : ℕ) (b : Bio) (more : List ℕ)
    → IsMessage m
    → IsBio b
    → contents b ++ more ≡ wire m
    → 0 < length more
    → msgbuf_deserialize crc16 (suc fuel) b ≡ again
msgbuf_deserialize-prefix crc16 (msgbuf s h u cs) fuel b more v bio e pos =
    deserialize_again crc16 fuel b (elim (Bool-cases (ltb b.bsize msghdr_size)) [
      | inl short ↦ recv_finish_short b (ground (arith, short))
      | inr long ↦ recv_finish_part b h (head (ground (arith, long))) v.0 v.2 part
    ])
  where
    tail : List ℕ
    tail = u ++ wires cs

    split : contents b ++ more ≡ msghdr_bytes h ++ tail
    split = e ∙ append_assoc (msghdr_bytes h) u (wires cs)

    head : msghdr_size ≤ b.bsize → peek b ≡ h
    head k =
        peek-front b h (drop (length (msghdr_bytes h)) (contents b)) bio
          (begins (contents b) more (msghdr_bytes h) tail split
            (omega (arith, length-msghdr_bytes h, bio.counted)))
          v.0

    part : b.bsize < msghdr_size + h.ulen + h.cmsg_length
    part = omega (
      arith,
      bio.counted,
      ap length e,
      length-append (contents b) more,
      length-append (msghdr_bytes h ++ u) (wires cs),
      length-base h u v.1,
      length-wires cs v.6,
      v.4,
    )

children_bug :
    (crc16 : List ℕ → ℕ) (fuel n : ℕ) (msg : Msgbuf) (b : Bio)
    → msgbuf_deserialize crc16 fuel b ≡ again
    → take_children (msgbuf_deserialize crc16 fuel) (suc n) msg b ≡ bug
unfolding take_children
children_bug crc16 fuel n msg b e = rw (e, take_children) refl

-- A peer can abort the process: a frame that announces children and claims that they have no bytes
-- passes the check for completeness, and the first child meets the BUG_ON.
pub msgbuf_deserialize-aborts :
    (crc16 : List ℕ → ℕ) (h : Msghdr) (u : List ℕ) (fuel n : ℕ) (b : Bio)
    → IsMsghdr h
    → h.ulen ≡ length u
    → h.ulen < 2 ^ 31
    → h.cmsg_num ≡ suc n
    → h.cmsg_length ≡ 0
    → IsBio b
    → contents b ≡ msghdr_bytes h ++ u
    → msgbuf_deserialize crc16 (suc (suc fuel)) b ≡ bug
msgbuf_deserialize-aborts crc16 h u fuel n b v body small num len bio e =
    deserialize_step crc16 (suc fuel) b x.0 (msgbuf 0 h u nil)
      (recv_finish_lem b h u [] bio front v body small below) x.1
    ∙ ap (λ k. take_children (msgbuf_deserialize crc16 (suc fuel)) k (msgbuf 0 h u nil) x.0) num
    ∙ children_bug crc16 (suc fuel) n (msgbuf 0 h u nil) x.0 (
        deserialize_again crc16 fuel x.0
          (recv_finish_short x.0 (omega (arith, x.2.counted, ap length x.3))))
  where
    front : contents b ≡ (msghdr_bytes h ++ u) ++ []
    front = e ∙ sym (append-nil (msghdr_bytes h ++ u))

    below : h.cmsg_length ≤ 0
    below = omega arith

    x :
        (b' : Bio) × (extract_msgbuf crc16 b ≡ some (msgbuf 0 h u nil, b'))
        × IsBio b'
        × (contents b' ≡ [])
    x = extract_lem b h u [] bio front v body small below crc16

-- A size close to 2 ^ 32 wraps: eight bytes are then taken for a whole message.
pub msgbuf_recv_finish-wraps :
    (h : Msghdr) (rest : List ℕ) (b : Bio)
    → IsMsghdr h
    → 2 ^ 32 - msghdr_size ≤ h.ulen
    → h.cmsg_length ≡ 0
    → IsBio b
    → contents b ≡ msghdr_bytes h ++ rest
    → msgbuf_recv_finish b ≡ true
unfolding msgbuf_recv_finish
msgbuf_recv_finish-wraps h rest b v big len bio e = rw (peek-front b h rest bio e v) (
    ground (
      arith,
      bio.counted,
      ap length e,
      length-append (msghdr_bytes h) rest,
      length-msghdr_bytes h,
      v.ulen_fits,
    ))
