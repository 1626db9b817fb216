-- ===== src/Msgbuf/RoundTrip.antt =====
-- What goes over the wire is read back.
use proxyio.Base.{
  ℕ, zero, suc, ◌+◌, ◌^◌, ◌≤◌, ◌<◌, ◌≡◌, refl, sym, ap, ap₂, ◌∙◌, true, false, List, [], ◌++◌, some,
  length, take, drop, arith, ltb, ◌==◌, append-nil, append_assoc, length-append, length-replicate,
  replicate, take-append_length, drop-append_length, drop_all,
}
use proxyio.Bufio.{Bio, bio_read}
use proxyio.Bufio.Stream.{contents, IsBio, bio_copy_lem}
use proxyio.Bufio.Reading.{bio_read_lem}
use proxyio.Msgbuf.Frame.{
  Msghdr, IsMsghdr, msghdr_size, msghdr_bytes, msghdr_of, length-msghdr_bytes,
  msghdr_of-msghdr_bytes, u32_bytes,
}
use proxyio.Msgbuf.{Msgbuf, msgbuf, Msgs, nil, cons, frame, add_u32, msgbuf_base, msgbuf_alloc}
use proxyio.Msgbuf.Tree.{count, IsMessage, AreMessages, wire, wires, length-base, length-wires}
use proxyio.Msgbuf.Ctl.{append}
use proxyio.Msgbuf.Children.{append-nil_right, append_assoc_msgs}
use proxyio.Msgbuf.Parse.{
  Outcome, done, peek, msgbuf_recv_finish, overlay, extract_msgbuf, add_tail, take_children,
  msgbuf_deserialize,
}

-- The message with nothing sent.
abbrev mutual
  pub rewind : Msgbuf → Msgbuf
  rewind (msgbuf s h u cs) = msgbuf 0 h u (rewinds cs)

  pub rewinds : Msgs → Msgs
  rewinds nil = nil
  rewinds (cons c cs) = cons (rewind c) (rewinds cs)

-- How deep messages are nested.
abbrev mutual
  pub height : Msgbuf → ℕ
  height (msgbuf s h u cs) = suc (heights cs)

  pub heights : Msgs → ℕ
  heights nil = 0
  heights (cons c cs) = height c + heights cs

overlay_lem :
    (m : Msgbuf) (h : Msghdr) (u out : List ℕ)
    → IsMsghdr h
    → out ≡ msghdr_bytes h ++ u
    → length (msgbuf_base m) ≤ length out
    → overlay m out ≡ msgbuf 0 h u nil
unfolding overlay
overlay_lem m h u out v e le =
    ap (λ mem. msgbuf 0 (msghdr_of mem) (drop msghdr_size mem) nil) whole
    ∙ ap₂ (λ k w. msgbuf 0 k w nil) (msghdr_of-msghdr_bytes h u v) body
  where
    whole : out ++ drop (length out) (msgbuf_base m) ≡ msghdr_bytes h ++ u
    whole = ap (λ x. out ++ x) (drop_all (length out) (msgbuf_base m) le) ∙ append-nil out ∙ e

    body : drop msghdr_size (msghdr_bytes h ++ u) ≡ u
    body =
        ap (λ n. drop n (msghdr_bytes h ++ u)) (sym (length-msghdr_bytes h))
        ∙ drop-append_length (msghdr_bytes h) u

abbrev add_tails : Msgbuf → Msgs → Msgbuf
add_tails m nil = m
add_tails m (cons c cs) = add_tails (add_tail m c) cs

-- The header at the front of a buffer.
pub peek-front :
    (b : Bio) (h : Msghdr) (rest : List ℕ)
    → IsBio b
    → contents b ≡ msghdr_bytes h ++ rest
    → IsMsghdr h
    → peek b ≡ h
unfolding peek
peek-front b h rest bio front v =
    ap (λ r. msghdr_of r.1) (bio_copy_lem b msghdr_size bio.pages)
    ∙ ap msghdr_of head
    ∙ ap msghdr_of (sym (append-nil (msghdr_bytes h)))
    ∙ msghdr_of-msghdr_bytes h [] v
  where
    head : take msghdr_size (contents b) ≡ msghdr_bytes h
    head =
        ap (take msghdr_size) front
        ∙ ap (λ n. take n (msghdr_bytes h ++ rest)) (sym (length-msghdr_bytes h))
        ∙ take-append_length (msghdr_bytes h) rest

module _ (b : Bio) (h : Msghdr) (u rest : List ℕ) (bio : IsBio b)
    (front : contents b ≡ (msghdr_bytes h ++ u) ++ rest) (header : IsMsghdr h)
    (body : h.ulen ≡ length u) (small : h.ulen < 2 ^ 31) (below : h.cmsg_length ≤ length rest) where
  held : b.bsize ≡ msghdr_size + h.ulen + length rest
  held = omega (
    arith,
    bio.counted,
    ap length front,
    length-append (msghdr_bytes h ++ u) rest,
    length-base h u body,
  )

  peek_lem : peek b ≡ h
  peek_lem = peek-front b h (u ++ rest) bio (front ∙ append_assoc (msghdr_bytes h) u rest) header

  pub recv_finish_lem : msgbuf_recv_finish b ≡ true
  unfolding msgbuf_recv_finish
  recv_finish_lem = rw peek_lem (ground (arith, held, header.cmsg_length_fits))

  -- One frame comes off the front of the buffer.
  pub extract_lem :
      (crc16 : List ℕ → ℕ)
      → (b' : Bio) × (extract_msgbuf crc16 b ≡ some (msgbuf 0 h u nil, b'))
        × IsBio b'
        × (contents b' ≡ rest)
  unfolding extract_msgbuf msgbuf_alloc
  extract_lem crc16 = (
    (bio_read b n).0,
    rw (peek_lem, short, exact)
        (ap (λ x. some (x, (bio_read b n).0)) (overlay_lem _ h u (bio_read b n).2 header out fits)),
    read.0,
    rest_left,
  )
    where
      n : ℕ
      n = add_u32 msghdr_size h.ulen

      framed : n ≡ length (msghdr_bytes h ++ u)
      framed = omega (arith, length-base h u body)

      read :
          IsBio (bio_read b n).0
          × ((bio_read b n).1 ≡ length (bio_read b n).2)
          × ((bio_read b n).2 ≡ take n (contents b))
          × (contents (bio_read b n).0 ≡ drop n (contents b))
      read = bio_read_lem b n bio

      out : (bio_read b n).2 ≡ msghdr_bytes h ++ u
      out = read.2 ∙ ap₂ take framed front ∙ take-append_length (msghdr_bytes h ++ u) rest

      rest_left : contents (bio_read b n).0 ≡ rest
      rest_left = read.3 ∙ ap₂ drop framed front ∙ drop-append_length (msghdr_bytes h ++ u) rest

      short : ltb b.bsize n ≡ false
      short = ground (arith, held)

      exact : ((bio_read b n).1 == n) ≡ true
      exact = ground (arith, read.1, ap length out, framed)

      zeros : length {A = ℕ} (replicate h.ulen 0) ≡ h.ulen
      zeros = length-replicate {A = ℕ} h.ulen 0

      fits :
          length (
            msghdr_bytes (record {
              checksum = crc16 (u32_bytes h.ulen);
              cmsg_num = 0;
              cmsg_length = 0;
              ulen = h.ulen;
            })
            ++ replicate h.ulen 0)
          ≤ length (bio_read b n).2
      fits = omega (arith, ap length out, framed, length-base _ (replicate h.ulen 0) (sym zeros))

add_tails-append :
    (s : ℕ) (h : Msghdr) (u : List ℕ) (cs ds : Msgs)
    → add_tails (msgbuf s h u cs) ds ≡ msgbuf s h u (append cs ds)
unfolding add_tail
add_tails-append s h u cs nil = ap (msgbuf s h u) (sym (append-nil_right cs))
add_tails-append s h u cs (cons d ds) =
    add_tails-append s h u (append cs (cons d nil)) ds
    ∙ ap (msgbuf s h u) (append_assoc_msgs cs (cons d nil) ds)

pub deserialize_step :
    (crc16 : List ℕ → ℕ) (fuel : ℕ) (b b' : Bio) (m : Msgbuf)
    → msgbuf_recv_finish b ≡ true
    → extract_msgbuf crc16 b ≡ some (m, b')
    → msgbuf_deserialize crc16 (suc fuel) b
      ≡ take_children (msgbuf_deserialize crc16 fuel) (frame m).cmsg_num m b'
unfolding msgbuf_deserialize
deserialize_step crc16 fuel b b' m e f = rw (e, f) refl

take_children_step :
    (deserialize : Bio → Outcome) (n : ℕ) (msg s : Msgbuf) (b b' : Bio)
    → deserialize b ≡ done s b'
    → take_children deserialize (suc n) msg b ≡ take_children deserialize n (add_tail msg s) b'
unfolding take_children
take_children_step deserialize n msg s b b' e = rw (e, take_children) refl

take_children_stop :
    (deserialize : Bio → Outcome) (msg : Msgbuf) (b : Bio)
    → take_children deserialize 0 msg b ≡ done msg b
unfolding take_children
take_children_stop deserialize msg b = refl

mutual
  deserialize_wire :
      (crc16 : List ℕ → ℕ) (m : Msgbuf) (fuel : ℕ) (b : Bio) (rest : List ℕ)
      → IsMessage m
      → height m ≤ fuel
      → IsBio b
      → contents b ≡ wire m ++ rest
      → (b' : Bio) × (msgbuf_deserialize crc16 fuel b ≡ done (rewind m) b')
        × IsBio b'
        × (contents b' ≡ rest)
  deserialize_wire crc16 (msgbuf s h u cs) zero b rest v f bio front = absurd (omega arith)
  deserialize_wire crc16 (msgbuf s h u cs) (suc fuel) b rest v f bio front =
      let front' = front ∙ append_assoc (msghdr_bytes h ++ u) (wires cs) rest in
      let below : h.cmsg_length ≤ length (wires cs ++ rest) =
        omega (arith, length-append (wires cs) rest, length-wires cs v.6, v.4) in
      let x = extract_lem b h u (wires cs ++ rest) bio front' v.0 v.1 v.2 below crc16 in
      let y = children_wire crc16 cs fuel (msgbuf 0 h u nil) x.0 rest v.6 (omega arith) x.2 x.3 in
      (
        y.0,
        deserialize_step crc16 fuel b x.0 (msgbuf 0 h u nil)
              (recv_finish_lem b h u (wires cs ++ rest) bio front' v.0 v.1 v.2 below) x.1
            ∙ ap (λ n. take_children (msgbuf_deserialize crc16 fuel) n (msgbuf 0 h u nil) x.0) v.3
            ∙ y.1
            ∙ ap (λ m. done m y.0) (add_tails-append 0 h u nil (rewinds cs)),
        y.2,
        y.3,
      )

  children_wire :
      (crc16 : List ℕ → ℕ) (cs : Msgs) (fuel : ℕ) (msg : Msgbuf) (b : Bio) (rest : List ℕ)
      → AreMessages cs
      → heights cs ≤ fuel
      → IsBio b
      → contents b ≡ wires cs ++ rest
      → (b' : Bio) × (take_children (msgbuf_deserialize crc16 fuel) (count cs) msg b
          ≡ done (add_tails msg (rewinds cs)) b')
        × IsBio b'
        × (contents b' ≡ rest)
  children_wire crc16 nil fuel msg b rest v f bio front =
      (b, take_children_stop (msgbuf_deserialize crc16 fuel) msg b, bio, front)
  children_wire crc16 (cons c cs) fuel msg b rest v f bio front =
      let front' = front ∙ append_assoc (wire c) (wires cs) rest in
      let x = deserialize_wire crc16 c fuel b (wires cs ++ rest) v.0 (omega arith) bio front' in
      let y =
        children_wire crc16 cs fuel (add_tail msg (rewind c)) x.0 rest v.1 (omega arith) x.2 x.3 in
      (
        y.0,
        take_children_step (msgbuf_deserialize crc16 fuel) (count cs) msg (rewind c) b x.0 x.1
            ∙ y.1,
        y.2,
        y.3,
      )

-- What is on the wire is read back: a buffer that begins with the bytes of a well-formed message
-- gives that message, with nothing marked as sent, and keeps the bytes behind it. The fuel needed is
-- the height of the message.
pub msgbuf_deserialize-wire :
    (crc16 : List ℕ → ℕ) (m : Msgbuf) (fuel : ℕ) (b : Bio) (rest : List ℕ)
    → IsMessage m
    → height m ≤ fuel
    → IsBio b
    → contents b ≡ wire m ++ rest
    → (b' : Bio) × (msgbuf_deserialize crc16 fuel b ≡ done (rewind m) b')
      × IsBio b'
      × (contents b' ≡ rest)
msgbuf_deserialize-wire crc16 m fuel b rest v f bio front =
    deserialize_wire crc16 m fuel b rest v f bio front
