-- ===== src/Msgbuf/Copy.antt =====
-- Copies of messages: `SCOPY` and `clone_ubuf` copy the children, and nothing below them.
use proxyio.Base.{
  ℕ, ◌+◌, ◌^◌, ◌≤◌, ◌<◌, ◌≡◌, refl, sym, ap, ◌∙◌, inl, inr, some, List, length, arith, take,
  take_all, Option-cases,
}
use proxyio.Msgbuf.{Msgbuf, msgbuf, Msgs, nil, cons, ubase, cmsg_head, msgbuf_alloc}
use proxyio.Msgbuf.Tree.{count, size, sizes, IsMessage, AreMessages}
use proxyio.Msgbuf.Ctl.{append, sub_msgbuf_add, ubufdup, copy_children, sub_msgbuf_copy, clone_ubuf}
use proxyio.Msgbuf.Children.{
  sub_msgbuf_add_lem, sizes-append, count-append, append-nil_right, append_assoc_msgs,
}

-- `crc16` returns a `uint16_t`.
module _ (crc16 : List ℕ → ℕ) (crc16_fits : (bytes : List ℕ) → crc16 bytes < 2 ^ 16) where
  abbrev pub dups : Msgs → Msgs
  dups nil = nil
  dups (cons c cs) = cons (ubufdup crc16 c) (dups cs)

  -- A duplicate has the same body, and no children.
  pub ubufdup_lem :
      (m : Msgbuf)
      → IsMessage m
      → IsMessage (ubufdup crc16 m)
        × (ubase (ubufdup crc16 m) ≡ ubase m)
        × (cmsg_head (ubufdup crc16 m) ≡ nil)
        × (size (ubufdup crc16 m) ≤ size m)
  unfolding ubufdup msgbuf_alloc
  ubufdup_lem (msgbuf s h u cs) v =
      let e : take h.ulen u ≡ u = take_all h.ulen u (omega arith) in
      (
        (
          record {
            checksum_fits = crc16_fits _;
            cmsg_num_fits = omega arith;
            cmsg_length_fits = omega arith;
            ulen_fits = v.0.ulen_fits;
          },
          v.1 ∙ ap length (sym e),
          v.2,
          refl,
          refl,
          omega arith,
          tt,
        ),
        e,
        refl,
        omega arith,
      )

  dups_lem :
      (cs : Msgs)
      → AreMessages cs
      → AreMessages (dups cs) × (count (dups cs) ≡ count cs) × (sizes (dups cs) ≤ sizes cs)
  dups_lem nil v = (tt, refl, omega arith)
  dups_lem (cons c cs) v =
      let d = ubufdup_lem c v.0 in
      let ih = dups_lem cs v.1 in ((d.0, ih.0), omega (arith, ih.1), omega (arith, ih.2, d.3))

  copy_children_lem :
      (cs : Msgs) (dest : Msgbuf)
      → AreMessages cs
      → IsMessage dest
      → count (cmsg_head dest) + count cs ≤ 15
      → sizes (cmsg_head dest) + sizes cs ≤ 4095
      → IsMessage (copy_children crc16 cs dest)
        × (cmsg_head (copy_children crc16 cs dest) ≡ append (cmsg_head dest) (dups cs))
  unfolding copy_children
  copy_children_lem nil dest v w n l = (w, sym (append-nil_right (cmsg_head dest)))
  copy_children_lem (cons c cs) dest v w n l = elim (sub_msgbuf_add_lem dest dup w d.0) [
    | inl (e, no_room) ↦ absurd (no_room (omega arith, omega (arith, d.3)))
    | inr (m, e, f, wf, cm, sz) ↦ rw e (
        let one = cons dup nil in
        let ih =
          copy_children_lem cs m v.1 wf
            (omega (arith, ap count cm, count-append (cmsg_head dest) one))
            (omega (arith, ap sizes cm, sizes-append (cmsg_head dest) one, d.3)) in
        (
          ih.0,
          ih.1 ∙ ap (λ x. append x (dups cs)) cm ∙ append_assoc_msgs (cmsg_head dest) one (dups cs),
        ))
  ]
    where
      dup : Msgbuf
      dup = ubufdup crc16 c

      d : IsMessage dup × (ubase dup ≡ ubase c) × (cmsg_head dup ≡ nil) × (size dup ≤ size c)
      d = ubufdup_lem c v.0

  ubase-add : (m new m' : Msgbuf) → sub_msgbuf_add m new ≡ some m' → ubase m' ≡ ubase m
  unfolding sub_msgbuf_add
  ubase-add (msgbuf s h u cs) new (msgbuf t k w ds) e = ground arith

  ubase-copy_children :
      (cs : Msgs) (dest : Msgbuf) → ubase (copy_children crc16 cs dest) ≡ ubase dest
  unfolding copy_children
  ubase-copy_children nil dest = refl
  ubase-copy_children (cons c cs) dest =
      elim (Option-cases (sub_msgbuf_add dest (ubufdup crc16 c))) [
        | inl e ↦ rw e (ubase-copy_children cs dest)
        | inr (m, e) ↦ rw e (ubase-copy_children cs m ∙ ubase-add dest (ubufdup crc16 c) m e)
      ]

  -- A clone of a well-formed message is well formed, with the same body and with a duplicate of
  -- each child, in order: no child is dropped.
  pub clone_ubuf_lem :
      (src : Msgbuf)
      → IsMessage src
      → IsMessage (clone_ubuf crc16 src)
        × (cmsg_head (clone_ubuf crc16 src) ≡ dups (cmsg_head src))
        × (ubase (clone_ubuf crc16 src) ≡ ubase src)
  unfolding clone_ubuf sub_msgbuf_copy
  clone_ubuf_lem (msgbuf s h u cs) v = (
    copied.0,
    copied.1 ∙ ap (λ x. append x (dups cs)) d.2,
    ubase-copy_children cs (ubufdup crc16 (msgbuf s h u cs)) ∙ d.1,
  )
    where
      src : Msgbuf
      src = msgbuf s h u cs

      d :
          IsMessage (ubufdup crc16 src)
          × (ubase (ubufdup crc16 src) ≡ u)
          × (cmsg_head (ubufdup crc16 src) ≡ nil)
          × (size (ubufdup crc16 src) ≤ size src)
      d = ubufdup_lem src v

      copied :
          IsMessage (copy_children crc16 cs (ubufdup crc16 src))
          × (cmsg_head (copy_children crc16 cs (ubufdup crc16 src))
              ≡ append (cmsg_head (ubufdup crc16 src)) (dups cs))
      copied =
          copy_children_lem cs (ubufdup crc16 src) v.6 d.0
            (omega (arith, ap count d.2, v.3, v.0.cmsg_num_fits))
            (omega (arith, ap sizes d.2, v.4, v.0.cmsg_length_fits))
