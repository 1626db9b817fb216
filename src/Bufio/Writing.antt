-- ===== src/Bufio/Writing.antt =====
-- `bio_write` puts bytes at the back of the queue that a buffer stands for.
use proxyio.Base.{
  ℕ, zero, suc, ◌+◌, ◌-◌, ◌%◌, ◌^◌, ◌≤◌, ◌<◌, min, ◌≡◌, refl, sym, ap, ◌∙◌, ◌⊎◌, inl, inr, false,
  List, [], ◌∷◌, ◌++◌, none, some, some-injective, subst, take, drop, length, arith, length-append,
  length-take, length-drop, append-nil, append_assoc, take-add, Bool-cases, Option-cases,
}
use proxyio.Bufio.Pages.{Page, page_size, bio_page_new, bio_page_write}
use proxyio.Bufio.Contents.{
  page_bytes, IsPage, bio_page_new-IsPage, bio_page_full_lem, bio_page_write_lem,
}
use proxyio.Bufio.Stream.{bytes_of, contents, ArePages, IsBio}
use proxyio.Bufio.{
  Bio, bio_last, list_empty, is_time_to_expand, bio_expand_one_page, write_last, make_room,
  write_loop, bio_write,
}

-- Some page is last, and it has room.
abbrev HasRoom : List Page → Type 0
HasRoom ps = (p : Page) × (bio_last ps ≡ some p) × (length (page_bytes p) < page_size)

bytes_of-append : (ps qs : List Page) → bytes_of (ps ++ qs) ≡ bytes_of ps ++ bytes_of qs
bytes_of-append [] qs = refl
bytes_of-append (p ∷ ps) qs =
    ap (λ x. page_bytes p ++ x) (bytes_of-append ps qs)
    ∙ sym (append_assoc (page_bytes p) (bytes_of ps) (bytes_of qs))

ArePages-append : (ps qs : List Page) → ArePages ps → ArePages qs → ArePages (ps ++ qs)
ArePages-append [] qs v w = w
ArePages-append (p ∷ ps) qs v w = (v.0, ArePages-append ps qs v.1 w)

bio_last-append : (ps : List Page) (p : Page) → bio_last (ps ++ p ∷ []) ≡ some p
unfolding bio_last
bio_last-append [] p = refl
bio_last-append (q ∷ []) p = refl
bio_last-append (q ∷ r ∷ ps) p = bio_last-append (r ∷ ps) p

bio_last-IsPage : (ps : List Page) (p : Page) → ArePages ps → bio_last ps ≡ some p → IsPage p
unfolding bio_last
bio_last-IsPage [] p v e = cc
bio_last-IsPage (q ∷ []) p v e = ground arith
bio_last-IsPage (q ∷ r ∷ ps) p v e = bio_last-IsPage (r ∷ ps) p v.1 e

-- When no new page is called for, the last one has room.
no_expand-HasRoom : (ps : List Page) → ArePages ps → is_time_to_expand ps ≡ false → HasRoom ps
unfolding is_time_to_expand list_empty
no_expand-HasRoom [] v e = cc
no_expand-HasRoom (q ∷ qs) v e = elim (Option-cases (bio_last (q ∷ qs))) [
  | inl n ↦ absurd (ground (arith, n, e))
  | inr (p, l) ↦ (p, l, bio_page_full_lem p (bio_last-IsPage (q ∷ qs) p v l) (ground (arith, l, e)))
]

-- What `make_room` gives: the same bytes, and room at the end.
record Roomy (budget : ℕ) (b : Bio) (r : ℕ × Bio) : Type 0 where
  pages : ArePages r.1.page_head
  bytes : contents r.1 ≡ contents b
  size : r.1.bsize ≡ b.bsize
  spent : r.0 ≤ budget
  has_room : HasRoom r.1.page_head

expand-Roomy :
    (budget : ℕ) (b : Bio) (r : ℕ × Bio)
    → ArePages b.page_head
    → bio_expand_one_page budget b ≡ some r
    → Roomy budget b r
unfolding bio_expand_one_page
expand-Roomy zero b r v e = absurd (cc)
expand-Roomy (suc n) b r v e = subst (Roomy (suc n) b) (some-injective _ _ e) (record {
  pages = ArePages-append b.page_head (bio_page_new ∷ []) v (bio_page_new-IsPage.0, tt);
  bytes =
      bytes_of-append b.page_head (bio_page_new ∷ [])
      ∙ ap (λ x. contents b ++ (x ++ [])) bio_page_new-IsPage.1
      ∙ append-nil (contents b);
  size = refl;
  spent = omega arith;
  has_room = (
    bio_page_new,
    bio_last-append b.page_head bio_page_new,
    omega (arith, ap length bio_page_new-IsPage.1),
  );
})

make_room-Roomy :
    (budget : ℕ) (b : Bio) (r : ℕ × Bio)
    → ArePages b.page_head
    → make_room budget b ≡ some r
    → Roomy budget b r
unfolding make_room
make_room-Roomy budget b r v e = elim (Bool-cases (is_time_to_expand b.page_head)) [
  | inl t ↦ expand-Roomy budget b r v (ground (arith, t, e))
  | inr f ↦ subst (Roomy budget b) (kept f) (record {
    pages = v;
    bytes = refl;
    size = refl;
    spent = omega arith;
    has_room = no_expand-HasRoom b.page_head v f;
  })
]
  where
    kept : is_time_to_expand b.page_head ≡ false → (budget, b) ≡ r
    kept f = ground (arith, f, e)

make_room-none : (budget : ℕ) (b : Bio) → make_room budget b ≡ none → budget ≡ 0
unfolding make_room bio_expand_one_page
make_room-none zero b e = refl
make_room-none (suc n) b e = ground arith

write_last_lem :
    (ps : List Page) (p : Page) (buff : List ℕ)
    → ArePages ps
    → bio_last ps ≡ some p
    → let (qs, n) = write_last ps buff (length buff) in
      ArePages qs
      × (n ≡ min (length buff) (page_size - length (page_bytes p)))
      × (bytes_of qs ≡ bytes_of ps ++ take n buff)
unfolding write_last bio_last
write_last_lem [] p buff v e = absurd (cc)
write_last_lem (q ∷ []) p buff v e =
    let w = bio_page_write_lem q buff v.0 in
    (
      (w.0, tt),
      w.1 ∙ ap (λ x. min (length buff) (page_size - length (page_bytes x))) (some-injective _ _ e),
      append-nil (page_bytes (bio_page_write q buff (length buff)).0)
          ∙ w.2
          ∙ ap (λ x. x ++ take (bio_page_write q buff (length buff)).1 buff)
              (sym (append-nil (page_bytes q))),
    )
write_last_lem (q ∷ r ∷ ps) p buff v e =
    let ih = write_last_lem (r ∷ ps) p buff v.1 e in
    (
      (v.0, ih.0),
      ih.1,
      ap (λ x. page_bytes q ++ x) ih.2
          ∙ sym (
              append_assoc (page_bytes q) (bytes_of (r ∷ ps))
                (take (write_last (r ∷ ps) buff (length buff)).1 buff)),
    )

-- What the loop has done when it stops: a prefix of the bytes is at the end, and it is all of
-- them unless the allocator gave out.
record Stored (budget : ℕ) (b : Bio) (rest : List ℕ) (nbytes : ℕ) (r : ℕ × Bio × ℕ) : Type 0 where
  pages : ArePages r.1.page_head
  size : r.1.bsize ≡ b.bsize
  least : nbytes ≤ r.2
  most : r.2 ≤ nbytes + length rest
  bytes : contents r.1 ≡ contents b ++ take (r.2 - nbytes) rest
  spent : r.0 ≤ budget
  stops : (r.2 ≡ nbytes + length rest) ⊎ (r.0 ≡ 0)

Stored-stop :
    (budget : ℕ) (b : Bio) (rest : List ℕ) (nbytes : ℕ)
    → ArePages b.page_head
    → (length rest ≡ 0) ⊎ (budget ≡ 0)
    → Stored budget b rest nbytes (budget, b, nbytes)
Stored-stop budget b rest nbytes v h = record {
  pages = v;
  size = refl;
  least = omega arith;
  most = omega arith;
  bytes =
      let e : nbytes - nbytes ≡ 0 = omega arith in
      sym (ap (λ k. contents b ++ take k rest) e ∙ append-nil (contents b));
  spent = omega arith;
  stops = ground arith;
}

-- One round: room is made, `n` bytes are stored, and the loop goes on with the others.
Stored-round :
    (budget : ℕ) (b : Bio) (rest : List ℕ) (nbytes n : ℕ) (m : ℕ × Bio) (ps : List Page)
    (r : ℕ × Bio × ℕ)
    → Roomy budget b m
    → n ≤ length rest
    → bytes_of ps ≡ contents m.1 ++ take n rest
    → Stored m.0 (record m.1 { page_head = ps }) (drop n rest) (nbytes + n) r
    → Stored budget b rest nbytes r
Stored-round budget b rest nbytes n m ps r room h e s = record {
  pages = s.pages;
  size = s.size ∙ room.size;
  least = omega (arith, s.least);
  most = omega (arith, s.most, length-drop n rest);
  bytes =
      s.bytes
      ∙ ap (λ x. x ++ take (r.2 - (nbytes + n)) (drop n rest))
          (e ∙ ap (λ x. x ++ take n rest) room.bytes)
      ∙ append_assoc (contents b) (take n rest) (take (r.2 - (nbytes + n)) (drop n rest))
      ∙ ap (λ x. contents b ++ x) (sym joined);
  spent = omega (arith, s.spent, room.spent);
  stops = ground (arith, s.stops, length-drop n rest);
}
  where
    joined : take (r.2 - nbytes) rest ≡ take n rest ++ take (r.2 - (nbytes + n)) (drop n rest)
    joined =
        let k : r.2 - nbytes ≡ n + (r.2 - (nbytes + n)) = omega (arith, s.least) in
        ap (λ x. take x rest) k ∙ take-add n (r.2 - (nbytes + n)) rest

write_loop-Stored :
    (fuel budget : ℕ) (b : Bio) (rest : List ℕ) (nbytes : ℕ)
    → ArePages b.page_head
    → length rest ≤ fuel
    → Stored budget b rest nbytes (write_loop fuel budget b rest nbytes)
unfolding write_loop
write_loop-Stored zero budget b rest nbytes v h =
    Stored-stop budget b rest nbytes v (inl (omega arith))
write_loop-Stored (suc fuel) budget b [] nbytes v h = Stored-stop budget b [] nbytes v (inl refl)
write_loop-Stored (suc fuel) budget b (c ∷ cs) nbytes v h =
    elim (Option-cases (make_room budget b)) [
      | inl e ↦
          rw (e, write_loop)
            (Stored-stop budget b (c ∷ cs) nbytes v (inr (make_room-none budget b e)))
      | inr (m, e) ↦
          rw (e, write_loop)
            (let room = make_room-Roomy budget b m v e in
              let w =
                write_last_lem m.1.page_head room.has_room.0 (c ∷ cs) room.pages room.has_room.1 in
              let n = (write_last m.1.page_head (c ∷ cs) (length (c ∷ cs))).1 in
              Stored-round budget b (c ∷ cs) nbytes n m _ _ room (omega (arith, w.1)) w.2 (
                write_loop-Stored fuel m.0 _ (drop n (c ∷ cs)) (nbytes + n) w.0
                  (omega (arith, w.1, room.has_room.2, length-drop n (c ∷ cs)))))
    ]

-- A write appends a prefix of the bytes and counts it; it falls short only when no page can be
-- allocated any more.
pub bio_write_lem :
    (budget : ℕ) (b : Bio) (buff : List ℕ)
    → IsBio b
    → b.bsize + length buff < 2 ^ 63
    → let (budget', b', n) = bio_write budget b buff in
      IsBio b'
      × (n ≤ length buff)
      × (contents b' ≡ contents b ++ take n buff)
      × ((n ≡ length buff) ⊎ (budget' ≡ 0))
      × (budget' ≤ budget)
unfolding bio_write
bio_write_lem budget b buff v h = (
  record { pages = s.pages; counted = size; small = omega (arith, size, s.size, s.most, bytes) },
  omega (arith, s.most),
  whole,
  ground (arith, s.stops),
  s.spent,
)
  where
    r : ℕ × Bio × ℕ
    r = write_loop (length buff) budget b buff 0

    s : Stored budget b buff 0 r
    s = write_loop-Stored (length buff) budget b buff 0 v.pages (omega arith)

    whole : contents r.1 ≡ contents b ++ take r.2 buff
    whole = let e : r.2 - 0 ≡ r.2 = omega arith in s.bytes ∙ ap (λ k. contents b ++ take k buff) e

    bytes : length (contents r.1) ≡ b.bsize + r.2
    bytes = omega (
      arith,
      ap length whole,
      length-append (contents b) (take r.2 buff),
      length-take r.2 buff,
      s.most,
      v.counted,
    )

    size : (r.1.bsize + r.2) % 2 ^ 64 ≡ length (contents r.1)
    size = omega (arith, bytes, s.size, s.most, v.small)
