-- ===== src/Bufio/Reading.antt =====
-- `bio_read` takes bytes off the front of the queue that a buffer stands for.
use proxyio.Base.{
  ℕ, zero, suc, ◌+◌, ◌-◌, ◌≤◌, ◌<◌, ◌≡◌, refl, sym, ap, ap₂, ◌∙◌, inl, inr, true, false, List, [],
  ◌∷◌, ◌++◌, take, drop, length, arith, ltb, length-append, length-take, length-drop, take-append,
  drop-append, drop-append_right, min, subst, take-nil, drop-nil, append-nil, append_assoc,
  Bool-cases,
}
use proxyio.Bufio.Pages.{Page, sub_u64, bio_page_empty, bio_page_read}
use proxyio.Bufio.Contents.{page_bytes, IsPage, length-page_bytes, bio_page_read_lem}
use proxyio.Bufio.Stream.{bytes_of, contents, ArePages, IsBio}
use proxyio.Bufio.{Bio, read_loop, bio_read}

-- What a read of the next `k` bytes has done: the pages left, the count and the bytes so far.
record Took (ps : List Page) (k nbytes : ℕ) (out : List ℕ) (r : List Page × ℕ × List ℕ)
    : Type 0 where
  left : ArePages r.0
  count : r.1 ≡ nbytes + length (take k (bytes_of ps))
  bytes : r.2 ≡ out ++ take k (bytes_of ps)
  rest : bytes_of r.0 ≡ drop k (bytes_of ps)

read_loop_done :
    (fuel : ℕ) (ps : List Page) (sz nbytes : ℕ) (out : List ℕ)
    → sz ≤ nbytes
    → read_loop fuel ps sz nbytes out ≡ (ps, nbytes, out)
unfolding read_loop
read_loop_done zero ps sz nbytes out h = refl
read_loop_done (suc fuel) [] sz nbytes out h = refl
read_loop_done (suc fuel) (p ∷ ps) sz nbytes out h = ground arith

Took-zero :
    (ps : List Page) (nbytes : ℕ) (out : List ℕ)
    → ArePages ps
    → Took ps 0 nbytes out (ps, nbytes, out)
Took-zero ps nbytes out v = record {
  left = v;
  count = omega arith;
  bytes = sym (append-nil out);
  rest = refl;
}

bio_page_empty_lem : (p : Page) → IsPage p → bio_page_empty p ≡ true → length (page_bytes p) ≡ 0
unfolding bio_page_empty
bio_page_empty_lem p v h = ground (arith, length-page_bytes p v)

bio_page_empty_not : (p : Page) → IsPage p → bio_page_empty p ≡ false → 0 < length (page_bytes p)
unfolding bio_page_empty
bio_page_empty_not p v h = ground (arith, length-page_bytes p v)

-- The first page gave all it had, and the loop goes on with the others.
Took-next :
    (p : Page) (ps : List Page) (k j nbytes : ℕ) (out got : List ℕ) (r : List Page × ℕ × List ℕ)
    → got ≡ take k (page_bytes p)
    → length (page_bytes p) ≤ k
    → j ≡ k - length (page_bytes p)
    → Took ps j (nbytes + length got) (out ++ got) r
    → Took (p ∷ ps) k nbytes out r
Took-next p ps k j nbytes out got r e h ej t = record {
  left = t.left;
  count = omega (arith, t.count, split-length);
  bytes = t.bytes ∙ append_assoc out got (take j (bytes_of ps)) ∙ ap (λ x. out ++ x) (sym split);
  rest = t.rest ∙ sym skipped;
}
  where
    split : take k (page_bytes p ++ bytes_of ps) ≡ got ++ take j (bytes_of ps)
    split =
        take-append k (page_bytes p) (bytes_of ps)
        ∙ ap₂ (λ a n. a ++ take n (bytes_of ps)) (sym e) (sym ej)

    split-length :
        length (take k (page_bytes p ++ bytes_of ps)) ≡ length got + length (take j (bytes_of ps))
    split-length = ap length split ∙ length-append got (take j (bytes_of ps))

    skipped : drop k (page_bytes p ++ bytes_of ps) ≡ drop j (bytes_of ps)
    skipped =
        drop-append_right (page_bytes p) (bytes_of ps) k h ∙ ap (λ n. drop n (bytes_of ps)) (sym ej)

-- The first page holds more than was asked for.
Took-within :
    (p q : Page) (ps : List Page) (k nbytes : ℕ) (out got : List ℕ)
    → ArePages (q ∷ ps)
    → got ≡ take k (page_bytes p)
    → page_bytes q ≡ drop k (page_bytes p)
    → k ≤ length (page_bytes p)
    → Took (p ∷ ps) k nbytes out (q ∷ ps, nbytes + length got, out ++ got)
Took-within p q ps k nbytes out got v e eq h = record {
  left = v;
  count = ap (λ x. nbytes + length x) whole;
  bytes = ap (λ x. out ++ x) whole;
  rest =
      ap (λ x. x ++ bytes_of ps) eq
      ∙ sym (
          drop-append k (page_bytes p) (bytes_of ps)
          ∙ ap (λ n. drop k (page_bytes p) ++ drop n (bytes_of ps)) zero_left);
}
  where
    zero_left : k - length (page_bytes p) ≡ 0
    zero_left = omega arith

    whole : got ≡ take k (page_bytes p ++ bytes_of ps)
    whole =
        e
        ∙ sym (
            take-append k (page_bytes p) (bytes_of ps)
            ∙ ap (λ n. take k (page_bytes p) ++ take n (bytes_of ps)) zero_left
            ∙ append-nil (take k (page_bytes p)))

Took-nil : (k nbytes : ℕ) (out : List ℕ) → Took [] k nbytes out ([], nbytes, out)
Took-nil k nbytes out = record {
  left = tt;
  count = omega (arith, length-take k nothing);
  bytes = sym (ap (λ x. out ++ x) (take-nil k) ∙ append-nil out);
  rest = sym (drop-nil k);
}
  where
    nothing : List ℕ
    nothing = []

read_loop-Took :
    (fuel : ℕ) (ps : List Page) (sz nbytes : ℕ) (out : List ℕ)
    → ArePages ps
    → nbytes ≤ sz
    → length ps ≤ fuel
    → Took ps (sz - nbytes) nbytes out (read_loop fuel ps sz nbytes out)
unfolding read_loop
read_loop-Took zero [] sz nbytes out v h f = Took-nil (sz - nbytes) nbytes out
read_loop-Took zero (p ∷ ps) sz nbytes out v h f = absurd (omega arith)
read_loop-Took (suc fuel) [] sz nbytes out v h f = Took-nil (sz - nbytes) nbytes out
read_loop-Took (suc fuel) (p ∷ ps) sz nbytes out v h f = elim (Bool-cases (ltb nbytes sz)) [
  | inl lt ↦ rw lt (elim (Bool-cases (bio_page_empty q)) [
    | inl em ↦ rw em (
        Took-next p ps k (sz - (nbytes + length got)) nbytes out got _ l.1 (emptied em) (next em)
          (read_loop-Took fuel ps sz (nbytes + length got) (out ++ got) v.1 within (omega arith)))
    | inr ne ↦ rw ne (
        subst (Took (p ∷ ps) k nbytes out)
          (sym (read_loop_done fuel (q ∷ ps) sz (nbytes + length got) (out ++ got) (filled ne)))
          (Took-within p q ps k nbytes out got (l.0, v.1) l.1 l.2 (kept ne)))
  ])
  | inr ge ↦
      rw ge (let e : sz - nbytes ≡ 0 = ground arith in rw e (Took-zero (p ∷ ps) nbytes out v))
]
  where
    k : ℕ
    k = sz - nbytes

    q : Page
    q = (bio_page_read p k).0

    got : List ℕ
    got = (bio_page_read p k).1

    l : IsPage q × (got ≡ take k (page_bytes p)) × (page_bytes q ≡ drop k (page_bytes p))
    l = bio_page_read_lem p k v.0

    length-got : length got ≡ min k (length (page_bytes p))
    length-got = ap length l.1 ∙ length-take k (page_bytes p)

    length-q : length (page_bytes q) ≡ length (page_bytes p) - k
    length-q = ap length l.2 ∙ length-drop k (page_bytes p)

    emptied : bio_page_empty q ≡ true → length (page_bytes p) ≤ k
    emptied em = omega (arith, bio_page_empty_lem q l.0 em, length-q)

    next : bio_page_empty q ≡ true → sz - (nbytes + length got) ≡ k - length (page_bytes p)
    next em = omega (arith, emptied em, length-got)

    within : nbytes + length got ≤ sz
    within = omega (arith, length-got)

    kept : bio_page_empty q ≡ false → k ≤ length (page_bytes p)
    kept ne = omega (arith, bio_page_empty_not q l.0 ne, length-q)

    filled : bio_page_empty q ≡ false → sz ≤ nbytes + length got
    filled ne = omega (arith, kept ne, length-got)

-- A read of `sz` bytes gives the first `sz` bytes held, or all of them, and leaves the rest.
pub bio_read_lem :
    (b : Bio) (sz : ℕ)
    → IsBio b
    → let (b', n, out) = bio_read b sz in
      IsBio b'
      × (n ≡ length out)
      × (out ≡ take sz (contents b))
      × (contents b' ≡ drop sz (contents b))
unfolding bio_read
bio_read_lem b sz v = (
  record { pages = t.left; counted = size_left; small = omega (arith, size, v.counted, v.small) },
  omega (arith, t.count, ap length t.bytes),
  out,
  rest,
)
  where
    r : List Page × ℕ × List ℕ
    r = read_loop (suc (length b.page_head)) b.page_head sz 0 []

    t : Took b.page_head (sz - 0) 0 [] r
    t =
        read_loop-Took (suc (length b.page_head)) b.page_head sz 0 [] v.pages (omega arith)
          (omega arith)

    e : sz - 0 ≡ sz
    e = omega arith

    out : r.2 ≡ take sz (contents b)
    out = t.bytes ∙ ap (λ k. take k (contents b)) e

    rest : bytes_of r.0 ≡ drop sz (contents b)
    rest = t.rest ∙ ap (λ k. drop k (contents b)) e

    size : sub_u64 b.bsize r.1 + length (take sz (contents b)) ≡ length (contents b)
    size = omega (
      arith,
      v.counted,
      v.small,
      t.count,
      length-take sz (contents b),
      ap (λ k. length (take k (contents b))) e,
    )

    size_left : sub_u64 b.bsize r.1 ≡ length (bytes_of r.0)
    size_left =
        omega
          (arith, size, ap length rest, length-drop sz (contents b), length-take sz (contents b))
