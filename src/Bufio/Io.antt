-- ===== src/Bufio/Io.antt =====
-- src/utils/bufio.c: `bio_flush` and `bio_prefetch`. The peer behind `struct io` is not part of the
-- program: what its calls return is a list, one entry for each call that does not fail, and the
-- call after the last entry fails. `eagain` says that it fails with EAGAIN.
use proxyio.Base.{
  ℕ, ◌+◌, ◌-◌, ◌^◌, ◌≤◌, ◌<◌, ◌≡◌, ◌≢◌, refl, sym, ap, ◌∙◌, inl, inr, Bool, true, false, not, ◌&&◌,
  List, [], ◌∷◌, ◌++◌, Option, none, some, take, drop, length, concat, arith, ◌==◌, if◌then◌else◌,
  length-append, length-take, length-drop, take-take, take-append-drop, min, ap₂, subst, Bool-cases,
  append-nil, append_assoc, take_all,
}
use proxyio.Bufio.Pages.{page_size}
use proxyio.Bufio.Stream.{contents, IsBio, bio_copy_lem}
use proxyio.Bufio.Reading.{bio_read_lem}
use proxyio.Bufio.Writing.{bio_write_lem}
use proxyio.Bufio.{Bio, list_empty, bio_copy, bio_read, bio_write}

-- The entries are the bytes that each `read` delivers.
unfoldable pub prefetch_loop : ℕ → Bio → List (List ℕ) → ℕ → ℕ × Bio × ℕ
prefetch_loop budget b [] sum = (budget, b, sum)
prefetch_loop budget b (page ∷ reads) sum =
    let (budget', b', n) = bio_write budget b page in prefetch_loop budget' b' reads (sum + n)

-- `none` is the result -1.
unfoldable pub bio_prefetch : ℕ → Bio → List (List ℕ) → Bool → ℕ × Bio × Option ℕ
bio_prefetch budget b reads eagain =
    let (budget', b', sum) = prefetch_loop budget b reads 0 in
    (budget', b', if not eagain && sum == 0 then none else some sum)

-- The entries are the counts that each `write` returns. `none` is the BUG_ON; else the buffer, the
-- bytes written so far, their number, and whether the last `write` failed.
unfoldable pub flush_loop : Bio → List ℕ → List ℕ → ℕ → Option (Bio × List ℕ × ℕ × Bool)
flush_loop b [] sent sum = some (b, sent, sum, not (list_empty b.page_head))
flush_loop b (n ∷ writes) sent sum =
    let page = (bio_copy b page_size).1 in
    let (b', m, out) = bio_read b n in
    let rest = flush_loop b' writes (sent ++ take n page) (sum + n) in
    if list_empty b.page_head then some (b, sent, sum, false) else if n == m then rest else none

abbrev pub flush_result : Bool → Bool → ℕ → Option ℕ
flush_result failed eagain sum = if failed && (not eagain && sum == 0) then none else some sum

-- The buffer, the bytes written, and the result, where `none` is -1.
unfoldable pub bio_flush : Bio → List ℕ → Bool → Option (Bio × List ℕ × Option ℕ)
bio_flush b writes eagain = elim (flush_loop b writes [] 0) [
  | none ↦ none
  | some (b', sent, sum, failed) ↦ some (b', sent, flush_result failed eagain sum)
]

prefetch_loop_lem :
    (budget : ℕ) (b : Bio) (reads : List (List ℕ)) (sum : ℕ)
    → IsBio b
    → b.bsize + length (concat reads) < 2 ^ 63
    → let (budget', b', sum') = prefetch_loop budget b reads sum in
      IsBio b'
      × (budget' ≤ budget)
      × (budget' ≢ 0
          → (contents b' ≡ contents b ++ concat reads) × (sum' ≡ sum + length (concat reads)))
unfolding prefetch_loop
prefetch_loop_lem budget b [] sum v h =
    (v, omega arith, λ ne. (sym (append-nil (contents b)), omega arith))
prefetch_loop_lem budget b (page ∷ reads) sum v h =
    let n = (bio_write budget b page).2 in
    let both = length-append page (concat reads) in
    let w = bio_write_lem budget b page v (omega (arith, both)) in
    let size : length (contents (bio_write budget b page).1) ≡ length (contents b) + n =
      omega
        (arith, ap length w.2, length-append (contents b) (take n page), length-take n page, w.1) in
    let ih =
      prefetch_loop_lem (bio_write budget b page).0 (bio_write budget b page).1 reads (sum + n) w.0
        (omega (arith, both, size, w.0.counted, v.counted, w.1)) in
    (
      ih.0,
      omega (arith, ih.1, w.4),
      λ ne.
          let n_all : n ≡ length page = ground (arith, w.3, ih.1, ne) in
          (
            (ih.2 ne).0
                ∙ ap (λ x. x ++ concat reads)
                    (w.2 ∙ ap (λ x. contents b ++ x) (take_all n page (omega (arith, n_all))))
                ∙ append_assoc (contents b) page (concat reads),
            omega (arith, (ih.2 ne).1, n_all, both),
          ),
    )

-- As long as pages can be allocated, `bio_prefetch` puts everything that is read at the end, in
-- order, and returns the number of bytes; -1 is for a failure other than EAGAIN with nothing read.
pub bio_prefetch_lem :
    (budget : ℕ) (b : Bio) (reads : List (List ℕ)) (eagain : Bool)
    → IsBio b
    → b.bsize + length (concat reads) < 2 ^ 63
    → (bio_prefetch budget b reads eagain).0 ≢ 0
    → let (budget', b', result) = bio_prefetch budget b reads eagain in
      IsBio b'
      × (contents b' ≡ contents b ++ concat reads)
      × (result ≡ (
          if not eagain && length (concat reads) == 0 then none else some (length (concat reads))))
unfolding bio_prefetch
bio_prefetch_lem budget b reads eagain v h ne =
    let l = prefetch_loop_lem budget b reads 0 v h in
    let sum : (prefetch_loop budget b reads 0).2 ≡ length (concat reads) =
      omega (arith, (l.2 ne).1) in
    (l.0, (l.2 ne).0, ap (λ k. if not eagain && k == 0 then none else some k) sum)

-- What the peer may answer: no more than a page at a time, nor more in all than is held.
abbrev pub Answers : List ℕ → ℕ → Type 0
Answers [] size = Unit {0}
Answers (n ∷ ns) size = (n ≤ page_size) × (n ≤ size) × Answers ns (size - n)

first_page :
    (b : Bio) (n : ℕ)
    → IsBio b
    → n ≤ page_size
    → take n (bio_copy b page_size).1 ≡ take n (contents b)
first_page b n v h =
    let e : min n page_size ≡ n = omega arith in
    ap (λ r. take n r.1) (bio_copy_lem b page_size v.pages)
    ∙ take-take n page_size (contents b)
    ∙ ap (λ k. take k (contents b)) e

-- What a flush has done: nothing is lost and nothing is sent twice.
record Flushed (b : Bio) (sent : List ℕ) (sum : ℕ) (r : Bio × List ℕ × ℕ × Bool) : Type 0 where
  bio : IsBio r.0
  stream : r.1 ++ contents r.0 ≡ sent ++ contents b
  total : r.2 + length (contents r.0) ≡ sum + length (contents b)

flush_loop-Flushed :
    (b : Bio) (writes : List ℕ) (sent : List ℕ) (sum : ℕ)
    → IsBio b
    → Answers writes (length (contents b))
    → (r : Bio × List ℕ × ℕ × Bool) × (flush_loop b writes sent sum ≡ some r) × Flushed b sent sum r
unfolding flush_loop
flush_loop-Flushed b [] sent sum v a = (_, refl, record { bio = v; stream = refl; total = refl })
flush_loop-Flushed b (n ∷ writes) sent sum v a = elim (Bool-cases (list_empty b.page_head)) [
  | inl e ↦ ((b, sent, sum, false), rw e, record { bio = v; stream = refl; total = refl })
  | inr e ↦
      let l = bio_read_lem b n v in
      let same : (n == (bio_read b n).1) ≡ true =
        ground (arith, l.1, ap length l.2, length-take n (contents b), a.1) in
      let chunk : take n (bio_copy b page_size).1 ≡ take n (contents b) = first_page b n v a.0 in
      let left : length (contents (bio_read b n).0) ≡ length (contents b) - n =
        ap length l.3 ∙ length-drop n (contents b) in
      let ih =
        flush_loop-Flushed (bio_read b n).0 writes (sent ++ take n (bio_copy b page_size).1)
          (sum + n) l.0 (subst (Answers writes) (sym left) a.2) in
      (
        ih.0,
        rw (e, same) ih.1,
        record {
          bio = ih.2.bio;
          stream =
              ih.2.stream
              ∙ ap₂ (λ x y. (sent ++ x) ++ y) chunk l.3
              ∙ append_assoc sent (take n (contents b)) (drop n (contents b))
              ∙ ap (λ x. sent ++ x) (take-append-drop n (contents b));
          total = omega (arith, ih.2.total, left, a.1);
        },
      )
]

-- While the peer answers as a writer may, `bio_flush` never meets its BUG_ON, and what was written
-- followed by what is left is what the buffer held.
pub bio_flush_lem :
    (b : Bio) (writes : List ℕ) (eagain : Bool)
    → IsBio b
    → Answers writes (length (contents b))
    → (b' : Bio) × (sent : List ℕ) × (failed : Bool) × (bio_flush b writes eagain
        ≡ some (b', sent, flush_result failed eagain (length (contents b) - length (contents b'))))
      × IsBio b'
      × (sent ++ contents b' ≡ contents b)
unfolding bio_flush
bio_flush_lem b writes eagain v a =
    let f = flush_loop-Flushed b writes [] 0 v a in
    let e : f.0.2 ≡ length (contents b) - length (contents f.0.0) = omega (arith, f.2.total) in
    (f.0.0, f.0.1, f.0.3, rw (f.1, bio_flush, e), f.2.bio, f.2.stream)
