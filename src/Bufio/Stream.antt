-- ===== src/Bufio/Stream.antt =====
-- A buffer seen as the queue of its bytes: what `bio_copy` and `bio_read` do to it.
use proxyio.Base.{
  ℕ, ◌+◌, ◌-◌, ◌^◌, ◌≤◌, ◌<◌, ◌≡◌, refl, ap, ap₂, ◌∙◌, inl, inr, true, false, List, [], ◌∷◌, ◌++◌,
  take, length, arith, ◌==◌, length-append, length-take, take-append, take-nil, append-nil,
  append_assoc, Bool-cases,
}
use proxyio.Bufio.Pages.{Page}
use proxyio.Bufio.Contents.{page_bytes, IsPage, bio_page_copy_lem}
use proxyio.Bufio.{Bio, copy_loop, bio_copy}

abbrev pub bytes_of : List Page → List ℕ
bytes_of [] = []
bytes_of (p ∷ ps) = page_bytes p ++ bytes_of ps

abbrev pub contents : Bio → List ℕ
contents b = bytes_of b.page_head

abbrev pub ArePages : List Page → Type 0
ArePages [] = Unit {0}
ArePages (p ∷ ps) = IsPage p × ArePages ps

-- `bsize` counts the bytes held, and the pages are well formed.
pub record IsBio (b : Bio) : Type 0 where
  pub pages : ArePages b.page_head
  pub counted : b.bsize ≡ length (contents b)
  pub small : b.bsize < 2 ^ 63

copy_loop_lem :
    (ps : List Page) (sz nbytes : ℕ) (out : List ℕ)
    → ArePages ps
    → nbytes ≤ sz
    → copy_loop ps sz nbytes out ≡ (
      nbytes + length (take (sz - nbytes) (bytes_of ps)),
      out ++ take (sz - nbytes) (bytes_of ps),
    )
unfolding copy_loop
copy_loop_lem [] sz nbytes out v h =
    let e : nbytes + 0 ≡ nbytes = omega arith in rw (take-nil {A = ℕ} (sz - nbytes), e, append-nil)
copy_loop_lem (p ∷ ps) sz nbytes out v h =
    rw (bio_page_copy_lem p k v.0, take-append k (page_bytes p) (bytes_of ps))
      (elim (Bool-cases (sz == nbytes + length got)) [
        | inl e ↦ rw e (rw (done e, append-nil got) refl)
        | inr e ↦ rw e (
            copy_loop_lem ps sz (nbytes + length got) (out ++ got) v.1 within
            ∙ rw (more e) (
                ap₂ (λ a b. (a, b)) (omega (arith, length-append got rest))
                  (append_assoc out got rest)))
      ])
  where
    k : ℕ
    k = sz - nbytes

    got : List ℕ
    got = take k (page_bytes p)

    rest : List ℕ
    rest = take (k - length (page_bytes p)) (bytes_of ps)

    within : nbytes + length got ≤ sz
    within = omega (arith, length-take k (page_bytes p))

    done : (sz == nbytes + length got) ≡ true → rest ≡ []
    done e =
        let z : k - length (page_bytes p) ≡ 0 = ground (arith, length-take k (page_bytes p)) in
        rw z refl

    more :
        (sz == nbytes + length got) ≡ false → sz - (nbytes + length got) ≡ k - length (page_bytes p)
    more e = ground (arith, length-take k (page_bytes p))

-- A copy of `sz` bytes is the first `sz` bytes held, or all of them; the buffer stays as it is.
pub bio_copy_lem :
    (b : Bio) (sz : ℕ)
    → ArePages b.page_head
    → bio_copy b sz ≡ (length (take sz (contents b)), take sz (contents b))
unfolding bio_copy
bio_copy_lem b sz v =
    let e : sz - 0 ≡ sz = omega arith in
    copy_loop_lem b.page_head sz 0 [] v (omega arith)
    ∙ ap (λ k. (0 + length (take k (contents b)), take k (contents b))) e
    ∙ ap (λ n. (n, take sz (contents b))) (omega arith)
