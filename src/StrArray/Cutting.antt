-- ===== src/StrArray/Cutting.antt =====
-- A string that is cut, and its parts put together again.
use proxyio.Base.{
  ℕ, zero, suc, ◌+◌, ◌<◌, ◌≡◌, refl, sym, ap, ◌∙◌, inl, inr, List, [], ◌∷◌, ◌++◌, Option, none,
  some, take, drop, length, Option-cases, append_assoc, take-append-drop, drop-drop, length-drop,
  length-take, arith,
}
use proxyio.StrArray.{StrArray, str_array_init, str_array_add, split_loop, str_split}

-- The parts with the separator between them.
abbrev join : List ℕ → List (List ℕ) → List ℕ
join needle [] = []
join needle (s ∷ []) = s
join needle (s ∷ t ∷ more) = s ++ (needle ++ join needle (t ∷ more))

-- What strstr(3) documents of the place that it finds.
record IsStrstr (strstr : List ℕ → List ℕ → Option ℕ) : Type 0 where
  finds :
      (hs needle : List ℕ) (pos : ℕ)
      → strstr hs needle ≡ some pos
      → take (length needle) (drop pos hs) ≡ needle

-- One string more, or the first one.
abbrev glue : List ℕ → List (List ℕ) → List ℕ → List ℕ
glue needle [] s = s
glue needle (t ∷ more) s = join needle (t ∷ more) ++ (needle ++ s)

join-add :
    (needle : List ℕ) (parts : List (List ℕ)) (s : List ℕ)
    → join needle (parts ++ s ∷ []) ≡ glue needle parts s
join-add needle [] s = refl
join-add needle (t ∷ []) s = refl
join-add needle (t ∷ u ∷ more) s =
    ap (λ l. t ++ (needle ++ l)) (join-add needle (u ∷ more) s)
    ∙ ap (λ l. t ++ l) (sym (append_assoc needle (join needle (u ∷ more)) (needle ++ s)))
    ∙ sym (append_assoc t (needle ++ join needle (u ∷ more)) (needle ++ s))

-- A string behind the parts is cut in two.
glue_two :
    (needle : List ℕ) (parts : List (List ℕ)) (s rest : List ℕ)
    → glue needle (parts ++ s ∷ []) rest ≡ glue needle parts (s ++ (needle ++ rest))
glue_two needle [] s rest = refl
glue_two needle (t ∷ more) s rest =
    ap (λ l. l ++ (needle ++ rest)) (join-add needle (t ∷ more) s)
    ∙ append_assoc (join needle (t ∷ more)) (needle ++ s) (needle ++ rest)
    ∙ ap (λ l. join needle (t ∷ more) ++ l) (append_assoc needle s (needle ++ rest))

module _ (strstr : List ℕ → List ℕ → Option ℕ) (v : IsStrstr strstr) where
  cut_found :
      (hs needle : List ℕ) (pos : ℕ)
      → strstr hs needle ≡ some pos
      → take pos hs ++ (needle ++ drop (pos + length needle) hs) ≡ hs
  cut_found hs needle pos e =
      ap (λ l. take pos hs ++ (l ++ drop (pos + length needle) hs)) (sym (v.finds hs needle pos e))
      ∙ ap (λ l. take pos hs ++ (take (length needle) (drop pos hs) ++ l))
          (sym (drop-drop (length needle) pos hs))
      ∙ ap (λ l. take pos hs ++ l) (take-append-drop (length needle) (drop pos hs))
      ∙ take-append-drop pos hs

  shorter :
      (hs needle : List ℕ) (pos : ℕ)
      → 0 < length needle
      → strstr hs needle ≡ some pos
      → length (drop (pos + length needle) hs) < length hs
  shorter hs needle pos h e = omega (
    arith,
    h,
    length-drop (pos + length needle) hs,
    length-drop pos hs,
    length-take (length needle) (drop pos hs),
    ap (length {A = ℕ}) (v.finds hs needle pos e),
  )

  loop_none :
      (fuel : ℕ) (cur needle : List ℕ) (arr : StrArray)
      → strstr cur needle ≡ none
      → split_loop strstr (suc fuel) cur arr needle ≡ some (str_array_add arr cur)
  unfolding split_loop
  loop_none fuel cur needle arr e = rw (e, split_loop) refl

  loop_some :
      (fuel : ℕ) (cur needle : List ℕ) (arr : StrArray) (pos : ℕ)
      → strstr cur needle ≡ some pos
      → split_loop strstr (suc fuel) cur arr needle
        ≡ split_loop strstr fuel
            (drop (pos + length needle) cur)
            (str_array_add arr (take pos cur))
            needle
  unfolding split_loop
  loop_some fuel cur needle arr pos e = rw (e, split_loop) refl

  loop_lem :
      (fuel : ℕ) (cur needle : List ℕ) (arr : StrArray)
      → 0 < length needle
      → length cur < fuel
      → (arr' : StrArray) × (split_loop strstr fuel cur arr needle ≡ some arr')
        × (join needle arr'.at ≡ glue needle arr.at cur)
  unfolding str_array_add
  loop_lem zero cur needle arr h k = absurd (omega (arith, k))
  loop_lem (suc fuel) cur needle arr h k = elim (Option-cases (strstr cur needle)) [
    | inl e ↦ (str_array_add arr cur, loop_none fuel cur needle arr e, join-add needle arr.at cur)
    | inr (pos, e) ↦
        let (arr', same, joined) =
          loop_lem fuel (drop (pos + length needle) cur) needle (str_array_add arr (take pos cur)) h
            (omega (arith, k, shorter cur needle pos h e)) in
        (
          arr',
          loop_some fuel cur needle arr pos e ∙ same,
          joined
              ∙ glue_two needle arr.at (take pos cur) (drop (pos + length needle) cur)
              ∙ ap (λ l. glue needle arr.at l) (cut_found cur needle pos e),
        )
  ]

  -- With fuel for each byte a string is cut at every separator that `strstr` finds, and its parts with
  -- the separator between them are the string again.
  str_split-join :
      (haystack needle : List ℕ)
      → 0 < length needle
      → (arr : StrArray) × (str_split strstr (suc (length haystack)) haystack str_array_init needle
          ≡ some arr)
        × (join needle arr.at ≡ haystack)
  unfolding str_split str_array_init
  str_split-join haystack needle h =
      loop_lem (suc (length haystack)) haystack needle str_array_init h (omega arith)
