-- ===== src/Sp/RoundRobin/Fairness.antt =====
-- In a round every target is picked as often as its weight says, one target after the other.
use proxyio.Base.{
  ℕ, zero, suc, ◌+◌, ◌^◌, ◌<◌, ◌≡◌, refl, sym, ap, subst, ◌∙◌, true, List, [], ◌∷◌, ◌++◌, Option,
  some, replicate, arith, append-nil, append_assoc,
}
use proxyio.MsgbufHead.{sub_int, is_positive}
use proxyio.Sp.RoundRobin.{RrbinEntry, weight_rrbin_select, select_times}

-- Turns and weights are positive, and the turns of each are all there.
pub record IsFresh (e : RrbinEntry) : Type 0 where
  pub positive : 0 < e.origin_weight
  pub int : e.origin_weight < 2 ^ 31
  pub full : e.current_weight ≡ e.origin_weight

abbrev pub AreFresh : List RrbinEntry → Type 0
AreFresh [] = Unit {0}
AreFresh (e ∷ es) = IsFresh e × AreFresh es

abbrev pub total_weight : List RrbinEntry → ℕ
total_weight [] = 0
total_weight (e ∷ es) = e.origin_weight + total_weight es

-- Each target as often as its weight says.
abbrev pub round : List RrbinEntry → List (Option ℕ)
round [] = []
round (e ∷ es) = replicate e.origin_weight (some e.tg) ++ round es

select_more :
    (t o k : ℕ) (es : List RrbinEntry)
    → suc (suc k) < 2 ^ 31
    → weight_rrbin_select (record { tg = t; origin_weight = o; current_weight = suc (suc k) } ∷ es)
      ≡ (record { tg = t; origin_weight = o; current_weight = suc k } ∷ es, some t)
unfolding weight_rrbin_select
select_more t o k es h =
    let w : sub_int (suc (suc k)) 1 ≡ suc k = omega arith in
    let p : is_positive (suc k) ≡ true = ground arith in rw w (rw p refl)

select_last :
    (t o : ℕ) (es : List RrbinEntry)
    → weight_rrbin_select (record { tg = t; origin_weight = o; current_weight = 1 } ∷ es)
      ≡ (es ++ record { tg = t; origin_weight = o; current_weight = o } ∷ [], some t)
unfolding weight_rrbin_select
select_last t o es = refl

-- The turns that the first target has left.
select_turns :
    (t o k n : ℕ) (es : List RrbinEntry)
    → suc k < 2 ^ 31
    → select_times (suc k + n) (record { tg = t; origin_weight = o; current_weight = suc k } ∷ es)
      ≡ (
        (select_times n (es ++ record { tg = t; origin_weight = o; current_weight = o } ∷ [])).0,
        replicate (suc k) (some t)
            ++ (select_times n
                (es ++ record { tg = t; origin_weight = o; current_weight = o } ∷ [])).1,
      )
select_turns t o zero n es h =
    ap (λ k. select_times k (record { tg = t; origin_weight = o; current_weight = 1 } ∷ es)) one
    ∙ ap (λ r. ((select_times n r.0).0, r.1 ∷ (select_times n r.0).1)) (select_last t o es)
  where
    one : 1 + n ≡ suc n
    one = omega arith
select_turns t o (suc k) n es h =
    ap
      (λ m.
        select_times m (record { tg = t; origin_weight = o; current_weight = suc (suc k) } ∷ es))
      (the_sum k n)
    ∙ ap (λ r. ((select_times (suc k + n) r.0).0, r.1 ∷ (select_times (suc k + n) r.0).1))
        (select_more t o k es h)
    ∙ ap (λ r. (r.0, some t ∷ r.1)) (select_turns t o k n es (omega arith))
  where
    the_sum : (k n : ℕ) → suc (suc k) + n ≡ suc (suc k + n)
    the_sum k n = omega arith

round_moves :
    (es ds : List RrbinEntry)
    → AreFresh es
    → select_times (total_weight es) (es ++ ds) ≡ (ds ++ es, round es)
round_moves [] ds v = ap (λ x. (x, [])) (sym (append-nil ds))
round_moves (e ∷ es) ds v =
    first (λ back. round_moves es back v.1) e.tg e.origin_weight e.current_weight v.0.positive
      v.0.int v.0.full
  where
    Others : Type 0
    Others =
        (back : List RrbinEntry)
        → select_times (total_weight es) (es ++ back) ≡ (back ++ es, round es)

    Moves : ℕ → ℕ → ℕ → Type 0
    Moves t o c =
        select_times (o + total_weight es)
          ((record { tg = t; origin_weight = o; current_weight = c } ∷ es) ++ ds)
        ≡ (
          ds ++ record { tg = t; origin_weight = o; current_weight = c } ∷ es,
          replicate o (some t) ++ round es,
        )

    turns : Others → (t k : ℕ) → suc k < 2 ^ 31 → Moves t (suc k) (suc k)
    turns others t k h =
        let d : RrbinEntry = record { tg = t; origin_weight = suc k; current_weight = suc k } in
        select_turns t (suc k) k (total_weight es) (es ++ ds) h
        ∙ ap
            (λ x. (
              (select_times (total_weight es) x).0,
              replicate (suc k) (some t) ++ (select_times (total_weight es) x).1,
            ))
            (append_assoc es ds (d ∷ []))
        ∙ ap (λ r. (r.0, replicate (suc k) (some t) ++ r.1)) (others (ds ++ d ∷ []))
        ∙ ap (λ x. (x, replicate (suc k) (some t) ++ round es)) (append_assoc ds (d ∷ []) es)

    first : Others → (t o c : ℕ) → 0 < o → o < 2 ^ 31 → c ≡ o → Moves t o c
    first others t zero c p i f = absurd (omega (arith, p))
    first others t (suc k) c p i f = subst (λ x. Moves t (suc k) x) (sym f) (turns others t k i)

-- Over a round, whose length is the sum of the weights, of a list whose targets have positive weights
-- below 2^31 and all their turns: each target is picked as often as its weight says, and the list is
-- then as it was before.
pub round_lem :
    (es : List RrbinEntry) → AreFresh es → select_times (total_weight es) es ≡ (es, round es)
round_lem es v = ap (select_times (total_weight es)) (sym (append-nil es)) ∙ round_moves es [] v
