-- ===== src/StrRb/Keys.antt =====
-- The order of the keys: that of a dictionary.
use Prim.Native.Nat.{compare, Ordering}
use Prim.Native.Nat.Ordering.{lt, eq, gt}
use proxyio.Base.{ℕ, suc, ◌≡◌, refl, sym, ◌∙◌, min, List, [], ◌∷◌, length, arith}
use proxyio.StrRb.{key_cmp}

abbrev pub lex : List ℕ → List ℕ → Ordering
lex [] [] = eq
lex [] (y ∷ b) = lt
lex (x ∷ a) [] = gt
lex (x ∷ a) (y ∷ b) = elim (compare x y) [ lt ↦ lt | eq ↦ lex a b | gt ↦ gt ]

key_cmp-lex : (a b : List ℕ) → key_cmp a b ≡ lex a b
unfolding key_cmp
key_cmp-lex [] [] = refl
key_cmp-lex [] (y ∷ b) = ground arith
key_cmp-lex (x ∷ a) [] = ground arith
key_cmp-lex (x ∷ a) (y ∷ b) =
    let e : min (suc (length b)) (suc (length a)) ≡ suc (min (length b) (length a)) = omega arith in
    rw (e, key_cmp) (ground (arith, key_cmp-lex a b))

lex_refl : (a : List ℕ) → lex a a ≡ eq
lex_refl [] = refl
lex_refl (x ∷ a) = ground (arith, lex_refl a)

eq_of_lex : (a b : List ℕ) → lex a b ≡ eq → a ≡ b
eq_of_lex [] [] h = refl
eq_of_lex [] (y ∷ b) h = absurd (cc)
eq_of_lex (x ∷ a) [] h = absurd (cc)
eq_of_lex (x ∷ a) (y ∷ b) h = ground (arith, eq_of_lex a b, h)

lex_trans : (a b c : List ℕ) → lex a b ≡ lt → lex b c ≡ lt → lex a c ≡ lt
lex_trans [] b [] h k = ground (arith, h, k)
lex_trans [] b (z ∷ c) h k = refl
lex_trans (x ∷ a) [] c h k = absurd (cc)
lex_trans (x ∷ a) (y ∷ b) [] h k = absurd (cc)
lex_trans (x ∷ a) (y ∷ b) (z ∷ c) h k = ground (arith, lex_trans a b c, h, k)

gt_of_lex : (a b : List ℕ) → lex a b ≡ lt → lex b a ≡ gt
gt_of_lex [] [] h = absurd (cc)
gt_of_lex [] (y ∷ b) h = refl
gt_of_lex (x ∷ a) [] h = absurd (cc)
gt_of_lex (x ∷ a) (y ∷ b) h = ground (arith, gt_of_lex a b, h)

lt_of_lex : (a b : List ℕ) → lex a b ≡ gt → lex b a ≡ lt
lt_of_lex [] [] h = absurd (cc)
lt_of_lex [] (y ∷ b) h = absurd (cc)
lt_of_lex (x ∷ a) [] h = refl
lt_of_lex (x ∷ a) (y ∷ b) h = ground (arith, lt_of_lex a b, h)

pub cmp_refl : (a : List ℕ) → key_cmp a a ≡ eq
cmp_refl a = key_cmp-lex a a ∙ lex_refl a

pub eq_of_cmp : (a b : List ℕ) → key_cmp a b ≡ eq → a ≡ b
eq_of_cmp a b h = eq_of_lex a b (sym (key_cmp-lex a b) ∙ h)

pub lt_trans : (a b c : List ℕ) → key_cmp a b ≡ lt → key_cmp b c ≡ lt → key_cmp a c ≡ lt
lt_trans a b c h k =
    key_cmp-lex a c ∙ lex_trans a b c (sym (key_cmp-lex a b) ∙ h) (sym (key_cmp-lex b c) ∙ k)

pub gt_of_lt : (a b : List ℕ) → key_cmp a b ≡ lt → key_cmp b a ≡ gt
gt_of_lt a b h = key_cmp-lex b a ∙ gt_of_lex a b (sym (key_cmp-lex a b) ∙ h)

pub lt_of_gt : (a b : List ℕ) → key_cmp a b ≡ gt → key_cmp b a ≡ lt
lt_of_gt a b h = key_cmp-lex b a ∙ lt_of_lex a b (sym (key_cmp-lex a b) ∙ h)
