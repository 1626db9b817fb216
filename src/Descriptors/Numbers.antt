-- ===== src/Descriptors/Numbers.antt =====
-- Numbers in use and numbers on the stack: how `clear` and `lookup` treat them.
use proxyio.Base.{
  ℕ, suc, ◌+◌, ◌≡◌, refl, ap, subst, inl, inr, true, false, List, [], ◌∷◌, Option, none, some, ◌==◌,
  if◌then◌else◌, Bool-cases, length, arith,
}
use proxyio.Descriptors.{Slot, Descriptors, lookup, clear}

abbrev pub Fresh : ℕ → List ℕ → Type 0
Fresh x [] = Unit {0}
Fresh x (y ∷ ys) = ((y == x) ≡ false) × Fresh x ys

abbrev pub Distinct : List ℕ → Type 0
Distinct [] = Unit {0}
Distinct (x ∷ xs) = Fresh x xs × Distinct xs

abbrev pub Apart : List ℕ → List ℕ → Type 0
Apart [] ys = Unit {0}
Apart (x ∷ xs) ys = Fresh x ys × Apart xs ys

abbrev pub keys : List (ℕ × Slot) → List ℕ
keys [] = []
keys ((k, s) ∷ table) = k ∷ keys table

-- No socket in the table is freed.
abbrev pub AreHeld : List (ℕ × Slot) → Type 0
AreHeld [] = Unit {0}
AreHeld ((k, s) ∷ table) = (s.freed ≡ false) × AreHeld table

-- The numbers in use and those on the stack are apart, and together as many as there are.
pub record IsTable (max : ℕ) (d : Descriptors) : Type 0 where
  pub held : AreHeld d.table
  pub distinct_keys : Distinct (keys d.table)
  pub distinct_unused : Distinct d.unused
  pub apart : Apart d.unused (keys d.table)
  pub used : d.nused ≡ length d.table
  pub all : d.nused + length d.unused ≡ max

module _ (fd : ℕ) where
  pub Fresh-clear : (x : ℕ) (t : List (ℕ × Slot)) → Fresh x (keys t) → Fresh x (keys (clear fd t))
  unfolding clear
  Fresh-clear x [] f = tt
  Fresh-clear x ((k, s) ∷ t) f = elim (Bool-cases (k == fd)) [
    | inl e ↦ rw e (f.1)
    | inr e ↦ rw e (f.0, Fresh-clear x t f.1)
  ]

  pub Apart-clear :
      (us : List ℕ) (t : List (ℕ × Slot)) → Apart us (keys t) → Apart us (keys (clear fd t))
  Apart-clear [] t a = tt
  Apart-clear (u ∷ us) t a = (Fresh-clear u t a.0, Apart-clear us t a.1)

  pub Distinct-clear : (t : List (ℕ × Slot)) → Distinct (keys t) → Distinct (keys (clear fd t))
  unfolding clear
  Distinct-clear [] d = tt
  Distinct-clear ((k, s) ∷ t) d = elim (Bool-cases (k == fd)) [
    | inl e ↦ rw e (d.1)
    | inr e ↦ rw e (Fresh-clear k t d.0, Distinct-clear t d.1)
  ]

  pub cleared-Fresh : (t : List (ℕ × Slot)) → Distinct (keys t) → Fresh fd (keys (clear fd t))
  unfolding clear
  cleared-Fresh [] d = tt
  cleared-Fresh ((k, s) ∷ t) d = elim (Bool-cases (k == fd)) [
    | inl e ↦ rw e (let same : k ≡ fd = ground (arith, e) in subst (λ x. Fresh x (keys t)) same d.0)
    | inr e ↦ rw e (e, cleared-Fresh t d.1)
  ]

  pub held-clear : (t : List (ℕ × Slot)) → AreHeld t → AreHeld (clear fd t)
  unfolding clear
  held-clear [] h = tt
  held-clear ((k, s) ∷ t) h = elim (Bool-cases (k == fd)) [
    | inl e ↦ rw e (h.1)
    | inr e ↦ rw e (h.0, held-clear t h.1)
  ]

  pub lookup-Fresh : (t : List (ℕ × Slot)) → Fresh fd (keys t) → lookup fd t ≡ none
  unfolding lookup
  lookup-Fresh [] f = refl
  lookup-Fresh ((k, s) ∷ t) f = rw (f.0) (lookup-Fresh t f.1)

  -- Behind an entry of another number.
  behind :
      (k : ℕ) (x : Slot) (t : List (ℕ × Slot)) (o : Option Slot)
      → (k == fd) ≡ false
      → lookup fd ((k, x) ∷ t) ≡ o
      → lookup fd t ≡ o
  unfolding lookup
  behind k x t o e h = subst (λ b. (if b then some x else lookup fd t) ≡ o) e h

  first :
      (k : ℕ) (x s : Slot) (t : List (ℕ × Slot))
      → (k == fd) ≡ true
      → lookup fd ((k, x) ∷ t) ≡ some s
      → x ≡ s
  unfolding lookup
  first k x s t e h =
      let same : some x ≡ some s = subst (λ b. (if b then some x else lookup fd t) ≡ some s) e h in
      cc

  pub lookup_held :
      (t : List (ℕ × Slot)) (s : Slot) → AreHeld t → lookup fd t ≡ some s → s.freed ≡ false
  unfolding lookup
  lookup_held [] s h e = absurd (cc)
  lookup_held ((k, x) ∷ t) s h e = elim (Bool-cases (k == fd)) [
    | inl here ↦ subst (λ y. y.freed ≡ false) (first k x s t here e) h.0
    | inr there ↦ lookup_held t s h.1 (behind k x t (some s) there e)
  ]

  pub length-clear :
      (t : List (ℕ × Slot)) (s : Slot) → lookup fd t ≡ some s → suc (length (clear fd t)) ≡ length t
  unfolding lookup clear
  length-clear [] s e = absurd (cc)
  length-clear ((k, x) ∷ t) s e = elim (Bool-cases (k == fd)) [
    | inl here ↦ rw here (omega arith)
    | inr there ↦ rw there (omega (arith, length-clear t s (behind k x t (some s) there e)))
  ]

  pub clear-Fresh : (t : List (ℕ × Slot)) → Fresh fd (keys t) → clear fd t ≡ t
  unfolding clear
  clear-Fresh [] f = refl
  clear-Fresh ((k, x) ∷ t) f = rw (f.0) (ap (λ l. (k, x) ∷ l) (clear-Fresh t f.1))

  other :
      (u : ℕ) (t : List (ℕ × Slot)) (s : Slot)
      → Fresh u (keys t)
      → lookup fd t ≡ some s
      → (u == fd) ≡ false
  unfolding lookup
  other u [] s f e = absurd (cc)
  other u ((k, x) ∷ t) s f e = elim (Bool-cases (k == fd)) [
    | inl here ↦ ground (arith, here, f.0)
    | inr there ↦ other u t s f.1 (behind k x t (some s) there e)
  ]

  pub used-Fresh :
      (us : List ℕ) (t : List (ℕ × Slot)) (s : Slot)
      → Apart us (keys t)
      → lookup fd t ≡ some s
      → Fresh fd us
  used-Fresh [] t s a e = tt
  used-Fresh (u ∷ us) t s a e = (other u t s a.0 e, used-Fresh us t s a.1 e)

  -- A number that is taken off the stack joins the ones in use.
  pub Apart-cons : (us ks : List ℕ) → Apart us ks → Fresh fd us → Apart us (fd ∷ ks)
  Apart-cons [] ks a f = tt
  Apart-cons (u ∷ us) ks a f = ((ground (arith, f.0), a.0), Apart-cons us ks a.1 f.1)

  pub lookup-clear_ne :
      (n : ℕ) (t : List (ℕ × Slot)) → (fd == n) ≡ false → lookup n (clear fd t) ≡ lookup n t
  unfolding lookup clear
  lookup-clear_ne n [] ne = refl
  lookup-clear_ne n ((k, x) ∷ t) ne = elim (Bool-cases (k == fd)) [
    | inl here ↦ let other : (k == n) ≡ false = ground (arith, here, ne) in rw (here, other) refl
    | inr there ↦ rw there (ap (λ o. if k == n then some x else o) (lookup-clear_ne n t ne))
  ]
