-- ===== src/Ev/Choosing.antt =====
-- The event loops of ev.c that work is spread over.
use proxyio.Base.{
  ℕ, zero, suc, ◌%◌, ◌^◌, ◌≤◌, ◌<◌, ◌≡◌, refl, sym, ap, subst, ◌∙◌, inl, inr, Bool, true, false,
  List, [], ◌∷◌, ◌++◌, Option, none, some, ltb, ◌==◌, if◌then◌else◌, get_elem?, length, take,
  take-append_length, append-nil, append_assoc, length-append, Bool-cases, arith,
}
use proxyio.MsgbufHead.{less_int}

-- `ev_processors` is `int`; a negative hash indexes in front of the array.
unfoldable pub ev_get_loop : ℕ → ℕ → Option ℕ
ev_get_loop ev_processors hash =
    if ltb hash (2 ^ 31)
    then if ev_processors == 0 then none else some (hash % ev_processors)
    else none

-- The walk of `ev_get_loop_lla` over the loops from `i` on, by their `fd_size`.
unfoldable pub lla_walk : ℕ → ℕ → ℕ → List ℕ → ℕ
lla_walk chosed least i [] = chosed
lla_walk chosed least i (fd_size ∷ more) =
    let taken = lla_walk i fd_size (suc i) more in
    let left = lla_walk chosed least (suc i) more in if less_int fd_size least then taken else left

-- The first loop, given apart, is always there.
unfoldable pub ev_get_loop_lla : ℕ → List ℕ → ℕ
ev_get_loop_lla fd_size more = lla_walk 0 fd_size 1 more

abbrev pub AreInts : List ℕ → Type 0
AreInts [] = Unit {0}
AreInts (x ∷ xs) = (x < 2 ^ 31) × AreInts xs

-- No element is smaller; each is larger.
abbrev pub AreAtLeast : ℕ → List ℕ → Type 0
AreAtLeast n [] = Unit {0}
AreAtLeast n (x ∷ xs) = (n ≤ x) × AreAtLeast n xs

abbrev pub AreAbove : ℕ → List ℕ → Type 0
AreAbove n [] = Unit {0}
AreAbove n (x ∷ xs) = (n < x) × AreAbove n xs

AreAtLeast-append : (n x : ℕ) (xs : List ℕ) → AreAtLeast n xs → n ≤ x → AreAtLeast n (xs ++ x ∷ [])
AreAtLeast-append n x [] a h = (h, tt)
AreAtLeast-append n x (y ∷ xs) a h = (a.0, AreAtLeast-append n x xs a.1 h)

AreAtLeast-AreAtLeast : (n m : ℕ) (xs : List ℕ) → m < n → AreAtLeast n xs → AreAtLeast m xs
AreAtLeast-AreAtLeast n m [] h a = tt
AreAtLeast-AreAtLeast n m (x ∷ xs) h a = (omega (arith, a.0, h), AreAtLeast-AreAtLeast n m xs h a.1)

AreAtLeast-AreAbove : (n m : ℕ) (xs : List ℕ) → m < n → AreAtLeast n xs → AreAbove m xs
AreAtLeast-AreAbove n m [] h a = tt
AreAtLeast-AreAbove n m (x ∷ xs) h a = (omega (arith, a.0, h), AreAtLeast-AreAbove n m xs h a.1)

get_elem?-append :
    (xs : List ℕ) (i n y : ℕ) → get_elem? xs i ≡ some n → get_elem? (xs ++ y ∷ []) i ≡ some n
get_elem?-append [] i n y h = absurd (cc)
get_elem?-append (x ∷ xs) zero n y h = h
get_elem?-append (x ∷ xs) (suc i) n y h = get_elem?-append xs i n y h

take-append_elem :
    (xs : List ℕ) (i n y : ℕ) → get_elem? xs i ≡ some n → take i (xs ++ y ∷ []) ≡ take i xs
take-append_elem [] i n y h = absurd (cc)
take-append_elem (x ∷ xs) zero n y h = refl
take-append_elem (x ∷ xs) (suc i) n y h = ap (λ l. x ∷ l) (take-append_elem xs i n y h)

get_elem?-length : (xs : List ℕ) (y : ℕ) → get_elem? (xs ++ y ∷ []) (length xs) ≡ some y
get_elem?-length [] y = refl
get_elem?-length (x ∷ xs) y = get_elem?-length xs y

-- The loop at a place has the least number of descriptors, and fewer than each loop before it.
pub record IsLeast (sizes : List ℕ) (chosed : ℕ) : Type 0 where
  pub least : ℕ
  pub there : get_elem? sizes chosed ≡ some least
  pub at_least : AreAtLeast least sizes
  pub first : AreAbove least (take chosed sizes)

IsLeast-more :
    (seen : List ℕ) (chosed y : ℕ) (v : IsLeast seen chosed)
    → IsLeast.least v ≤ y
    → IsLeast (seen ++ y ∷ []) chosed
IsLeast-more seen chosed y v h = record {
  least = v.least;
  there = get_elem?-append seen chosed v.least y v.there;
  at_least = AreAtLeast-append v.least y seen v.at_least h;
  first = subst (AreAbove v.least) (sym (take-append_elem seen chosed v.least y v.there)) v.first;
}

IsLeast-last :
    (seen : List ℕ) (chosed y : ℕ) (v : IsLeast seen chosed)
    → y < IsLeast.least v
    → IsLeast (seen ++ y ∷ []) (length seen)
IsLeast-last seen chosed y v h = record {
  least = y;
  there = get_elem?-length seen y;
  at_least =
      AreAtLeast-append y y seen (AreAtLeast-AreAtLeast v.least y seen h v.at_least) (omega arith);
  first =
      subst (AreAbove y) (sym (take-append_length seen (y ∷ [])))
        (AreAtLeast-AreAbove v.least y seen h v.at_least);
}

less_int_lem : (a b : ℕ) → a < 2 ^ 31 → b < 2 ^ 31 → less_int a b ≡ ltb a b
less_int_lem a b h k = ground (arith, h, k)

lla_walk_lem :
    (seen more : List ℕ) (chosed : ℕ) (v : IsLeast seen chosed)
    → IsLeast.least v < 2 ^ 31
    → AreInts more
    → IsLeast (seen ++ more) (lla_walk chosed (IsLeast.least v) (length seen) more)
unfolding lla_walk IsLeast-last IsLeast-more
lla_walk_lem seen [] chosed v small ints = subst (λ l. IsLeast l chosed) (sym (append-nil seen)) v
lla_walk_lem seen (y ∷ more) chosed v small ints =
    subst (λ l. IsLeast l (lla_walk chosed v.least (length seen) (y ∷ more)))
      (append_assoc seen (y ∷ []) more)
      (elim (Bool-cases (ltb y v.least)) [
        | inl t ↦
            subst (IsLeast ((seen ++ y ∷ []) ++ more))
              (ap (λ n. lla_walk (length seen) y n more) next
                ∙ sym (chooses true (less_int_lem y v.least ints.0 small ∙ t)))
              (lla_walk_lem (seen ++ y ∷ []) more (length seen)
                (IsLeast-last seen chosed y v (ground (arith, t))) ints.0 ints.1)
        | inr f ↦
            subst (IsLeast ((seen ++ y ∷ []) ++ more))
              (ap (λ n. lla_walk chosed v.least n more) next
                ∙ sym (chooses false (less_int_lem y v.least ints.0 small ∙ f)))
              (lla_walk_lem (seen ++ y ∷ []) more chosed
                (IsLeast-more seen chosed y v (ground (arith, f))) small ints.1)
      ])
  where
    next : length (seen ++ y ∷ []) ≡ suc (length seen)
    next = omega (arith, length-append seen (y ∷ []))

    chooses :
        (b : Bool)
        → less_int y v.least ≡ b
        → (if less_int y v.least
            then lla_walk (length seen) y (suc (length seen)) more
            else lla_walk chosed v.least (suc (length seen)) more)
          ≡ (if b
              then lla_walk (length seen) y (suc (length seen)) more
              else lla_walk chosed v.least (suc (length seen)) more)
    chooses b e =
        ap
          (λ b.
            if b
            then lla_walk (length seen) y (suc (length seen)) more
            else lla_walk chosed v.least (suc (length seen)) more)
          e

-- `ev_get_loop_lla` gives the first of the loops with the fewest descriptors.
pub ev_get_loop_lla_lem :
    (fd_size : ℕ) (more : List ℕ)
    → AreInts (fd_size ∷ more)
    → IsLeast (fd_size ∷ more) (ev_get_loop_lla fd_size more)
unfolding ev_get_loop_lla
ev_get_loop_lla_lem fd_size more ints = lla_walk_lem (fd_size ∷ []) more 0 alone ints.0 ints.1
  where
    alone : IsLeast (fd_size ∷ []) 0
    alone = record { least = fd_size; there = refl; at_least = (omega arith, tt); first = tt }
