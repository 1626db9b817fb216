-- ===== src/Sp/Ulhash/Stale.antt =====
-- The table of targets: adding keeps it right, removing leaves an index behind that is not.
use proxyio.Base.{
  ℕ, zero, suc, ◌+◌, ◌-◌, ◌*◌, ◌%◌, ◌≤◌, ◌<◌, ◌≡◌, refl, sym, ap, ◌∙◌, ◌≢◌, inl, inr, true, false,
  List, [], ◌∷◌, ◌++◌, some, ltb, ◌==◌, get_elem?, set, take, length, replicate, length-append,
  length-replicate, length-take, take-append_left, take_all, Bool-cases, arith,
}
use native.Mathlib.Nat.{mod-eq_of_lt}
use proxyio.Sp.Ulhash.{
  UnorderPArray, unorder_p_array_push_back, unorder_p_array_at, unorder_p_array_erase, UlhashLbs,
  ulhash_add, ulhash_rm, ulhash_select,
}

pub record IsArray (arr : UnorderPArray) : Type 0 where
  pub memory : length arr.at ≡ arr.cap
  pub within : arr.size ≤ arr.cap
  pub some_memory : 0 < arr.cap

length-set : (xs : List ℕ) (i v : ℕ) → length (set xs i v) ≡ length xs
length-set [] i v = refl
length-set (x ∷ xs) zero v = refl
length-set (x ∷ xs) (suc i) v = ap suc (length-set xs i v)

get_elem?-set : (xs : List ℕ) (i v : ℕ) → i < length xs → get_elem? (set xs i v) i ≡ some v
get_elem?-set [] i v h = absurd (omega (arith, h))
get_elem?-set (x ∷ xs) zero v h = refl
get_elem?-set (x ∷ xs) (suc i) v h = get_elem?-set xs i v (omega (arith, h))

get_elem?-set_ne : (xs : List ℕ) (i j v : ℕ) → i ≢ j → get_elem? (set xs i v) j ≡ get_elem? xs j
get_elem?-set_ne [] i j v n = refl
get_elem?-set_ne (x ∷ xs) zero zero v n = absurd (n refl)
get_elem?-set_ne (x ∷ xs) zero (suc j) v n = refl
get_elem?-set_ne (x ∷ xs) (suc i) zero v n = refl
get_elem?-set_ne (x ∷ xs) (suc i) (suc j) v n = get_elem?-set_ne xs i j v (λ e. n (ap suc e))

get_elem?_there : (xs : List ℕ) (i : ℕ) → i < length xs → (v : ℕ) × (get_elem? xs i ≡ some v)
get_elem?_there [] i h = absurd (omega (arith, h))
get_elem?_there (x ∷ xs) zero h = (x, refl)
get_elem?_there (x ∷ xs) (suc i) h = get_elem?_there xs i (omega (arith, h))

get_elem?-take : (xs : List ℕ) (n i : ℕ) → i < n → get_elem? (take n xs) i ≡ get_elem? xs i
get_elem?-take xs zero i h = absurd (omega (arith, h))
get_elem?-take [] (suc n) i h = refl
get_elem?-take (x ∷ xs) (suc n) zero h = refl
get_elem?-take (x ∷ xs) (suc n) (suc i) h = get_elem?-take xs n i (omega (arith, h))

take-set : (xs : List ℕ) (n v : ℕ) → n < length xs → take (suc n) (set xs n v) ≡ take n xs ++ v ∷ []
take-set [] n v h = absurd (omega (arith, h))
take-set (x ∷ xs) zero v h = refl
take-set (x ∷ xs) (suc n) v h = ap (λ l. x ∷ l) (take-set xs n v (omega (arith, h)))

-- The pointers of the array.
abbrev pub pointers : UnorderPArray → List ℕ
pointers arr = take arr.size arr.at

push_room :
    (arr : UnorderPArray) (value : ℕ)
    → IsArray arr
    → arr.size < arr.cap
    → let arr' : UnorderPArray = record arr {
      size = arr.size + 1;
      at = set arr.at arr.size value;
    } in
      IsArray arr' × (pointers arr' ≡ pointers arr ++ value ∷ [])
push_room arr value v room = (
  record {
    memory = length-set arr.at arr.size value ∙ v.memory;
    within = omega (arith, room);
    some_memory = v.some_memory;
  },
  (let e : arr.size + 1 ≡ suc arr.size = omega arith in
        ap (λ n. take n (set arr.at arr.size value)) e)
      ∙ take-set arr.at arr.size value (omega (arith, room, v.memory)),
)

-- A pointer is added behind the others, at the index returned, whether or not the memory grows.
pub unorder_p_array_push_back_lem :
    (arr : UnorderPArray) (value : ℕ)
    → IsArray arr
    → let (arr', idx) = unorder_p_array_push_back arr value in
      IsArray arr'
      × (pointers arr' ≡ pointers arr ++ value ∷ [])
      × (idx ≡ arr.size)
      × (arr'.size ≡ arr.size + 1)
unfolding unorder_p_array_push_back
unorder_p_array_push_back_lem arr value v = elim (Bool-cases (arr.size == arr.cap)) [
  | inl t ↦ rw t (
      let p = push_room grown value grown-IsArray (omega (arith, v.some_memory, v.within)) in
      (p.0, p.1 ∙ ap (λ l. l ++ value ∷ []) (same t), refl, refl))
  | inr f ↦
      rw f (let p = push_room arr value v (ground (arith, f, v.within)) in (p.0, p.1, refl, refl))
]
  where
    grown : UnorderPArray
    grown = record arr {
      cap = arr.cap * 2;
      at = take arr.size arr.at ++ replicate (arr.cap * 2 - arr.size) 0;
    }

    grown-IsArray : IsArray grown
    grown-IsArray = record {
      memory = omega (
        arith,
        v.memory,
        v.within,
        length-append (take arr.size arr.at) (replicate (arr.cap * 2 - arr.size) 0),
        length-take arr.size arr.at,
        length-replicate {A = ℕ} (arr.cap * 2 - arr.size) 0,
      );
      within = omega (arith, v.within);
      some_memory = omega (arith, v.some_memory);
    }

    same : (arr.size == arr.cap) ≡ true → pointers grown ≡ pointers arr
    same t =
        take-append_left arr.size (take arr.size arr.at) (replicate (arr.cap * 2 - arr.size) 0)
          (omega (arith, length-take arr.size arr.at, v.memory, v.within))
        ∙ take_all arr.size (take arr.size arr.at) (omega (arith, length-take arr.size arr.at))

erase_step :
    (arr : UnorderPArray) (idx last : ℕ)
    → IsArray arr
    → 0 < arr.size
    → idx < arr.cap
    → get_elem? arr.at (arr.size - 1) ≡ some last
    → unorder_p_array_erase arr idx
      ≡ some (record arr { size = arr.size - 1; at = set arr.at idx last })
unfolding unorder_p_array_erase
erase_step arr idx last v h k e = rw (some_held, e, unorder_p_array_erase, inside) refl
  where
    some_held : (arr.size == 0) ≡ false
    some_held = ground (arith, h)

    inside : ltb idx (length arr.at) ≡ true
    inside = ground (arith, k, v.memory)

rm_step :
    (ul : UlhashLbs) (tg : ℕ) (tgs : UnorderPArray)
    → unorder_p_array_erase ul.tgs (ul.idx tg) ≡ some tgs
    → ulhash_rm ul tg ≡ some (record ul { tgs = tgs })
unfolding ulhash_rm
rm_step ul tg tgs e = rw (e, ulhash_rm) refl

select_step :
    (ul : UlhashLbs) (hash found : ℕ)
    → 0 < ul.tgs.size
    → get_elem? ul.tgs.at (hash % ul.tgs.size) ≡ some found
    → ulhash_select ul hash ≡ some found
unfolding ulhash_select unorder_p_array_at
select_step ul hash found h e = rw some_held e
  where
    some_held : (ul.tgs.size == 0) ≡ false
    some_held = ground (arith, h)

-- A target is added, and any hash then selects one of the table's targets, by their order.
pub ulhash_select-ulhash_add :
    (ul : UlhashLbs) (tg hash : ℕ)
    → IsArray ul.tgs
    → (found : ℕ) × (ulhash_select (ulhash_add ul tg) hash ≡ some found)
      × (get_elem? (pointers ul.tgs ++ tg ∷ []) (hash % (ul.tgs.size + 1)) ≡ some found)
unfolding ulhash_add
ulhash_select-ulhash_add ul tg hash v =
    let (w, all, idx, grown) = unorder_p_array_push_back_lem ul.tgs tg v in
    let place : ℕ = hash % (ul.tgs.size + 1) in
    let inside : place < length (pointers ul.tgs ++ tg ∷ []) = omega (
      arith,
      length-append (pointers ul.tgs) (tg ∷ []),
      length-take ul.tgs.size ul.tgs.at,
      v.memory,
      v.within,
    ) in
    let (found, e) = get_elem?_there (pointers ul.tgs ++ tg ∷ []) place inside in
    let tgs : UnorderPArray = (unorder_p_array_push_back ul.tgs tg).0 in
    (
      found,
      select_step (ulhash_add ul tg) hash found (omega (arith, grown)) (
          ap (λ n. get_elem? tgs.at (hash % n)) grown
          ∙ sym (get_elem?-take tgs.at tgs.size place (omega (arith, grown)))
          ∙ ap (λ l. get_elem? l place) all
          ∙ e),
      e,
    )

-- A target is removed behind which at least two more stand, and then the last of the table, which was
-- moved into its place: both removals succeed, and the hash of that place still selects the target that
-- was the last. The array is well formed, and the index kept for the last target is its place.
pub ulhash_rm_stale :
    (ul : UlhashLbs) (tg last : ℕ)
    → IsArray ul.tgs
    → ul.idx tg + 2 < ul.tgs.size
    → suc (ul.idx last) ≡ ul.tgs.size
    → get_elem? ul.tgs.at (ul.idx last) ≡ some last
    → (ul' ul'' : UlhashLbs) × (ulhash_rm ul tg ≡ some ul')
      × (ulhash_rm ul' last ≡ some ul'')
      × (ulhash_select ul'' (ul.idx tg) ≡ some last)
ulhash_rm_stale ul tg last v h at e =
    let (other, o) =
      get_elem?_there at' (n - 2)
        (omega (arith, length-set ul.tgs.at i last, v.memory, v.within, h)) in
    let at'' : List ℕ = set at' (ul.idx last) other in
    let ul'' : UlhashLbs = record ul { tgs = record ul.tgs { size = n - 1 - 1; at = at'' } } in
    let less : n - 1 - 1 ≡ n - 2 = omega (arith, h) in
    (
      ul',
      ul'',
      rm_step ul tg ul'.tgs (
          erase_step ul.tgs i last v (omega (arith, h)) (omega (arith, h, v.within))
            (ap (get_elem? ul.tgs.at) (omega (arith, at)) ∙ e)),
      rm_step ul' last ul''.tgs (
          erase_step ul'.tgs (ul.idx last) other shrunk (omega (arith, h))
            (omega (arith, at, v.within)) (ap (get_elem? at') less ∙ o)),
      select_step ul'' i last (omega (arith, h)) (
          ap (get_elem? at'') (mod-eq_of_lt (omega (arith, h)))
          ∙ get_elem?-set_ne at' (ul.idx last) i other (λ same. absurd (omega (arith, same, h, at)))
          ∙ get_elem?-set ul.tgs.at i last (omega (arith, v.memory, v.within, h))),
    )
  where
    n : ℕ
    n = ul.tgs.size

    i : ℕ
    i = ul.idx tg

    at' : List ℕ
    at' = set ul.tgs.at i last

    ul' : UlhashLbs
    ul' = record ul { tgs = record ul.tgs { size = n - 1; at = at' } }

    shrunk : IsArray ul'.tgs
    shrunk = record {
      memory = length-set ul.tgs.at i last ∙ v.memory;
      within = omega (arith, v.within);
      some_memory = v.some_memory;
    }
