-- ===== src/Sp/Ulhash.antt =====
-- src/utils/unorder_p_array.c and src/sp/reqrep/lbs_ulhash.c: the balance of requests by a hash that the
-- user gives. A target is named by its address.
pub mod Stale
use proxyio.Base.{
  ℕ, zero, suc, ◌+◌, ◌-◌, ◌*◌, ◌%◌, ◌^◌, ◌≤◌, ◌<◌, ◌≡◌, refl, sym, ap, subst, ◌∙◌, inl, inr, Bool,
  List, [], ◌∷◌, ◌++◌, Option, none, some, ltb, ◌==◌, if◌then◌else◌, get_elem?, set, take, length,
  replicate, length-append, length-replicate, length-take, take-append_left, Bool-cases, arith,
}

-- `at` is the memory, of `cap` pointers, of which the first `size` are the array.
pub record UnorderPArray : Type 0 where
  pub size : ℕ
  pub cap : ℕ
  pub at : List ℕ

unfoldable pub unorder_p_array_init : UnorderPArray
unorder_p_array_init = record { size = 0; cap = 10; at = replicate 10 0 }

-- Twice the memory when it is full; the array and the index of the new pointer.
unfoldable pub unorder_p_array_push_back : UnorderPArray → ℕ → UnorderPArray × ℕ
unorder_p_array_push_back arr value =
    let arr' : UnorderPArray =
      if arr.size == arr.cap
      then record arr {
        cap = arr.cap * 2;
        at = take arr.size arr.at ++ replicate (arr.cap * 2 - arr.size) 0;
      }
      else arr in
    (record arr' { size = arr'.size + 1; at = set arr'.at arr'.size value }, arr'.size)

-- `none` is a read or a write outside the memory.
unfoldable pub unorder_p_array_at : UnorderPArray → ℕ → Option ℕ
unorder_p_array_at arr idx = get_elem? arr.at idx

unfoldable pub unorder_p_array_erase : UnorderPArray → ℕ → Option UnorderPArray
unorder_p_array_erase arr idx =
    if arr.size == 0 then none else elim (get_elem? arr.at (arr.size - 1)) [
      | none ↦ none
      | some last ↦
          if ltb idx (length arr.at)
          then some (record arr { size = arr.size - 1; at = set arr.at idx last })
          else none
    ]

-- `idx` is the `lbs_ent.ulhash.idx` of each target.
pub record UlhashLbs : Type 0 where
  pub idx : ℕ → ℕ
  pub tgs : UnorderPArray

unfoldable pub ulhash_new : UlhashLbs
ulhash_new = record { idx = λ tg. 0; tgs = unorder_p_array_init }

unfoldable pub ulhash_add : UlhashLbs → ℕ → UlhashLbs
ulhash_add ul tg =
    let (tgs, at) = unorder_p_array_push_back ul.tgs tg in
    record { idx = λ x. if x == tg then at else ul.idx x; tgs = tgs }

unfoldable pub ulhash_rm : UlhashLbs → ℕ → Option UlhashLbs
ulhash_rm ul tg = elim (unorder_p_array_erase ul.tgs (ul.idx tg)) [
  | none ↦ none
  | some tgs ↦ some (record ul { tgs = tgs })
]

-- The user's hash of the message is given; it is not negative here.
unfoldable pub ulhash_select : UlhashLbs → ℕ → Option ℕ
ulhash_select ul hash =
    if ul.tgs.size == 0 then none else unorder_p_array_at ul.tgs (hash % ul.tgs.size)
