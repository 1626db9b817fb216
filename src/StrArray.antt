-- ===== src/StrArray.antt =====
-- src/utils/str_array.c and str_array.h: an array of strings, and a string cut at a separator. `strstr`
-- is the C library's, a parameter.
pub mod Cutting
use proxyio.Base.{
  ℕ, zero, suc, ◌+◌, ◌*◌, ◌≡◌, List, [], ◌∷◌, ◌++◌, Option, none, some, take, drop, length, ◌==◌,
  if◌then◌else◌,
}

-- `at` are the strings; there is memory for `cap` of them.
pub record StrArray : Type 0 where
  pub size : ℕ
  pub cap : ℕ
  pub at : List (List ℕ)

unfoldable pub str_array_init : StrArray
str_array_init = record { size = 0; cap = 10; at = [] }

unfoldable pub str_array_add : StrArray → List ℕ → StrArray
str_array_add arr str = record {
  size = arr.size + 1;
  cap = if arr.size == arr.cap then arr.cap * 2 else arr.cap;
  at = arr.at ++ str ∷ [];
}

module _ (strstr : List ℕ → List ℕ → Option ℕ) where
  -- `cur` is the rest of the string; `none` when the fuel is used up.
  unfoldable pub split_loop : ℕ → List ℕ → StrArray → List ℕ → Option StrArray
  split_loop zero cur arr needle = none
  split_loop (suc fuel) cur arr needle = elim (strstr cur needle) [
    | none ↦ some (str_array_add arr cur)
    | some pos ↦
        split_loop fuel (drop (pos + length needle) cur) (str_array_add arr (take pos cur)) needle
  ]

  unfoldable pub str_split : ℕ → List ℕ → StrArray → List ℕ → Option StrArray
  str_split fuel haystack arr needle = split_loop fuel haystack arr needle
