-- ===== src/StrRb.antt =====
-- src/utils/str_rb.c and str_rb.h: a search tree of entries by their keys, which are strings of bytes
-- with their lengths. Recolouring and erasing are the red-black tree's of krb.c, parameters.
pub mod Keys
pub mod Lookup
pub mod Inserting
pub mod Erasing
use Prim.Native.Nat.{compare}
use Prim.Native.Nat.Ordering.{lt, eq, gt}
use proxyio.Base.{
  ℕ, zero, suc, ◌+◌, ◌-◌, ◌%◌, ◌^◌, ◌≡◌, min, List, [], ◌∷◌, ◌++◌, Option, none, some, length, ◌==◌,
  if◌then◌else◌,
}
use Prim.Native.Nat.{Ordering}

-- `at` is the address of the entry, which lies inside an object of the caller.
pub record StrRbe : Type 0 where
  pub at : ℕ
  pub key : List ℕ

pub data Tree : Type 0 where
  leaf : Tree
  node : Tree → StrRbe → Tree → Tree

pub record StrRb : Type 0 where
  pub root : Tree
  pub size : ℕ

-- `memcmp`: how the first bytes of `a` compare with those of `b`.
abbrev pub memcmp : ℕ → List ℕ → List ℕ → Ordering
memcmp zero a b = eq
memcmp (suc n) [] b = eq
memcmp (suc n) (x ∷ a) [] = eq
memcmp (suc n) (x ∷ a) (y ∷ b) = elim (compare x y) [ lt ↦ lt | eq ↦ memcmp n a b | gt ↦ gt ]

-- Where the walk goes at an entry: `lt` to the left, `eq` no further, `gt` to the right.
unfoldable pub key_cmp : List ℕ → List ℕ → Ordering
key_cmp key cur = elim (memcmp (min (length cur) (length key)) cur key) [
  | eq ↦ compare (length key) (length cur)
  | gt ↦ lt
  | lt ↦ gt
]

unfoldable pub str_rb_init : StrRb
str_rb_init = record { root = leaf; size = 0 }

unfoldable pub str_rb_min : Tree → Option StrRbe
str_rb_min leaf = none
str_rb_min (node leaf e r) = some e
str_rb_min (node (node a b c) e r) = str_rb_min (node a b c)

unfoldable pub str_rb_max : Tree → Option StrRbe
str_rb_max leaf = none
str_rb_max (node l e leaf) = some e
str_rb_max (node l e (node a b c)) = str_rb_max (node a b c)

unfoldable pub str_rb_find : Tree → List ℕ → Option StrRbe
str_rb_find leaf key = none
str_rb_find (node l e r) key = elim (key_cmp key e.key) [
  | lt ↦ str_rb_find l key
  | eq ↦ some e
  | gt ↦ str_rb_find r key
]

-- `cur` is the entry that the walk came by last.
unfoldable pub find_leaf : Option StrRbe → Tree → List ℕ → Option StrRbe
find_leaf cur leaf key = cur
find_leaf cur (node l e r) key = elim (key_cmp key e.key) [
  | lt ↦ find_leaf (some e) l key
  | eq ↦ some e
  | gt ↦ find_leaf (some e) r key
]

unfoldable pub str_rb_find_leaf : Tree → List ℕ → Option StrRbe
str_rb_find_leaf t key = find_leaf none t key

-- The place where the walk ends; `none` when the key is there.
unfoldable pub link : Tree → StrRbe → Option Tree
link leaf entry = some (node leaf entry leaf)
link (node l e r) entry = elim (key_cmp entry.key e.key) [
  | lt ↦ elim (link l entry) [ none ↦ none | some l' ↦ some (node l' e r) ]
  | eq ↦ none
  | gt ↦ elim (link r entry) [ none ↦ none | some r' ↦ some (node l e r') ]
]

-- The map, and whether 0 is returned. The size counts the entry whatever is returned.
unfoldable pub str_rb_insert : (Tree → Tree) → StrRb → StrRbe → StrRb × Option Tree
str_rb_insert rb_insert_color m entry = elim (link m.root entry) [
  | none ↦ (record m { size = (m.size + 1) % 2 ^ 64 }, none)
  | some t ↦
      (record { root = rb_insert_color t; size = (m.size + 1) % 2 ^ 64 }, some (rb_insert_color t))
]

unfoldable pub str_rb_delete : (Tree → ℕ → Tree) → StrRb → ℕ → StrRb
str_rb_delete rb_erase m at = record {
  root = rb_erase m.root at;
  size = (m.size + 2 ^ 64 - 1) % 2 ^ 64;
}
