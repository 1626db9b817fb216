-- ===== src/StrRb/Erasing.antt =====
-- An entry is inserted and deleted again.
use proxyio.Base.{
  ℕ, ◌+◌, ◌%◌, ◌^◌, ◌<◌, ◌≡◌, refl, sym, ap, subst, ◌∙◌, false, List, [], ◌∷◌, ◌++◌, Option, none,
  some, ◌==◌, if◌then◌else◌, ==_refl, arith,
}
use proxyio.StrRb.{StrRbe, Tree, StrRb, str_rb_find, link, str_rb_insert, str_rb_delete}
use proxyio.StrRb.Lookup.{inorder, AreSorted, find_in, str_rb_find-find_in}
use proxyio.StrRb.Inserting.{IsColor, Placed, link-Placed}

-- Without the first entry at an address.
abbrev pub without : ℕ → List StrRbe → List StrRbe
without at [] = []
without at (e ∷ es) = let rest = without at es in if e.at == at then es else e ∷ rest

-- `rb_erase` takes the entry out and keeps the order of the others.
pub record IsErase (rb_erase : Tree → ℕ → Tree) : Type 0 where
  pub erased : (t : Tree) (at : ℕ) → inorder (rb_erase t at) ≡ without at (inorder t)

-- No entry of the list lies at the address.
abbrev pub Free : ℕ → List StrRbe → Type 0
Free at [] = Unit {0}
Free at (e ∷ es) = ((e.at == at) ≡ false) × Free at es

Free-left : (at : ℕ) (xs ys : List StrRbe) → Free at (xs ++ ys) → Free at xs
Free-left at [] ys f = tt
Free-left at (x ∷ xs) ys f = (f.0, Free-left at xs ys f.1)

without-insert :
    (xs : List StrRbe) (e : StrRbe) (ys : List StrRbe)
    → Free e.at xs
    → without e.at (xs ++ e ∷ ys) ≡ xs ++ ys
without-insert [] e ys f = rw (==_refl e.at, without) refl
without-insert (x ∷ xs) e ys f = rw (f.0, without) (ap (λ l. x ∷ l) (without-insert xs e ys f.1))

module _ (rb_insert_color : Tree → Tree) (rb_erase : Tree → ℕ → Tree) where
  -- An entry whose key was not there is deleted again: every key finds what it found before, and the
  -- size is as before.
  pub str_rb_delete-str_rb_insert :
      (c : IsColor rb_insert_color) (d : IsErase rb_erase) (m : StrRb) (entry : StrRbe)
      (key : List ℕ)
      → AreSorted (inorder m.root)
      → Free entry.at (inorder m.root)
      → m.size < 2 ^ 64
      → str_rb_find m.root entry.key ≡ none
      → let m' = str_rb_delete rb_erase (str_rb_insert rb_insert_color m entry).0 entry.at in
        (inorder m'.root ≡ inorder m.root)
        × (str_rb_find m'.root key ≡ str_rb_find m.root key)
        × (m'.size ≡ m.size)
  unfolding str_rb_insert str_rb_delete
  str_rb_delete-str_rb_insert c d m entry key v free small absent =
      go (link m.root entry) (link-Placed m.root entry v)
    where
      go :
          (o : Option Tree)
          → Placed entry (inorder m.root) o
          → let m' =
              str_rb_delete rb_erase
                (elim o as (λ _. StrRb × Option Tree) [
                  | none ↦ (record m { size = (m.size + 1) % 2 ^ 64 }, none)
                  | some t ↦ (
                    record { root = rb_insert_color t; size = (m.size + 1) % 2 ^ 64 },
                    some (rb_insert_color t),
                  )
                ]).0
                entry.at in
            (inorder m'.root ≡ inorder m.root)
            × (str_rb_find m'.root key ≡ str_rb_find m.root key)
            × (m'.size ≡ m.size)
      go none (x, found) =
          let f : none ≡ some x = sym absent ∙ str_rb_find-find_in m.root entry.key v ∙ found in
          absurd (cc)
      go (some t) (xs, ys, before, after, b, a) = (
        same,
        str_rb_find-find_in (rb_erase (rb_insert_color t) entry.at) key
              (subst AreSorted (sym same) v)
            ∙ ap (λ es. find_in es key) same
            ∙ sym (str_rb_find-find_in m.root key v),
        omega (arith, small),
      )
        where
          same : inorder (rb_erase (rb_insert_color t) entry.at) ≡ inorder m.root
          same =
              d.erased (rb_insert_color t) entry.at
              ∙ ap (without entry.at) (c.colored t ∙ after)
              ∙ without-insert xs entry ys
                  (Free-left entry.at xs ys (subst (Free entry.at) before free))
              ∙ sym before
