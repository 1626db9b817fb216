-- ===== src/StrRb/Inserting.antt =====
-- An entry is inserted: what is found afterwards.
use Prim.Native.Nat.{Ordering}
use Prim.Native.Nat.Ordering.{lt, eq, gt}
use proxyio.Base.{
  ℕ, ◌+◌, ◌%◌, ◌^◌, ◌≡◌, ◌≢◌, refl, sym, ap, subst, ◌∙◌, List, [], ◌∷◌, ◌++◌, Option, none, some,
  append_assoc, arith,
}
use proxyio.StrRb.{StrRbe, Tree, leaf, node, StrRb, key_cmp, str_rb_find, link, str_rb_insert}
use proxyio.StrRb.Keys.{cmp_refl, eq_of_cmp, lt_of_gt}
use proxyio.StrRb.Lookup.{
  inorder, AreBelow, AreAbove, AreSorted, find_in, AreAbove-trans, AreAbove-append, AreBelow-append,
  find_in-AreAbove, find_in-AreBelow, find_in-append_above, AreSorted-left, AreSorted-right,
  AreSorted-AreBelow, AreBelow-trans, AreSorted-insert, str_rb_find-find_in,
}

-- What a walk for an insertion comes to: the key is there, or the entry has its place between the
-- entries below and above.
abbrev pub Placed : StrRbe → List StrRbe → Option Tree → Type 0
Placed entry es none = (x : StrRbe) × (find_in es entry.key ≡ some x)
Placed entry es (some t) =
    (xs ys : List StrRbe) × (es ≡ xs ++ ys)
    × (inorder t ≡ xs ++ entry ∷ ys)
    × AreBelow entry.key xs
    × AreAbove entry.key ys

pub link-Placed :
    (t : Tree) (entry : StrRbe) → AreSorted (inorder t) → Placed entry (inorder t) (link t entry)
unfolding link
link-Placed leaf entry v = ([], [], refl, refl, tt, tt)
link-Placed (node l e r) entry v =
    go (key_cmp entry.key e.key) refl (link l entry) (link r entry) (link-Placed l entry sorted_l)
      (link-Placed r entry sorted_r.1)
  where
    sorted_l : AreSorted (inorder l)
    sorted_l = AreSorted-left (inorder l) (e ∷ inorder r) v

    sorted_r : AreAbove e.key (inorder r) × AreSorted (inorder r)
    sorted_r = AreSorted-right (inorder l) (e ∷ inorder r) v

    below : AreBelow e.key (inorder l)
    below = AreSorted-AreBelow (inorder l) e (inorder r) v

    go :
        (o : Ordering)
        → key_cmp entry.key e.key ≡ o
        → (left right : Option Tree) → Placed entry (inorder l) left
        → Placed entry (inorder r) right
        → Placed entry (inorder l ++ e ∷ inorder r) (elim o as (λ _. Option Tree) [
          | lt ↦ elim left as (λ _. Option Tree) [ none ↦ none | some l' ↦ some (node l' e r) ]
          | eq ↦ none
          | gt ↦ elim right as (λ _. Option Tree) [ none ↦ none | some r' ↦ some (node l e r') ]
        ])
    go lt h none right p q = (
      p.0,
      find_in-append_above entry.key (inorder l) (e ∷ inorder r)
            (h, AreAbove-trans entry.key e.key (inorder r) h sorted_r.0)
          ∙ p.1,
    )
    go lt h (some l') right (xs, ys, before, after, b, a) q = (
      xs,
      ys ++ e ∷ inorder r,
      ap (λ es. es ++ e ∷ inorder r) before ∙ append_assoc xs ys (e ∷ inorder r),
      ap (λ es. es ++ e ∷ inorder r) after ∙ append_assoc xs (entry ∷ ys) (e ∷ inorder r),
      b,
      AreAbove-append entry.key ys (e ∷ inorder r) a
          (h, AreAbove-trans entry.key e.key (inorder r) h sorted_r.0),
    )
    go eq h left right p q = (
      e,
      find_in-AreBelow entry.key (inorder l) (e ∷ inorder r)
            (subst (λ k. AreBelow k (inorder l)) (sym (eq_of_cmp entry.key e.key h)) below)
          ∙ rw (h, find_in) refl,
    )
    go gt h left none p q = (
      q.0,
      find_in-AreBelow entry.key (inorder l) (e ∷ inorder r)
            (AreBelow-trans e.key entry.key (inorder l) (lt_of_gt entry.key e.key h) below)
          ∙ rw (h, find_in) (q.1),
    )
    go gt h left (some r') p (xs, ys, before, after, b, a) = (
      inorder l ++ e ∷ xs,
      ys,
      ap (λ es. inorder l ++ e ∷ es) before ∙ sym (append_assoc (inorder l) (e ∷ xs) ys),
      ap (λ es. inorder l ++ e ∷ es) after ∙ sym (append_assoc (inorder l) (e ∷ xs) (entry ∷ ys)),
      AreBelow-append entry.key (inorder l) (e ∷ xs)
          (AreBelow-trans e.key entry.key (inorder l) (lt_of_gt entry.key e.key h) below)
          (lt_of_gt entry.key e.key h, b),
      a,
    )

find_in-insert_self :
    (xs : List StrRbe) (e : StrRbe) (ys : List StrRbe)
    → AreBelow e.key xs
    → find_in (xs ++ e ∷ ys) e.key ≡ some e
find_in-insert_self xs e ys b =
    find_in-AreBelow e.key xs (e ∷ ys) b ∙ rw (cmp_refl e.key, find_in) refl

find_in-insert_ne :
    (xs : List StrRbe) (e : StrRbe) (ys : List StrRbe) (key : List ℕ)
    → key ≢ e.key
    → find_in (xs ++ e ∷ ys) key ≡ find_in (xs ++ ys) key
find_in-insert_ne [] e ys key n = go (key_cmp key e.key) refl
  where
    go :
        (o : Ordering)
        → key_cmp key e.key ≡ o
        → elim o as (λ _. Option StrRbe) [ eq ↦ some e | _ ↦ find_in ys key ] ≡ find_in ys key
    go lt h = refl
    go eq h = absurd (n (eq_of_cmp key e.key h))
    go gt h = refl
find_in-insert_ne (x ∷ xs) e ys key n = ground (arith, find_in-insert_ne xs e ys key n)

abbrev pub or_else : Option StrRbe → StrRbe → StrRbe
or_else none entry = entry
or_else (some x) entry = x

-- `rb_insert_color` keeps the order of the entries.
pub record IsColor (rb_insert_color : Tree → Tree) : Type 0 where
  pub colored : (t : Tree) → inorder (rb_insert_color t) ≡ inorder t

module _ (rb_insert_color : Tree → Tree) (c : IsColor rb_insert_color) where
  -- The tree stays sorted, whatever the recolouring does; the entry is found by its key unless an
  -- other one was there before, which is kept; and what is found by any other key is as before.
  pub str_rb_find-str_rb_insert :
      (m : StrRb) (entry : StrRbe) (key : List ℕ)
      → AreSorted (inorder m.root)
      → key ≢ entry.key
      → let m' = (str_rb_insert rb_insert_color m entry).0 in
        AreSorted (inorder m'.root)
        × (str_rb_find m'.root key ≡ str_rb_find m.root key)
        × (str_rb_find m'.root entry.key ≡ some (or_else (str_rb_find m.root entry.key) entry))
  unfolding str_rb_insert
  str_rb_find-str_rb_insert m entry key v n = go (link m.root entry) (link-Placed m.root entry v)
    where
      go :
          (o : Option Tree)
          → Placed entry (inorder m.root) o
          → let m' =
              (elim o as (λ _. StrRb × Option Tree) [
                | none ↦ (record m { size = (m.size + 1) % 2 ^ 64 }, none)
                | some t ↦ (
                  record { root = rb_insert_color t; size = (m.size + 1) % 2 ^ 64 },
                  some (rb_insert_color t),
                )
              ]).0 in
            AreSorted (inorder m'.root)
            × (str_rb_find m'.root key ≡ str_rb_find m.root key)
            × (str_rb_find m'.root entry.key ≡ some (or_else (str_rb_find m.root entry.key) entry))
      go none (x, found) =
          let f : str_rb_find m.root entry.key ≡ some x =
            str_rb_find-find_in m.root entry.key v ∙ found in
          (v, refl, f ∙ ap (λ o. some (or_else o entry)) (sym f))
      go (some t) (xs, ys, before, after, b, a) = (
        sorted,
        str_rb_find-find_in (rb_insert_color t) key sorted
            ∙ ap (λ es. find_in es key) placed
            ∙ find_in-insert_ne xs entry ys key n
            ∙ ap (λ es. find_in es key) (sym before)
            ∙ sym (str_rb_find-find_in m.root key v),
        str_rb_find-find_in (rb_insert_color t) entry.key sorted
            ∙ ap (λ es. find_in es entry.key) placed
            ∙ find_in-insert_self xs entry ys b
            ∙ ap (λ o. some (or_else o entry)) (sym absent),
      )
        where
          placed : inorder (rb_insert_color t) ≡ xs ++ entry ∷ ys
          placed = c.colored t ∙ after

          sorted : AreSorted (inorder (rb_insert_color t))
          sorted =
              subst AreSorted (sym placed)
                (AreSorted-insert xs entry ys (subst AreSorted before v) b a)

          absent : str_rb_find m.root entry.key ≡ none
          absent =
              str_rb_find-find_in m.root entry.key v
              ∙ ap (λ es. find_in es entry.key) before
              ∙ find_in-AreBelow entry.key xs ys b
              ∙ find_in-AreAbove entry.key ys a
