-- ===== src/StrRb/Lookup.antt =====
-- The tree against the list of its entries in order: finding, and finding after an insertion.
use Prim.Native.Nat.{Ordering}
use Prim.Native.Nat.Ordering.{lt, eq, gt}
use proxyio.Base.{ℕ, ◌≡◌, refl, sym, subst, ◌∙◌, List, [], ◌∷◌, ◌++◌, Option, none, some, arith}
use proxyio.StrRb.{StrRbe, Tree, leaf, node, key_cmp, str_rb_find}
use proxyio.StrRb.Keys.{eq_of_cmp, lt_trans, gt_of_lt, lt_of_gt}

abbrev pub inorder : Tree → List StrRbe
inorder leaf = []
inorder (node l e r) = inorder l ++ e ∷ inorder r

-- All keys of the list are below the key, or above it.
abbrev pub AreBelow : List ℕ → List StrRbe → Type 0
AreBelow key [] = Unit {0}
AreBelow key (e ∷ es) = (key_cmp e.key key ≡ lt) × AreBelow key es

abbrev pub AreAbove : List ℕ → List StrRbe → Type 0
AreAbove key [] = Unit {0}
AreAbove key (e ∷ es) = (key_cmp key e.key ≡ lt) × AreAbove key es

abbrev pub AreSorted : List StrRbe → Type 0
AreSorted [] = Unit {0}
AreSorted (e ∷ es) = AreAbove e.key es × AreSorted es

abbrev pub find_in : List StrRbe → List ℕ → Option StrRbe
find_in [] key = none
find_in (e ∷ es) key = elim (key_cmp key e.key) [ eq ↦ some e | _ ↦ find_in es key ]

module _ (key : List ℕ) where
  pub AreAbove-trans :
      (k : List ℕ) (es : List StrRbe) → key_cmp key k ≡ lt → AreAbove k es → AreAbove key es
  AreAbove-trans k [] h a = tt
  AreAbove-trans k (e ∷ es) h a = (lt_trans key k e.key h a.0, AreAbove-trans k es h a.1)

  pub AreBelow-append :
      (xs ys : List StrRbe) → AreBelow key xs → AreBelow key ys → AreBelow key (xs ++ ys)
  AreBelow-append [] ys a b = b
  AreBelow-append (x ∷ xs) ys a b = (a.0, AreBelow-append xs ys a.1 b)

  pub AreAbove-append :
      (xs ys : List StrRbe) → AreAbove key xs → AreAbove key ys → AreAbove key (xs ++ ys)
  AreAbove-append [] ys a b = b
  AreAbove-append (x ∷ xs) ys a b = (a.0, AreAbove-append xs ys a.1 b)

  AreAbove-left : (xs ys : List StrRbe) → AreAbove key (xs ++ ys) → AreAbove key xs
  AreAbove-left [] ys a = tt
  AreAbove-left (x ∷ xs) ys a = (a.0, AreAbove-left xs ys a.1)

  AreAbove-right : (xs ys : List StrRbe) → AreAbove key (xs ++ ys) → AreAbove key ys
  AreAbove-right [] ys a = a
  AreAbove-right (x ∷ xs) ys a = AreAbove-right xs ys a.1

  pub find_in-AreAbove : (es : List StrRbe) → AreAbove key es → find_in es key ≡ none
  find_in-AreAbove [] a = refl
  find_in-AreAbove (e ∷ es) a = rw (a.0, find_in) (find_in-AreAbove es a.1)

  pub find_in-AreBelow :
      (xs ys : List StrRbe) → AreBelow key xs → find_in (xs ++ ys) key ≡ find_in ys key
  find_in-AreBelow [] ys a = refl
  find_in-AreBelow (x ∷ xs) ys a = rw (gt_of_lt x.key key a.0, find_in) (find_in-AreBelow xs ys a.1)

  -- Behind a list, entries above the key are not looked at.
  pub find_in-append_above :
      (xs ys : List StrRbe) → AreAbove key ys → find_in (xs ++ ys) key ≡ find_in xs key
  find_in-append_above [] ys a = find_in-AreAbove ys a
  find_in-append_above (x ∷ xs) ys a = ground (arith, find_in-append_above xs ys a)

pub AreSorted-left : (xs ys : List StrRbe) → AreSorted (xs ++ ys) → AreSorted xs
AreSorted-left [] ys v = tt
AreSorted-left (x ∷ xs) ys v = (AreAbove-left x.key xs ys v.0, AreSorted-left xs ys v.1)

pub AreSorted-right : (xs ys : List StrRbe) → AreSorted (xs ++ ys) → AreSorted ys
AreSorted-right [] ys v = v
AreSorted-right (x ∷ xs) ys v = AreSorted-right xs ys v.1

pub AreSorted-AreBelow :
    (xs : List StrRbe) (e : StrRbe) (ys : List StrRbe)
    → AreSorted (xs ++ e ∷ ys)
    → AreBelow e.key xs
AreSorted-AreBelow [] e ys v = tt
AreSorted-AreBelow (x ∷ xs) e ys v =
    ((AreAbove-right x.key xs (e ∷ ys) v.0).0, AreSorted-AreBelow xs e ys v.1)

pub AreBelow-trans :
    (k key : List ℕ) (es : List StrRbe) → key_cmp k key ≡ lt → AreBelow k es → AreBelow key es
AreBelow-trans k key [] h a = tt
AreBelow-trans k key (e ∷ es) h a = (lt_trans e.key k key a.0 h, AreBelow-trans k key es h a.1)

pub AreSorted-insert :
    (xs : List StrRbe) (e : StrRbe) (ys : List StrRbe)
    → AreSorted (xs ++ ys)
    → AreBelow e.key xs
    → AreAbove e.key ys
    → AreSorted (xs ++ e ∷ ys)
AreSorted-insert [] e ys v b a = (a, v)
AreSorted-insert (x ∷ xs) e ys v b a = (
  AreAbove-append x.key xs (e ∷ ys) (AreAbove-left x.key xs ys v.0)
      (b.0, AreAbove-right x.key xs ys v.0),
  AreSorted-insert xs e ys v.1 b.1 a,
)

-- On a sorted tree the walk finds what the list of its entries has.
pub str_rb_find-find_in :
    (t : Tree) (key : List ℕ) → AreSorted (inorder t) → str_rb_find t key ≡ find_in (inorder t) key
unfolding str_rb_find
str_rb_find-find_in leaf key v = refl
str_rb_find-find_in (node l e r) key v =
    go (str_rb_find-find_in l key sorted_l) (str_rb_find-find_in r key sorted_r.1)
      (key_cmp key e.key) refl
  where
    sorted_l : AreSorted (inorder l)
    sorted_l = AreSorted-left (inorder l) (e ∷ inorder r) v

    sorted_r : AreAbove e.key (inorder r) × AreSorted (inorder r)
    sorted_r = AreSorted-right (inorder l) (e ∷ inorder r) v

    below : AreBelow e.key (inorder l)
    below = AreSorted-AreBelow (inorder l) e (inorder r) v

    go :
        str_rb_find l key ≡ find_in (inorder l) key
        → str_rb_find r key ≡ find_in (inorder r) key
        → (o : Ordering) → key_cmp key e.key ≡ o
        → elim o as (λ _. Option StrRbe) [
          | lt ↦ str_rb_find l key
          | eq ↦ some e
          | gt ↦ str_rb_find r key
        ]
          ≡ find_in (inorder l ++ e ∷ inorder r) key
    go left right lt h =
        left
        ∙ sym (
            find_in-append_above key (inorder l) (e ∷ inorder r)
              (h, AreAbove-trans key e.key (inorder r) h sorted_r.0))
    go left right eq h = sym (
        find_in-AreBelow key (inorder l) (e ∷ inorder r)
          (subst (λ k. AreBelow k (inorder l)) (sym (eq_of_cmp key e.key h)) below)
        ∙ rw (h, find_in) refl)
    go left right gt h =
        right
        ∙ sym (
            find_in-AreBelow key (inorder l) (e ∷ inorder r)
              (AreBelow-trans e.key key (inorder l) (lt_of_gt key e.key h) below)
            ∙ rw (h, find_in) refl)
