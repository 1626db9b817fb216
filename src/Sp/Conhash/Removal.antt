-- ===== src/Sp/Conhash/Removal.antt =====
-- A target is removed from the ring: no message finds it afterwards, and none finds freed memory.
use proxyio.Base.{
  ℕ, ◌≡◌, refl, sym, subst, ◌⊎◌, inl, inr, Bool, true, false, ◌||◌, List, [], ◌∷◌, ◌++◌, Option,
  none, some, ◌==◌, min, take, length, Bool-cases, arith,
}
use Prim.Native.Nat.{Ordering}
use Prim.Native.Nat.Ordering.{lt, eq, gt}
use proxyio.StrRb.{
  StrRbe, Tree, leaf, node, StrRb, key_cmp, find_leaf, str_rb_find_leaf, str_rb_delete,
}
use proxyio.StrRb.Lookup.{inorder}
use proxyio.StrRb.Erasing.{without, IsErase}
use proxyio.Sp.Conhash.{
  Ventry, ConsistentHash, ventry_at, Owner, null, owned_by, owner_of, consistent_hash_get, has_key,
  rm_walk, consistent_hash_rm, conhash_select, conhash_rm,
}

abbrev pub known : List Ventry → ℕ → Bool
known [] at = false
known (vce ∷ more) at = (vce.rbe.at == at) || known more at

abbrev pub All : (StrRbe → Bool) → List StrRbe → Type 0
All p [] = Unit {0}
All p (e ∷ es) = (p e ≡ true) × All p es

abbrev pub has_at : ℕ → List StrRbe → Bool
has_at at [] = false
has_at at (e ∷ es) = (e.at == at) || has_at at es

-- No two entries lie at the same address.
abbrev pub AreApart : List StrRbe → Type 0
AreApart [] = Unit {0}
AreApart (e ∷ es) = (has_at e.at es ≡ false) × AreApart es

-- Each entry of the tree lies in an entry of the list.
pub record IsConhash (ch : ConsistentHash) : Type 0 where
  pub in_head : All (λ e. known ch.head e.at) (inorder ch.v_rb_tree.root)
  pub apart : AreApart (inorder ch.v_rb_tree.root)

All-imp :
    (p q : StrRbe → Bool) (es : List StrRbe)
    → ((e : StrRbe) → p e ≡ true → q e ≡ true)
    → All p es
    → All q es
All-imp p q [] f a = tt
All-imp p q (e ∷ es) f a = (f e a.0, All-imp p q es f a.1)

All-append_left : (p : StrRbe → Bool) (xs ys : List StrRbe) → All p (xs ++ ys) → All p xs
All-append_left p [] ys a = tt
All-append_left p (x ∷ xs) ys a = (a.0, All-append_left p xs ys a.1)

All-append_right : (p : StrRbe → Bool) (xs ys : List StrRbe) → All p (xs ++ ys) → All p ys
All-append_right p [] ys a = a
All-append_right p (x ∷ xs) ys a = All-append_right p xs ys a.1

-- What a walk comes by satisfies what all entries do.
abbrev OnSome : (StrRbe → Bool) → Option StrRbe → Type 0
OnSome p none = Unit {0}
OnSome p (some e) = p e ≡ true

find_leaf-OnSome :
    (p : StrRbe → Bool) (cur : Option StrRbe) (t : Tree) (key : List ℕ)
    → OnSome p cur
    → All p (inorder t)
    → OnSome p (find_leaf cur t key)
unfolding find_leaf
find_leaf-OnSome p cur leaf key c a = c
find_leaf-OnSome p cur (node l e r) key c a =
    go (key_cmp key e.key)
      (find_leaf-OnSome p (some e) l key here (All-append_left p (inorder l) (e ∷ inorder r) a))
      (find_leaf-OnSome p (some e) r key here (All-append_right p (inorder l) (e ∷ inorder r) a).1)
  where
    here : p e ≡ true
    here = (All-append_right p (inorder l) (e ∷ inorder r) a).0

    go :
        (o : Ordering)
        → OnSome p (find_leaf (some e) l key)
        → OnSome p (find_leaf (some e) r key)
        → OnSome p (elim o as (λ _. Option StrRbe) [
          | lt ↦ find_leaf (some e) l key
          | eq ↦ some e
          | gt ↦ find_leaf (some e) r key
        ])
    go lt left right = left
    go eq left right = here
    go gt left right = right

without-has_at :
    (at other : ℕ) (es : List StrRbe) → has_at at es ≡ false → has_at at (without other es) ≡ false
without-has_at at other [] h = refl
without-has_at at other (e ∷ es) h = ground (arith, h, without-has_at at other es)

AreApart-without : (at : ℕ) (es : List StrRbe) → AreApart es → AreApart (without at es)
AreApart-without at [] v = tt
AreApart-without at (e ∷ es) v = elim (Bool-cases (e.at == at)) [
  | inl t ↦ rw (t, without) (v.1)
  | inr f ↦ rw (f, without) (without-has_at e.at at es v.0, AreApart-without at es v.1)
]

absent_All :
    (at : ℕ) (p q : StrRbe → Bool) (es : List StrRbe)
    → ((e : StrRbe) → (e.at == at) ≡ false → p e ≡ true → q e ≡ true)
    → has_at at es ≡ false
    → All p es
    → All q es
absent_All at p q [] f h a = tt
absent_All at p q (e ∷ es) f h a =
    (f e (ground (arith, h)) a.0, absent_All at p q es f (ground (arith, h)) a.1)

-- What holds of the entries elsewhere holds of all when the one at the address is taken out.
without-All :
    (at : ℕ) (p q : StrRbe → Bool) (es : List StrRbe)
    → ((e : StrRbe) → (e.at == at) ≡ false → p e ≡ true → q e ≡ true)
    → AreApart es
    → All p es
    → All q (without at es)
without-All at p q [] f v a = tt
without-All at p q (e ∷ es) f v a = elim (Bool-cases (e.at == at)) [
  | inl t ↦
      rw (t, without)
        (absent_All at p q es f (subst (λ n. has_at n es ≡ false) (ground (arith, t)) (v.0)) a.1)
  | inr k ↦ rw (k, without) (f e k a.0, without-All at p q es f v.1 a.1)
]

module _ (rb_erase : Tree → ℕ → Tree) (d : IsErase rb_erase) (key : List ℕ) where
  -- No entry that is kept has the key, and each entry of the tree is in one that is kept.
  rm_walk-known :
      (ves kept : List Ventry) (m : StrRb)
      → All (λ e. known kept e.at || known ves e.at) (inorder m.root)
      → AreApart (inorder m.root)
      → let (ves', m') = rm_walk rb_erase key ves m in
        All (λ e. known kept e.at || known ves' e.at) (inorder m'.root) × AreApart (inorder m'.root)
  unfolding rm_walk str_rb_delete
  rm_walk-known [] kept m a v = (a, v)
  rm_walk-known (vce ∷ more) kept m a v = elim (Bool-cases (has_key key vce)) [
    | inl t ↦ rw t (
        rm_walk-known more kept (str_rb_delete rb_erase m vce.rbe.at)
          (subst (All (λ e. known kept e.at || known more e.at)) (sym same) (
            without-All vce.rbe.at (λ e. known kept e.at || known (vce ∷ more) e.at)
              (λ e. known kept e.at || known more e.at) (inorder m.root)
              (λ e n h. ground (arith, n, h)) v a))
          (subst AreApart (sym same) (AreApart-without vce.rbe.at (inorder m.root) v)))
    | inr f ↦ rw f (
        let (b, w) =
          rm_walk-known more (vce ∷ kept) m
            (All-imp (λ e. known kept e.at || known (vce ∷ more) e.at)
              (λ e. known (vce ∷ kept) e.at || known more e.at) (inorder m.root)
              (λ e h. ground (arith, h)) a)
            v in
        let r : List Ventry × StrRb = rm_walk rb_erase key more m in
        (
          All-imp (λ e. known (vce ∷ kept) e.at || known r.0 e.at)
              (λ e. known kept e.at || known (vce ∷ r.0) e.at) (inorder (StrRb.root r.1))
              (λ e h. ground (arith, h)) b,
          w,
        ))
  ]
    where
      same : inorder (rb_erase m.root vce.rbe.at) ≡ without vce.rbe.at (inorder m.root)
      same = d.erased m.root vce.rbe.at

  NoneHas : List Ventry → Type 0
  NoneHas [] = Unit {0}
  NoneHas (vce ∷ more) = (has_key key vce ≡ false) × NoneHas more

  rm_walk-NoneHas : (ves : List Ventry) (m : StrRb) → NoneHas (rm_walk rb_erase key ves m).0
  unfolding rm_walk NoneHas
  rm_walk-NoneHas [] m = tt
  rm_walk-NoneHas (vce ∷ more) m = elim (Bool-cases (has_key key vce)) [
    | inl t ↦ rw t (rm_walk-NoneHas more (str_rb_delete rb_erase m vce.rbe.at))
    | inr f ↦ rw f (f, rm_walk-NoneHas more m)
  ]

  found_without :
      (ves : List Ventry) (at : ℕ)
      → NoneHas ves
      → known ves at ≡ true
      → (ce : Ventry) × (ventry_at ves at ≡ some ce) × (has_key key ce ≡ false)
  unfolding ventry_at NoneHas
  found_without [] at n h = absurd (cc)
  found_without (vce ∷ more) at n h = elim (Bool-cases (vce.rbe.at == at)) [
    | inl t ↦ (vce, rw t refl, n.0)
    | inr f ↦
        let (ce, e, k) = found_without more at n.1 (subst (λ b. (b || known more at) ≡ true) f h) in
        (ce, rw f e, k)
  ]

  -- What a message selects in a ring without targets of the key.
  abbrev pub Selects : List Ventry → Owner → Type 0
  Selects ves got =
      (got ≡ null)
      ⊎ ((ce : Ventry) × (at : ℕ) × (ventry_at ves at ≡ some ce)
          × (got ≡ owned_by ce.owner)
          × (has_key key ce ≡ false))

  owner_of-Selects :
      (ves : List Ventry) (o : Option StrRbe)
      → NoneHas ves
      → OnSome (λ e. known ves e.at) o
      → Selects ves (owner_of ves o)
  unfolding owner_of
  owner_of-Selects ves none n k = inl refl
  owner_of-Selects ves (some e) n k =
      let (ce, f, h) = found_without ves e.at n k in inr (ce, e.at, f, rw (f, owner_of) refl, h)

  -- After a removal no message selects the target removed, none meets memory that was freed, and the
  -- entries of the tree still lie in those of the list.
  pub conhash_select-conhash_rm :
      (ch : ConsistentHash) (ubuf : List ℕ)
      → IsConhash ch
      → let ch' = conhash_rm rb_erase ch key in
        IsConhash ch' × Selects ch'.head (conhash_select ch' ubuf)
  unfolding conhash_rm consistent_hash_rm conhash_select consistent_hash_get str_rb_find_leaf
  conhash_select-conhash_rm ch ubuf v =
      let (a, w) = rm_walk-known ch.head [] ch.v_rb_tree v.in_head v.apart in
      let r : List Ventry × StrRb = rm_walk rb_erase key ch.head ch.v_rb_tree in
      (
        record { in_head = a; apart = w },
        owner_of-Selects r.0 (find_leaf none (StrRb.root r.1) (take (min (length ubuf) 16) ubuf))
            (rm_walk-NoneHas ch.head ch.v_rb_tree)
            (find_leaf-OnSome (λ e. known r.0 e.at) none (StrRb.root r.1)
              (take (min (length ubuf) 16) ubuf) tt a),
      )
