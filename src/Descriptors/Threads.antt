-- ===== src/Descriptors/Threads.antt =====
-- The threads that use the table of sockets, each step of theirs with the lock held or without it, and
-- what each step keeps. `xput` takes two of them.
use proxyio.Base.{
  ℕ, ◌+◌, ◌-◌, ◌<◌, ◌≡◌, refl, sym, ap, subst, ◌∙◌, inl, inr, Bool, true, false, List, [], ◌∷◌,
  ◌++◌, Option, none, some, ◌==◌, if◌then◌else◌, leb, Bool-cases, arith,
}
use proxyio.Descriptors.{
  Slot, Descriptors, max_descriptors, descriptors_init, lookup, clear, store, xalloc, Got, null,
  got, dangling, bug, get_slot, xget, xput_decr, xput_clear,
}
use proxyio.Descriptors.Numbers.{IsTable, cleared-Fresh, lookup-Fresh, lookup-clear_ne}
use proxyio.Descriptors.Upkeep.{xput_clear-IsTable}

-- `closing` are the numbers whose last reference an `xput` took, and has not cleared in the table yet.
pub record Sockets : Type 0 where
  pub xgb : Descriptors
  pub closing : List ℕ

-- The steps of the threads. Who lets a socket go has a reference to it.
pub data Step : Sockets → Sockets → Type 0 where
  allocs :
      {a : Sockets} {d : Descriptors} (fd : ℕ)
      → xalloc a.xgb ≡ some (d, fd)
      → Step a (record a { xgb = d })
  gets :
      {a : Sockets} {d : Descriptors} (fd : ℕ)
      → xget a.xgb fd ≡ got d
      → Step a (record a { xgb = d })
  puts :
      {a : Sockets} {d : Descriptors} (fd : ℕ) (s : Slot) (last : Bool)
      → lookup fd a.xgb.table ≡ some s
      → 0 < s.ref
      → xput_decr a.xgb fd ≡ some (d, last)
      → Step a (record { xgb = d; closing = if last then fd ∷ a.closing else a.closing })
  clears :
      {a : Sockets} (fd : ℕ) (before after : List ℕ)
      → a.closing ≡ before ++ fd ∷ after
      → Step a (record { xgb = xput_clear a.xgb fd; closing = before ++ after })

pub data ReachableTable : Sockets → Type 0 where
  initial : ReachableTable (record { xgb = descriptors_init max_descriptors; closing = [] })
  follows : {a b : Sockets} → ReachableTable a → Step a b → ReachableTable b

-- How often a number is in a list.
abbrev pub count : ℕ → List ℕ → ℕ
count n [] = 0
count n (x ∷ xs) = (if x == n then 1 else 0) + count n xs

-- A socket of the table that nobody holds.
abbrev pub unheld : Option Slot → ℕ
unheld none = 0
unheld (some s) = if s.ref == 0 then 1 else 0

-- The sockets that nobody holds are just those that are being closed, each by one thread.
pub record IsSockets (a : Sockets) : Type 0 where
  pub table : IsTable max_descriptors a.xgb
  pub closed : (n : ℕ) → count n a.closing ≡ unheld (lookup n a.xgb.table)

count-append : (n : ℕ) (xs ys : List ℕ) → count n (xs ++ ys) ≡ count n xs + count n ys
count-append n [] ys = omega arith
count-append n (x ∷ xs) ys = omega (arith, count-append n xs ys)

unheld-store :
    (fd n : ℕ) (s : Slot) (t : List (ℕ × Slot))
    → unheld (lookup n (store fd s t)) ≡ (if fd == n then unheld (some s) else unheld (lookup n t))
unfolding store lookup
unheld-store fd n s t = elim (Bool-cases (fd == n)) [
  | inl here ↦ rw here refl
  | inr there ↦ rw there (ap unheld (lookup-clear_ne fd n t there))
]

-- The socket of a number is stored again, and is held or not as before.
unheld_same :
    (fd n : ℕ) (s : Slot) (t : List (ℕ × Slot))
    → unheld (lookup fd t) ≡ unheld (some s)
    → unheld (lookup n (store fd s t)) ≡ unheld (lookup n t)
unheld_same fd n s t e = unheld-store fd n s t ∙ elim (Bool-cases (fd == n)) [
  | inl here ↦
      let same : fd ≡ n = ground (arith, here) in
      rw here (sym e ∙ ap (λ k. unheld (lookup k t)) same)
  | inr there ↦ rw there refl
]

abbrev pub KeepsGot : Descriptors → Got → Type 0
KeepsGot d (got b) = (n : ℕ) → unheld (lookup n b.table) ≡ unheld (lookup n d.table)
KeepsGot d _ = Unit {0}

get_slot-KeepsGot :
    (d : Descriptors) (fd : ℕ) (s : Slot)
    → lookup fd d.table ≡ some s
    → (s.ref == 0) ≡ false
    → KeepsGot d (get_slot d fd s)
unfolding get_slot
get_slot-KeepsGot d fd s e held = test s.freed
  where
    more : Slot
    more = record s { ref = s.ref + 1 }

    test :
        (b : Bool)
        → KeepsGot d (if b then dangling else got (record d { table = store fd more d.table }))
    test true = tt
    test false = λ n. unheld_same fd n more d.table (ap unheld e ∙ ground (arith, held))

pub xget-KeepsGot : (d : Descriptors) (fd : ℕ) → KeepsGot d (xget d fd)
unfolding xget
xget-KeepsGot d fd = elim (Bool-cases (leb max_descriptors fd)) [
  | inl far ↦ rw far tt
  | inr near ↦ rw near (go (lookup fd d.table) refl)
]
  where
    go :
        (o : Option Slot)
        → lookup fd d.table ≡ o
        → KeepsGot d (elim o [ none ↦ null | some s ↦ if s.ref == 0 then bug else get_slot d fd s ])
    go none e = tt
    go (some s) e = elim (Bool-cases (s.ref == 0)) [
      | inl z ↦ rw z tt
      | inr p ↦ rw p (get_slot-KeepsGot d fd s e p)
    ]

-- What is left of the two steps of `xput`: one that takes the last reference has the number closed.
abbrev pub KeepsPut : ℕ → List ℕ → Option (Descriptors × Bool) → Type 0
KeepsPut fd closing none = Unit {0}
KeepsPut fd closing (some (b, last)) =
    (n : ℕ) → count n (if last then fd ∷ closing else closing) ≡ unheld (lookup n b.table)

decr_step :
    (d : Descriptors) (fd : ℕ) (s : Slot)
    → lookup fd d.table ≡ some s
    → xput_decr d fd
      ≡ some (record d { table = store fd (record s { ref = s.ref - 1 }) d.table }, s.ref == 1)
unfolding xput_decr
decr_step d fd s e = rw (e, xput_decr) refl

pub xput_decr-KeepsPut :
    (a : Sockets) (fd : ℕ) (s : Slot)
    → IsSockets a
    → lookup fd a.xgb.table ≡ some s
    → 0 < s.ref
    → KeepsPut fd a.closing (xput_decr a.xgb fd)
xput_decr-KeepsPut a fd s v e pos =
    subst (KeepsPut fd a.closing) (sym step) (by_ref (s.ref == 1) refl)
  where
    less : Slot
    less = record s { ref = s.ref - 1 }

    step :
        xput_decr a.xgb fd ≡ some (record a.xgb { table = store fd less a.xgb.table }, s.ref == 1)
    step = decr_step a.xgb fd s e

    old : (n : ℕ) → (fd == n) ≡ true → unheld (lookup n a.xgb.table) ≡ 0
    old n here =
        let same : fd ≡ n = ground (arith, here) in
        subst (λ k. unheld (lookup k a.xgb.table) ≡ 0) same (ap unheld e ∙ ground (arith, pos))

    by_ref :
        (b : Bool)
        → (s.ref == 1) ≡ b
        → (n : ℕ)
        → count n (if b then fd ∷ a.closing else a.closing)
          ≡ unheld (lookup n (store fd less a.xgb.table))
    by_ref true one n = elim (Bool-cases (fd == n)) [
      | inl here ↦
          ground (arith, here, one, v.closed n, old n here, unheld-store fd n less a.xgb.table)
      | inr there ↦ ground (arith, there, v.closed n, unheld-store fd n less a.xgb.table)
    ]
    by_ref false more n =
        v.closed n
        ∙ sym (unheld_same fd n less a.xgb.table (ap unheld e ∙ ground (arith, more, pos)))

-- Who is counted among the closing ones is in the table.
there : (o : Option Slot) → 0 < unheld o → (s : Slot) × (o ≡ some s)
there none h = absurd (omega (arith, h))
there (some s) h = (s, refl)

xput_clear-closed :
    (a : Sockets) (fd : ℕ) (before after : List ℕ)
    → IsSockets a
    → a.closing ≡ before ++ fd ∷ after
    → (n : ℕ)
    → count n (before ++ after) ≡ unheld (lookup n (Descriptors.table (xput_clear a.xgb fd)))
unfolding xput_clear
xput_clear-closed a fd before after v e n = elim (Bool-cases (fd == n)) [
  | inl here ↦
      let same : fd ≡ n = ground (arith, here) in
      let gone : unheld (lookup n (clear fd a.xgb.table)) ≡ 0 =
        subst (λ k. unheld (lookup k (clear fd a.xgb.table)) ≡ 0) same
          (ap unheld (
            lookup-Fresh fd (clear fd a.xgb.table)
              (cleared-Fresh fd a.xgb.table v.table.distinct_keys))) in
      ground (
        arith,
        here,
        gone,
        total,
        v.closed n,
        most (lookup n a.xgb.table),
        count-append n before after,
      )
  | inr other ↦ ground (
    arith,
    other,
    total,
    v.closed n,
    count-append n before after,
    ap unheld (lookup-clear_ne fd n a.xgb.table other),
  )
]
  where
    total : count n a.closing ≡ count n before + count n (fd ∷ after)
    total = ap (count n) e ∙ count-append n before (fd ∷ after)

    most : (o : Option Slot) → unheld o < 2
    most none = omega arith
    most (some s) = ground arith

pub clears-IsSockets :
    (a : Sockets) (fd : ℕ) (before after : List ℕ)
    → IsSockets a
    → a.closing ≡ before ++ fd ∷ after
    → IsSockets (record { xgb = xput_clear a.xgb fd; closing = before ++ after })
clears-IsSockets a fd before after v e =
    let (s, found) = there (lookup fd a.xgb.table) counted in
    record {
      table = xput_clear-IsTable max_descriptors a.xgb fd s v.table found;
      closed = xput_clear-closed a fd before after v e;
    }
  where
    counted : 0 < unheld (lookup fd a.xgb.table)
    counted =
        let same : (fd == fd) ≡ true = ground arith in
        ground (arith, same, v.closed fd, ap (count fd) e, count-append fd before (fd ∷ after))

pub alloc-closed :
    (a : Sockets) (d : Descriptors) (fd : ℕ)
    → IsSockets a
    → lookup fd a.xgb.table ≡ none
    → d.table ≡ store fd (record { ref = 1; freed = false }) a.xgb.table
    → (n : ℕ) → count n a.closing ≡ unheld (lookup n d.table)
alloc-closed a d fd v free t n =
    v.closed n
    ∙ sym (
        ap (λ l. unheld (lookup n l)) t
        ∙ unheld_same fd n (record { ref = 1; freed = false }) a.xgb.table (ap unheld free))
