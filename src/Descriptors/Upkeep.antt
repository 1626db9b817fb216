-- ===== src/Descriptors/Upkeep.antt =====
-- What each operation on a table of descriptors leaves is a table again.
use proxyio.Base.{
  ℕ, zero, suc, ◌+◌, ◌-◌, ◌<◌, ◌≡◌, refl, sym, ap, subst, inl, inr, Bool, true, false, List, [],
  ◌∷◌, Option, none, some, ◌==◌, leb, if◌then◌else◌, Bool-cases, length, arith,
}
use proxyio.Descriptors.{
  Slot, Descriptors, numbers, descriptors_init, lookup, clear, store, alloc, Got, null, got,
  dangling, bug, outside, get_slot, xget, push_unused, xput_decr, xput_clear, max_descriptors,
}
use proxyio.Descriptors.Numbers.{
  Fresh, Distinct, Apart, keys, IsTable, Apart-clear, Distinct-clear, cleared-Fresh, held-clear,
  lookup-Fresh, lookup_held, length-clear, clear-Fresh, used-Fresh, Apart-cons,
}

alloc_step :
    (max : ℕ) (d : Descriptors) (fd : ℕ) (fds : List ℕ)
    → leb max d.nused ≡ false
    → d.unused ≡ fd ∷ fds
    → alloc max 1 d
      ≡ some (
        record d {
          nused = d.nused + 1;
          unused = fds;
          table = store fd (record { ref = 1; freed = false }) d.table;
        },
        fd,
      )
unfolding alloc
alloc_step max d fd fds e f = rw (e, f) refl

pub alloc_full : (max : ℕ) (d : Descriptors) → leb max d.nused ≡ true → alloc max 1 d ≡ none
unfolding alloc
alloc_full max d full = rw full refl

numbers-Fresh : (x first n : ℕ) → x < first → Fresh x (numbers first n)
unfolding numbers
numbers-Fresh x first zero h = tt
numbers-Fresh x first (suc n) h =
    (ground (arith, h), numbers-Fresh x (suc first) n (omega (arith, h)))

numbers-Distinct : (first n : ℕ) → Distinct (numbers first n)
unfolding numbers
numbers-Distinct first zero = tt
numbers-Distinct first (suc n) =
    (numbers-Fresh first (suc first) n (omega arith), numbers-Distinct (suc first) n)

length-numbers : (first n : ℕ) → length (numbers first n) ≡ n
unfolding numbers
length-numbers first zero = refl
length-numbers first (suc n) = omega (arith, length-numbers (suc first) n)

Apart-nil : (us : List ℕ) → Apart us []
Apart-nil [] = tt
Apart-nil (u ∷ us) = (tt, Apart-nil us)

pub init-IsTable : (max : ℕ) → IsTable max (descriptors_init max)
unfolding descriptors_init
init-IsTable max = record {
  held = tt;
  distinct_keys = tt;
  distinct_unused = numbers-Distinct 0 max;
  apart = Apart-nil (numbers 0 max);
  used = refl;
  all = omega (arith, length-numbers 0 max);
}

-- A socket gets a number that no open socket has; it fails only if all are in use.
pub alloc-IsTable :
    (max : ℕ) (d : Descriptors)
    → IsTable max d
    → d.nused < max
    → (d' : Descriptors) × (fd : ℕ) × (alloc max 1 d ≡ some (d', fd))
      × (lookup fd d.table ≡ none)
      × IsTable max d'
      × (d'.table ≡ store fd (record { ref = 1; freed = false }) d.table)
unfolding store
alloc-IsTable max d v room = go d.unused refl
  where
    go :
        (us : List ℕ)
        → d.unused ≡ us
        → (d' : Descriptors) × (fd : ℕ) × (alloc max 1 d ≡ some (d', fd))
          × (lookup fd d.table ≡ none)
          × IsTable max d'
          × (d'.table ≡ store fd (record { ref = 1; freed = false }) d.table)
    go [] e = absurd (omega (arith, v.all, room, ap length e))
    go (fd ∷ fds) e =
        let apart : Apart (fd ∷ fds) (keys d.table) =
          subst (λ us. Apart us (keys d.table)) e v.apart in
        let distinct : Distinct (fd ∷ fds) = subst Distinct e v.distinct_unused in
        (
          _,
          fd,
          alloc_step max d fd fds (ground (arith, room)) e,
          lookup-Fresh fd d.table apart.0,
          record {
            held = (refl, held-clear fd d.table v.held);
            distinct_keys = (
              cleared-Fresh fd d.table v.distinct_keys,
              Distinct-clear fd d.table v.distinct_keys,
            );
            distinct_unused = distinct.1;
            apart =
                Apart-cons fd fds (keys (clear fd d.table)) (Apart-clear fd fds d.table apart.1)
                  distinct.0;
            used = omega (arith, v.used, ap length (clear-Fresh fd d.table apart.0));
            all = omega (arith, v.all, ap length e);
          },
          refl,
        )

-- The count of an open socket changes.
store-IsTable :
    (max : ℕ) (d : Descriptors) (fd : ℕ) (s s' : Slot)
    → IsTable max d
    → lookup fd d.table ≡ some s
    → s'.freed ≡ false
    → IsTable max (record d { table = store fd s' d.table })
unfolding store
store-IsTable max d fd s s' v e kept = record {
  held = (kept, held-clear fd d.table v.held);
  distinct_keys =
      (cleared-Fresh fd d.table v.distinct_keys, Distinct-clear fd d.table v.distinct_keys);
  distinct_unused = v.distinct_unused;
  apart =
      Apart-cons fd d.unused (keys (clear fd d.table)) (Apart-clear fd d.unused d.table v.apart)
        (used-Fresh fd d.unused d.table s v.apart e);
  used = omega (arith, v.used, length-clear fd d.table s e);
  all = v.all;
}

-- The last reference follows.
push-IsTable :
    (max : ℕ) (d : Descriptors) (fd : ℕ) (s : Slot)
    → IsTable max d
    → lookup fd d.table ≡ some s
    → IsTable max (push_unused d fd (clear fd d.table))
push-IsTable max d fd s v e = record {
  held = held-clear fd d.table v.held;
  distinct_keys = Distinct-clear fd d.table v.distinct_keys;
  distinct_unused = (used-Fresh fd d.unused d.table s v.apart e, v.distinct_unused);
  apart = (cleared-Fresh fd d.table v.distinct_keys, Apart-clear fd d.unused d.table v.apart);
  used = omega (arith, v.used, length-clear fd d.table s e);
  all = omega (arith, v.all, v.used, length-clear fd d.table s e);
}

-- What an operation leaves is a table again, and it neither aborts nor reads freed memory.
abbrev pub Holds {ℓ} : {A : Type ℓ} → ℕ → Option (Descriptors × A) → Type 0
Holds max none = Unit {0}
Holds max (some (d, a)) = IsTable max d

abbrev pub HoldsGot : ℕ → Got → Type 0
HoldsGot max null = Unit {0}
HoldsGot max (got d) = IsTable max d
HoldsGot max bug = Unit {0}
HoldsGot max outside = Unit {0}
HoldsGot max dangling = ⊥

pub xput_decr-Holds :
    (max : ℕ) (d : Descriptors) (fd : ℕ) → IsTable max d → Holds max (xput_decr d fd)
unfolding xput_decr
xput_decr-Holds max d fd v = go (lookup fd d.table) refl
  where
    go :
        (o : Option Slot)
        → lookup fd d.table ≡ o
        → Holds max (elim o [
          | none ↦ none
          | some s ↦
              some
                (record d { table = store fd (record s { ref = s.ref - 1 }) d.table }, s.ref == 1)
        ])
    go none e = tt
    go (some s) e =
        store-IsTable max d fd s (record s { ref = s.ref - 1 }) v e
          (lookup_held fd d.table s v.held e)

pub xput_clear-IsTable :
    (max : ℕ) (d : Descriptors) (fd : ℕ) (s : Slot)
    → IsTable max d
    → lookup fd d.table ≡ some s
    → IsTable max (xput_clear d fd)
unfolding xput_clear
xput_clear-IsTable max d fd s v e = push-IsTable max d fd s v e

get_slot-HoldsGot :
    (max : ℕ) (d : Descriptors) (fd : ℕ) (s : Slot)
    → IsTable max d
    → lookup fd d.table ≡ some s
    → s.freed ≡ false
    → HoldsGot max (get_slot d fd s)
unfolding get_slot
get_slot-HoldsGot max d fd s v e h =
    let more : Slot = record s { ref = s.ref + 1 } in
    subst
      (λ b. HoldsGot max (if b then dangling else got (record d { table = store fd more d.table })))
      (sym h) (store-IsTable max d fd s more v e h)

pub xget-HoldsGot : (max : ℕ) (d : Descriptors) (fd : ℕ) → IsTable max d → HoldsGot max (xget d fd)
unfolding xget
xget-HoldsGot max d fd v = elim (Bool-cases (leb max_descriptors fd)) [
  | inl far ↦ rw far tt
  | inr near ↦ rw near (go (lookup fd d.table) refl)
]
  where
    test : (b : Bool) (r : Got) → HoldsGot max r → HoldsGot max (if b then bug else r)
    test true r h = tt
    test false r h = h

    go :
        (o : Option Slot)
        → lookup fd d.table ≡ o
        → HoldsGot max
            (elim o [ none ↦ null | some s ↦ if s.ref == 0 then bug else get_slot d fd s ])
    go none e = tt
    go (some s) e =
        test (s.ref == 0) (get_slot d fd s)
          (get_slot-HoldsGot max d fd s v e (lookup_held fd d.table s v.held e))
