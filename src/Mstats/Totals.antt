-- ===== src/Mstats/Totals.antt =====
-- What is counted in a period, over any sequence of counts and turns.
use proxyio.Base.{
  ℕ, zero, suc, ◌+◌, ◌%◌, ◌^◌, ◌<◌, ◌≡◌, refl, ap, ◌∙◌, List, [], ◌∷◌, Option, none, some,
  get_elem?, map, ◌==◌, if◌then◌else◌, arith,
}
use proxyio.Mstats.{
  Stat, Period, MstatsBase, stat_incr, period_incr, mstats_base_incrs, is_over, turn_over,
  trigger_one, trigger_all, mstats_base_emit,
}

-- A call of `mstats_base_incrs` or of `mstats_base_emit`.
pub data Call : Type 0 where
  counts : ℕ → ℕ → Call
  emits : ℕ → Call

-- Only keys that there are counters for are counted.
abbrev pub AreKeys : ℕ → List Call → Type 0
AreKeys kr [] = Unit {0}
AreKeys kr (counts key val ∷ cs) = (key < kr) × AreKeys kr cs
AreKeys kr (emits nowtime ∷ cs) = AreKeys kr cs

-- The two of them at one period.
abbrev pub at_period : ℕ → Call → Period → Period
at_period kr (counts key val) p = period_incr key val p
at_period kr (emits nowtime) p = (trigger_one kr nowtime p).0

-- What a call moves out of `MST_NOW`, into `MST_LAST`.
abbrev pub moved : ℕ → ℕ → Call → Period → ℕ
moved kr key (counts k val) p = 0
moved kr key (emits nowtime) p =
    if is_over p nowtime then Stat.last ((at_period kr (emits nowtime) p).keys key) else 0

abbrev pub calls : ℕ → List Call → Period → Period
calls kr [] p = p
calls kr (c ∷ cs) p = calls kr cs (at_period kr c p)

abbrev pub all_moved : ℕ → ℕ → List Call → Period → ℕ
all_moved kr key [] p = 0
all_moved kr key (c ∷ cs) p = moved kr key c p + all_moved kr key cs (at_period kr c p)

abbrev pub counted : ℕ → Call → ℕ
counted key (counts k val) = if key == k then val else 0
counted key (emits nowtime) = 0

abbrev pub all_counted : ℕ → List Call → ℕ
all_counted key [] = 0
all_counted key (c ∷ cs) = counted key c + all_counted key cs

one_call :
    (kr key : ℕ) (c : Call) (p : Period)
    → key < kr
    → (Stat.now ((at_period kr c p).keys key) + moved kr key c p) % 2 ^ 64
      ≡ (Stat.now (p.keys key) + counted key c) % 2 ^ 64
unfolding period_incr stat_incr trigger_one turn_over
one_call kr key (counts k val) p h = ground arith
one_call kr key (emits nowtime) p h = ground (arith, h)

-- What stands in `MST_NOW` at the end and what each turn moved to `MST_LAST` add up to what stood there
-- before and all that was counted.
calls_lem :
    (kr key : ℕ) (cs : List Call) (p : Period)
    → key < kr
    → (Stat.now ((calls kr cs p).keys key) + all_moved kr key cs p) % 2 ^ 64
      ≡ (Stat.now (p.keys key) + all_counted key cs) % 2 ^ 64
calls_lem kr key [] p h = refl
calls_lem kr key (c ∷ cs) p h =
    omega (arith, one_call kr key c p h, calls_lem kr key cs (at_period kr c p) h)

-- The calls on all periods.
abbrev pub base_call : Call → MstatsBase → MstatsBase
base_call (counts key val) stb = mstats_base_incrs stb key val
base_call (emits nowtime) stb = (mstats_base_emit stb nowtime).0

abbrev pub base_calls : List Call → MstatsBase → MstatsBase
base_calls [] stb = stb
base_calls (c ∷ cs) stb = base_calls cs (base_call c stb)

trigger_all-at_period :
    (kr nowtime : ℕ) (ps : List Period)
    → (trigger_all kr nowtime ps).0 ≡ map (at_period kr (emits nowtime)) ps
unfolding trigger_all
trigger_all-at_period kr nowtime [] = refl
trigger_all-at_period kr nowtime (p ∷ ps) =
    ap (λ l. (trigger_one kr nowtime p).0 ∷ l) (trigger_all-at_period kr nowtime ps)

base_call_periods :
    (c : Call) (stb : MstatsBase) → (base_call c stb).periods ≡ map (at_period stb.kr c) stb.periods
unfolding mstats_base_incrs mstats_base_emit
base_call_periods (counts key val) stb = refl
base_call_periods (emits nowtime) stb = trigger_all-at_period stb.kr nowtime stb.periods

base_call_kr : (c : Call) (stb : MstatsBase) → (base_call c stb).kr ≡ stb.kr
unfolding mstats_base_incrs mstats_base_emit
base_call_kr (counts key val) stb = refl
base_call_kr (emits nowtime) stb = refl

base_call_total :
    (key : ℕ) (c : Call) (stb : MstatsBase)
    → Stat.now ((base_call c stb).total.keys key) % 2 ^ 64
      ≡ (Stat.now (stb.total.keys key) + counted key c) % 2 ^ 64
unfolding mstats_base_incrs mstats_base_emit period_incr stat_incr
base_call_total key (counts k val) stb = ground arith
base_call_total key (emits nowtime) stb = omega arith

total_lem :
    (key : ℕ) (cs : List Call) (stb : MstatsBase)
    → Stat.now ((base_calls cs stb).total.keys key) % 2 ^ 64
      ≡ (Stat.now (stb.total.keys key) + all_counted key cs) % 2 ^ 64
total_lem key [] stb = omega arith
total_lem key (c ∷ cs) stb =
    omega (arith, base_call_total key c stb, total_lem key cs (base_call c stb))

get_elem?-map :
    (f : Period → Period) (ps : List Period) (i : ℕ) (p : Period)
    → get_elem? ps i ≡ some p
    → get_elem? (map f ps) i ≡ some (f p)
get_elem?-map f [] i p h = absurd (cc)
get_elem?-map f (q ∷ ps) zero p h = ap f_some h
  where
    f_some : Option Period → Option Period
    f_some none = none
    f_some (some q) = some (f q)
get_elem?-map f (q ∷ ps) (suc i) p h = get_elem?-map f ps i p h

period_at :
    (cs : List Call) (stb : MstatsBase) (i : ℕ) (p : Period)
    → get_elem? stb.periods i ≡ some p
    → get_elem? (base_calls cs stb).periods i ≡ some (calls stb.kr cs p)
period_at [] stb i p h = h
period_at (c ∷ cs) stb i p h =
    period_at cs (base_call c stb) i (at_period stb.kr c p) (
      ap (λ l. get_elem? l i) (base_call_periods c stb)
      ∙ get_elem?-map (at_period stb.kr c) stb.periods i p h)
    ∙ ap (λ n. some (calls n cs (at_period stb.kr c p))) (base_call_kr c stb)

-- After any sequence of counts, of keys below `kr`, and turns, modulo 2^64: what a period has counted since its last turn,
-- with all that its turns moved to `MST_LAST`, is what it had before with what the total has grown by.
pub mstats_base_incrs-mstats_base_emit :
    (cs : List Call) (stb : MstatsBase) (key i : ℕ) (p : Period)
    → AreKeys stb.kr cs
    → key < stb.kr
    → get_elem? stb.periods i ≡ some p
    → (p' : Period) × (get_elem? (base_calls cs stb).periods i ≡ some p')
      × ((Stat.now (p'.keys key) + all_moved stb.kr key cs p + Stat.now (stb.total.keys key))
            % 2 ^ 64
          ≡ (Stat.now (p.keys key) + Stat.now ((base_calls cs stb).total.keys key)) % 2 ^ 64)
mstats_base_incrs-mstats_base_emit cs stb key i p ks h e = (
  calls stb.kr cs p,
  period_at cs stb i p e,
  omega (arith, calls_lem stb.kr key cs p h, total_lem key cs stb),
)
