-- ===== src/Mstats.antt =====
-- src/utils/mstats_base.c and mstats_base.h: counters per key and per period of time. An `i64` is a bit
-- pattern, and so is a `val`, widened; `keys[..][sl][key]` is a function of the key.
pub mod Totals
use proxyio.Base.{
  ℕ, zero, suc, ◌+◌, ◌-◌, ◌%◌, ◌^◌, Bool, true, false, not, ◌&&◌, ◌||◌, List, [], ◌∷◌, ◌++◌, map,
  ltb, ◌==◌, if◌then◌else◌,
}

abbrev pub add_i64 : ℕ → ℕ → ℕ
add_i64 a b = (a + b) % 2 ^ 64

abbrev pub sub_i64 : ℕ → ℕ → ℕ
sub_i64 a b = (a + 2 ^ 64 - b) % 2 ^ 64

abbrev pub less_i64 : ℕ → ℕ → Bool
less_i64 a b = ltb ((a + 2 ^ 63) % 2 ^ 64) ((b + 2 ^ 63) % 2 ^ 64)

-- `MST_NOW`, `MST_LAST`, `MST_MIN`, `MST_MAX` and `MST_AVG` of one key in one period, and its counter.
pub record Stat : Type 0 where
  pub now : ℕ
  pub last : ℕ
  pub min_val : ℕ
  pub max_val : ℕ
  pub avg_val : ℕ
  pub counter : ℕ

-- One of the five periods. `warns` is whether `f[sl]` is set.
pub record Period : Type 0 where
  pub level : ℕ
  pub timestamp : ℕ
  pub trigger_counter : ℕ
  pub warns : Bool
  pub thres : ℕ → ℕ
  pub keys : ℕ → Stat

-- `total` is `MSL_A`, `periods` are the others.
pub record MstatsBase : Type 0 where
  pub kr : ℕ
  pub total : Period
  pub periods : List Period

unfoldable pub stat_incr : Stat → ℕ → Stat
stat_incr s val = record s {
  now = add_i64 s.now val;
  counter = add_i64 s.counter 1;
  min_val = if s.min_val == 0 || less_i64 val s.min_val then val else s.min_val;
  max_val = if s.max_val == 0 || less_i64 s.max_val val then val else s.max_val;
}

-- For a key below `kr`; the source writes behind the counters of the period for any other.
unfoldable pub period_incr : ℕ → ℕ → Period → Period
period_incr key val p = record p {
  keys = λ k. if k == key then stat_incr (p.keys k) val else p.keys k;
}

unfoldable pub mstats_base_incrs : MstatsBase → ℕ → ℕ → MstatsBase
mstats_base_incrs stb key val = record stb {
  total = period_incr key val stb.total;
  periods = map (period_incr key val) stb.periods;
}

unfoldable pub mstats_base_incr : MstatsBase → ℕ → MstatsBase
mstats_base_incr stb key = mstats_base_incrs stb key 1

-- A call of `f[sl]`.
pub record Warning : Type 0 where
  pub key : ℕ
  pub thres : ℕ
  pub val : ℕ
  pub min_val : ℕ
  pub max_val : ℕ
  pub avg_val : ℕ

unfoldable pub warning : Period → ℕ → List Warning
warning p key =
    let s = p.keys key in
    if p.warns && less_i64 (p.thres key) s.now
    then record {
      key = key;
      thres = p.thres key;
      val = s.now;
      min_val = s.min_val;
      max_val = s.max_val;
      avg_val = s.avg_val;
    }
      ∷ []
    else []

-- The warnings of the first keys.
unfoldable pub warnings : Period → ℕ → List Warning
warnings p zero = []
warnings p (suc key) = warnings p key ++ warning p key

unfoldable pub is_over : Period → ℕ → Bool
is_over p nowtime = less_i64 p.level (sub_i64 nowtime p.timestamp)

unfoldable pub turn_over : ℕ → ℕ → Period → Period
turn_over kr nowtime p = record p {
  timestamp = nowtime;
  trigger_counter = add_i64 p.trigger_counter 1;
  keys =
      λ k. if ltb k kr then record (p.keys k) { last = Stat.now (p.keys k); now = 0 } else p.keys k;
}

unfoldable pub trigger_one : ℕ → ℕ → Period → Period × List Warning
trigger_one kr nowtime p =
    if is_over p nowtime then (turn_over kr nowtime p, warnings p kr) else (p, [])

unfoldable pub trigger_all : ℕ → ℕ → List Period → List Period × List Warning
trigger_all kr nowtime [] = ([], [])
trigger_all kr nowtime (p ∷ ps) =
    let (p', w) = trigger_one kr nowtime p in
    let (ps', ws) = trigger_all kr nowtime ps in (p' ∷ ps', w ++ ws)

-- `mstats_base_emit`: every period but `MSL_A`.
unfoldable pub mstats_base_emit : MstatsBase → ℕ → MstatsBase × List Warning
mstats_base_emit ms timestamp =
    let (ps, ws) = trigger_all ms.kr timestamp ms.periods in (record ms { periods = ps }, ws)
