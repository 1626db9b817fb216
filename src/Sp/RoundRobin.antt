-- ===== src/Sp/RoundRobin.antt =====
-- src/sp/reqrep/lbs_rrbin.c: the weighted round robin that picks the target of a request, and
-- `set_rrbin_weight` of req_ep.c. A target is named by its socket. A weight is an `int`.
pub mod Fairness
use proxyio.Base.{ℕ, zero, suc, List, [], ◌∷◌, ◌++◌, Option, none, some, ◌==◌, if◌then◌else◌}
use proxyio.MsgbufHead.{sub_int, is_positive}

pub record RrbinEntry : Type 0 where
  pub tg : ℕ
  pub origin_weight : ℕ
  pub current_weight : ℕ

-- The first target; when its turns are used up it gets them back and moves to the tail.
unfoldable pub weight_rrbin_select : List RrbinEntry → List RrbinEntry × Option ℕ
weight_rrbin_select [] = ([], none)
weight_rrbin_select (e ∷ es) =
    let w = sub_int e.current_weight 1 in
    (
      if is_positive w
          then record e { current_weight = w } ∷ es
          else es ++ record e { current_weight = e.origin_weight } ∷ [],
      some e.tg,
    )

unfoldable pub weight_rrbin_add : List RrbinEntry → ℕ → List RrbinEntry
weight_rrbin_add es tg = es ++ record { tg = tg; origin_weight = 1; current_weight = 1 } ∷ []

unfoldable pub weight_rrbin_rm : List RrbinEntry → ℕ → List RrbinEntry
weight_rrbin_rm [] tg = []
weight_rrbin_rm (e ∷ es) tg =
    let rest = weight_rrbin_rm es tg in if e.tg == tg then es else e ∷ rest

-- The new weight counts from the next time that the target moves to the tail.
unfoldable pub set_rrbin_weight : List RrbinEntry → ℕ → ℕ → List RrbinEntry
set_rrbin_weight [] tg weight = []
set_rrbin_weight (e ∷ es) tg weight =
    let rest = set_rrbin_weight es tg weight in
    if e.tg == tg then record e { origin_weight = weight } ∷ es else e ∷ rest

-- The targets of so many requests in a row.
abbrev pub select_times : ℕ → List RrbinEntry → List RrbinEntry × List (Option ℕ)
select_times zero es = (es, [])
select_times (suc n) es =
    let (es', tg) = weight_rrbin_select es in
    let (es'', tgs) = select_times n es' in (es'', tg ∷ tgs)
