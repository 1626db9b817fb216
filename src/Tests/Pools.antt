-- ===== src/Tests/Pools.antt =====
-- The task pool, the statistics and the options at concrete inputs.
use proxyio.Base.{
  ℕ, ◌+◌, ◌%◌, ◌^◌, ◌≡◌, refl, true, false, List, [], ◌∷◌, Option, none, some, get_elem?, arith,
}
use proxyio.Socket.{sockbase_init, xconnector}
use proxyio.Taskpool.{new_threads, taskpool_init, taskpool_push}
use proxyio.Taskpool.Workers.{Workers, inits, goes, pushes, Reachable, IsFair, taskpool-Reachable}
use proxyio.Mstats.{Stat, Period, MstatsBase}
use proxyio.Mstats.Totals.{
  Call, counts, emits, base_calls, all_moved, mstats_base_incrs-mstats_base_emit,
}
use proxyio.Sp.Endpoint.Options.{opt_vfptr}
use proxyio.Sockopt.{Optsock, RexSo, done, sio_setopt, set_verbose, sio, xgetopt, xsetopt}
use proxyio.Sockopt.RoundTrip.{kept, xgetopt-xsetopt}

-- A task waits in a pool of one worker.
abbrev one_task : Workers
one_task = record {
  tp = record { stopping = true; tasks = 1; workers = 1; task_head = 7 ∷ [] };
  sleeping = 0;
  pushed = 7 ∷ [];
  begun = [];
}

one_task-Reachable : Reachable one_task
unfolding taskpool_push taskpool_init new_threads
one_task-Reachable =
    goes
      (inits (true ∷ []) (record { stopping = true; tasks = 0; workers = 1; task_head = [] }) refl)
      (pushes 7 one_task.tp 0 refl)

taskpool-Reachable_example : IsFair one_task
taskpool-Reachable_example = taskpool-Reachable one_task one_task-Reachable

abbrev nothing : Stat
nothing = record { now = 0; last = 0; min_val = 0; max_val = 0; avg_val = 0; counter = 0 }

abbrev period : ℕ → Period
period level = record {
  level = level;
  timestamp = 0;
  trigger_counter = 0;
  warns = false;
  thres = λ key. 0;
  keys = λ key. nothing;
}

abbrev stats : MstatsBase
stats = record { kr = 2; total = period 0; periods = period 1000 ∷ [] }

-- The second passes between the two counts.
abbrev history : List Call
history = counts 1 5 ∷ emits 2000 ∷ counts 1 6 ∷ []

mstats_base_incrs-mstats_base_emit_example :
    (p' : Period) × (get_elem? (base_calls history stats).periods 0 ≡ some p')
    × ((Stat.now (p'.keys 1) + all_moved 2 1 history (period 1000) + 0) % 2 ^ 64
        ≡ (0 + Stat.now ((base_calls history stats).total.keys 1)) % 2 ^ 64)
mstats_base_incrs-mstats_base_emit_example =
    mstats_base_incrs-mstats_base_emit history stats 1 0 (period 1000)
      (omega arith, (omega arith, tt)) (omega arith) refl

abbrev no_getopt : ℕ → RexSo → Option ℕ
no_getopt s so = none

abbrev no_setopt : ℕ → RexSo → ℕ → Option ℕ
no_setopt s so val = none

abbrev sock : Optsock ℕ
sock = record { base = sockbase_init xconnector 3; pf = 1; verbose = 0; s = 0 }

verbose_set : xsetopt no_getopt no_setopt sio (some sock) 9 21 ≡ done (record sock { verbose = 5 })
unfolding xsetopt sio_setopt opt_vfptr set_verbose
verbose_set = refl

xgetopt-xsetopt_example :
    xgetopt no_getopt no_setopt sio (some (record sock { verbose = 5 })) 9 ≡ done (kept 9 21)
xgetopt-xsetopt_example =
    xgetopt-xsetopt no_getopt no_setopt sio sock (record sock { verbose = 5 }) 9 21 refl verbose_set
