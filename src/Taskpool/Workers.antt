-- ===== src/Taskpool/Workers.antt =====
-- Threads that push, and workers that pop, run and sleep, in every order.
use proxyio.Base.{
  ℕ, suc, ◌+◌, ◌%◌, ◌^◌, ◌≡◌, refl, sym, ap, subst, ◌∙◌, Bool, true, false, not, ◌&&◌, ◌||◌, List,
  [], ◌∷◌, ◌++◌, Option, none, some, ◌==◌, if◌then◌else◌, length, length-append, append_assoc,
  arith,
}
use proxyio.Taskpool.{
  Taskpool, new_threads, taskpool_init, taskpool_push, pop_task, TaskPop, runs, sleeps, stops,
  task_pop, taskpool_pop, taskpool_start, taskpool_stop, broadcast,
}

-- The pool, its workers that sleep, and all tasks that were pushed and that were begun so far.
pub record Workers : Type 0 where
  pub tp : Taskpool
  pub sleeping : ℕ
  pub pushed : List ℕ
  pub begun : List ℕ

abbrev pub after_pop : Workers → TaskPop → Workers
after_pop w (runs tp te) = record w { tp = tp; begun = w.begun ++ te ∷ [] }
after_pop w sleeps = record w { sleeping = w.sleeping + 1 }
after_pop w stops = w

-- A sleeper may wake by itself.
pub data Step : Workers → Workers → Type 0 where
  pushes :
      {w : Workers} (te : ℕ) (tp : Taskpool) (sleeping : ℕ)
      → taskpool_push w.tp w.sleeping (some te) ≡ some (tp, sleeping)
      → Step w (record w { tp = tp; sleeping = sleeping; pushed = w.pushed ++ te ∷ [] })
  pops : {w : Workers} → Step w (after_pop w (taskpool_pop w.tp))
  wakes :
      {w : Workers} (sleeping : ℕ)
      → w.sleeping ≡ suc sleeping
      → Step w (record w { sleeping = sleeping })
  starts :
      {w : Workers} (tp : Taskpool) → taskpool_start w.tp ≡ some tp → Step w (record w { tp = tp })
  halts :
      {w : Workers} (tp : Taskpool) (sleeping : ℕ)
      → taskpool_stop w.tp w.sleeping ≡ some (tp, sleeping)
      → Step w (record w { tp = tp; sleeping = sleeping })

pub data Reachable : Workers → Type 0 where
  inits :
      (threads : List Bool) (tp : Taskpool)
      → taskpool_init true threads ≡ some tp
      → Reachable (record { tp = tp; sleeping = 0; pushed = []; begun = [] })
  goes : {a b : Workers} → Reachable a → Step a b → Reachable b

abbrev pub no_tasks : List ℕ → Bool
no_tasks [] = true
no_tasks (te ∷ tasks) = false

-- Each task is begun once and in the order of the pushes, the rest wait; the count is right; and no
-- worker sleeps while there is a task to run or the pool is stopping.
pub record IsFair (w : Workers) : Type 0 where
  pub order : w.begun ++ w.tp.task_head ≡ w.pushed
  pub count : w.tp.tasks ≡ length w.tp.task_head % 2 ^ 32
  pub awake : (w.sleeping == 0 || (no_tasks w.tp.task_head && not w.tp.stopping)) ≡ true

IsFair-pushes :
    (w : Workers) (te : ℕ) (tp : Taskpool) (sleeping : ℕ)
    → IsFair w
    → taskpool_push w.tp w.sleeping (some te) ≡ some (tp, sleeping)
    → IsFair (record w { tp = tp; sleeping = sleeping; pushed = w.pushed ++ te ∷ [] })
unfolding taskpool_push
IsFair-pushes w te tp sleeping v e = subst Goal e (record {
  order = sym (append_assoc w.begun w.tp.task_head (te ∷ [])) ∙ ap (λ l. l ++ te ∷ []) v.order;
  count = omega (arith, v.count, length-append w.tp.task_head (te ∷ []));
  awake = refl;
})
  where
    Goal : Option (Taskpool × ℕ) → Type 0
    Goal none = Unit {0}
    Goal (some (tp, sleeping)) =
        IsFair (record w { tp = tp; sleeping = sleeping; pushed = w.pushed ++ te ∷ [] })

IsFair-pops : (w : Workers) → IsFair w → IsFair (after_pop w (taskpool_pop w.tp))
unfolding taskpool_pop pop_task task_pop
IsFair-pops w v = go w.tp.stopping w.tp.task_head refl refl
  where
    go :
        (b : Bool) (l : List ℕ)
        → w.tp.stopping ≡ b
        → w.tp.task_head ≡ l
        → IsFair (after_pop w (if b then stops else task_pop (pop_task w.tp l)))
    go true l h k = v
    go false [] h k = record {
      order = v.order;
      count = v.count;
      awake = ground (arith, subst (λ l. no_tasks l ≡ true) (sym k) refl, h);
    }
    go false (te ∷ more) h k = record {
      order = append_assoc w.begun (te ∷ []) more ∙ ap (λ l. w.begun ++ l) (sym k) ∙ v.order;
      count = omega (arith, v.count, ap (length {A = ℕ}) k);
      awake = ground (
        arith,
        subst (λ l. (w.sleeping == 0 || (no_tasks l && not w.tp.stopping)) ≡ true) k v.awake,
      );
    }

IsFair-starts :
    (w : Workers) (tp : Taskpool)
    → IsFair w
    → taskpool_start w.tp ≡ some tp
    → IsFair (record w { tp = tp })
unfolding taskpool_start
IsFair-starts w tp v e = go w.tp.stopping refl e
  where
    Goal : Option Taskpool → Type 0
    Goal none = Unit {0}
    Goal (some tp) = IsFair (record w { tp = tp })

    go :
        (b : Bool)
        → w.tp.stopping ≡ b
        → (if b then some (record w.tp { stopping = false }) else none) ≡ some tp
        → IsFair (record w { tp = tp })
    go true h e =
        subst Goal e
          (record { order = v.order; count = v.count; awake = ground (arith, h, v.awake) })
    go false h e = absurd (cc)

IsFair-halts :
    (w : Workers) (tp : Taskpool) (sleeping : ℕ)
    → IsFair w
    → taskpool_stop w.tp w.sleeping ≡ some (tp, sleeping)
    → IsFair (record w { tp = tp; sleeping = sleeping })
unfolding taskpool_stop
IsFair-halts w tp sleeping v e = go w.tp.stopping e
  where
    Goal : Option (Taskpool × ℕ) → Type 0
    Goal none = Unit {0}
    Goal (some (tp, sleeping)) = IsFair (record w { tp = tp; sleeping = sleeping })

    stopped : Taskpool
    stopped = record w.tp { stopping = true }

    go :
        (b : Bool)
        → if◌then◌else◌ {A = Option (Taskpool × ℕ)} b none (some (stopped, broadcast w.sleeping))
          ≡ some (tp, sleeping)
        → IsFair (record w { tp = tp; sleeping = sleeping })
    go true e = absurd (cc)
    go false e = subst Goal e (record { order = v.order; count = v.count; awake = refl })

IsFair-wakes :
    (w : Workers) (sleeping : ℕ)
    → IsFair w
    → w.sleeping ≡ suc sleeping
    → IsFair (record w { sleeping = sleeping })
IsFair-wakes w sleeping v e = record {
  order = v.order;
  count = v.count;
  awake = ground (arith, v.awake, e);
}

IsFair-inits :
    (threads : List Bool) (tp : Taskpool)
    → taskpool_init true threads ≡ some tp
    → IsFair (record { tp = tp; sleeping = 0; pushed = []; begun = [] })
unfolding taskpool_init
IsFair-inits threads tp e = go (new_threads threads == 0) e
  where
    Goal : Option Taskpool → Type 0
    Goal none = Unit {0}
    Goal (some tp) = IsFair (record { tp = tp; sleeping = 0; pushed = []; begun = [] })

    go :
        (b : Bool)
        → (if b
            then none
            else some (record {
              stopping = true;
              tasks = 0;
              workers = new_threads threads;
              task_head = [];
            }))
          ≡ some tp
        → IsFair (record { tp = tp; sleeping = 0; pushed = []; begun = [] })
    go true e = absurd (cc)
    go false e = subst Goal e (record { order = refl; count = omega arith; awake = refl })

-- In every order of pushes, pops, starts and stops: the tasks begun are the first of those pushed, each
-- once and in their order, and the others wait in the queue, which `tasks` counts; and no worker sleeps
-- while a task waits or the pool is stopping.
pub taskpool-Reachable : (w : Workers) → Reachable w → IsFair w
taskpool-Reachable w (inits threads tp e) = IsFair-inits threads tp e
taskpool-Reachable w (goes {a = a} r (pushes te tp sleeping e)) =
    IsFair-pushes a te tp sleeping (taskpool-Reachable a r) e
taskpool-Reachable w (goes {a = a} r pops) = IsFair-pops a (taskpool-Reachable a r)
taskpool-Reachable w (goes {a = a} r (wakes sleeping e)) =
    IsFair-wakes a sleeping (taskpool-Reachable a r) e
taskpool-Reachable w (goes {a = a} r (starts tp e)) = IsFair-starts a tp (taskpool-Reachable a r) e
taskpool-Reachable w (goes {a = a} r (halts tp sleeping e)) =
    IsFair-halts a tp sleeping (taskpool-Reachable a r) e
