-- ===== src/Taskpool.antt =====
-- src/utils/taskpool.c and taskpool.h: a queue of tasks and the workers that run them. Each operation
-- holds the mutex; a task is named by its address, and so is what `mem_zalloc` gives.
pub mod Workers
use proxyio.Base.{
  ℕ, zero, suc, ◌+◌, ◌^◌, Bool, true, false, not, ◌||◌, List, [], ◌∷◌, ◌++◌, Option, none, some,
  ltb, ◌==◌, if◌then◌else◌,
}
use proxyio.MsgbufHead.{add_int, sub_int, is_positive}

pub record Taskpool : Type 0 where
  pub stopping : Bool
  pub tasks : ℕ
  pub workers : ℕ
  pub task_head : List ℕ

-- The threads that `thread_new` gives, one answer for each worker.
unfoldable pub new_threads : List Bool → ℕ
new_threads [] = 0
new_threads (true ∷ more) = 1 + new_threads more
new_threads (false ∷ more) = new_threads more

-- `has_memory` is whether the array of threads is to be had; `none` is -1.
unfoldable pub taskpool_init : Bool → List Bool → Option Taskpool
taskpool_init has_memory threads =
    if has_memory
    then if new_threads threads == 0
      then none
      else some
          (record { stopping = true; tasks = 0; workers = new_threads threads; task_head = [] })
    else none

-- `condition_broadcast`: so many workers sleep after it.
abbrev pub broadcast : ℕ → ℕ
broadcast sleeping = 0

-- With so many workers that sleep. Without memory for the task it returns -1, and nobody is woken.
unfoldable pub taskpool_push : Taskpool → ℕ → Option ℕ → Option (Taskpool × ℕ)
taskpool_push tp sleeping none = none
taskpool_push tp sleeping (some te) = some (
  record tp { task_head = tp.task_head ++ te ∷ []; tasks = add_int tp.tasks 1 },
  broadcast sleeping,
)

unfoldable pub pop_task : Taskpool → List ℕ → Taskpool × Option ℕ
pop_task tp [] = (tp, none)
pop_task tp (te ∷ more) = (record tp { task_head = more; tasks = sub_int tp.tasks 1 }, some te)

-- A worker gets a task, or goes to sleep, or finds the pool stopping.
pub data TaskPop : Type 0 where
  runs : Taskpool → ℕ → TaskPop
  sleeps : TaskPop
  stops : TaskPop

unfoldable pub task_pop : Taskpool × Option ℕ → TaskPop
task_pop (tp, none) = sleeps
task_pop (tp, some te) = runs tp te

unfoldable pub taskpool_pop : Taskpool → TaskPop
taskpool_pop tp = if tp.stopping then stops else task_pop (pop_task tp tp.task_head)

-- `none` is -1.
unfoldable pub taskpool_start : Taskpool → Option Taskpool
taskpool_start tp = if tp.stopping then some (record tp { stopping = false }) else none

unfoldable pub taskpool_stop : Taskpool → ℕ → Option (Taskpool × ℕ)
taskpool_stop tp sleeping =
    if tp.stopping then none else some (record tp { stopping = true }, broadcast sleeping)
