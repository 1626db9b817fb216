-- ===== src/Ev.antt =====
-- src/ev/ev.c and ev_epoll.c: the event loops and their sets of descriptors, which any thread changes by
-- a task and the loop's own handlers directly. `epoll_ctl` is the kernel's, a parameter.
pub mod Efd
pub mod Signal
pub mod Watching
pub mod Tasks
pub mod Choosing
use proxyio.Base.{
  ℕ, zero, suc, ◌+◌, ◌%◌, Bool, true, false, not, ◌||◌, List, [], ◌∷◌, ◌++◌, Option, none, some,
  ◌==◌, if◌then◌else◌,
}
use proxyio.MsgbufHead.{add_int, sub_int, less_int}

pub record Interest : Type 0 where
  pub ev_read : Bool
  pub ev_write : Bool

pub record Fdd : Type 0 where
  pub fd : ℕ
  pub events : Interest

-- `id` is the address. The `fdd` is in the list of the eventpoll while its `item` is linked.
pub record EvFd : Type 0 where
  pub id : ℕ
  pub fdd : Fdd
  pub fd : ℕ
  pub events : Interest

pub data EpollOp : Type 0 where
  epoll_add epoll_del epoll_mod : EpollOp

-- What `epoll_ctl` answers: an `errno`, or 0 and the kernel's set after it.
pub data CtlAnswer (K : Type 0) : Type 0 where
  refused : ℕ → CtlAnswer K
  accepted : K → CtlAnswer K

-- `fds` are the descriptors that are linked, the last one added last.
pub record Eventpoll (K : Type 0) : Type 0 where
  pub kernel : K
  pub fds : List ℕ

pub record EvFdset (K : Type 0) : Type 0 where
  pub fd_size : ℕ
  pub eventpoll : Eventpoll K

-- The end of a call: a BUG_ON, or an `errno` with -1, or 0.
pub data Ctl {ℓ} (A : Type ℓ) : Type ℓ where
  bug : Ctl A
  fails : ℕ → A → Ctl A
  done : A → Ctl A

abbrev pub FdsCtlOp : Type 0 → Type 0
FdsCtlOp K = EvFdset K → EvFd → Ctl (EvFdset K × EvFd)

abbrev pub einval : ℕ
einval = 22

abbrev pub is_linked : ℕ → List ℕ → Bool
is_linked id [] = false
is_linked id (x ∷ fds) = (x == id) || is_linked id fds

abbrev pub list_del_init : ℕ → List ℕ → List ℕ
list_del_init id [] = []
list_del_init id (x ∷ fds) = let rest = list_del_init id fds in if x == id then fds else x ∷ rest

module _ {K : Type 0} (epoll_ctl : K → EpollOp → Fdd → CtlAnswer K) where
  unfoldable pub eventpoll_add : Eventpoll K → ℕ → Fdd → Ctl (Eventpoll K)
  eventpoll_add evp id fdd =
      if is_linked id evp.fds then bug else elim (epoll_ctl evp.kernel epoll_add fdd) [
        | accepted k ↦ done (record { kernel = k; fds = evp.fds ++ id ∷ [] })
        | refused errno ↦ fails errno evp
      ]

  unfoldable pub eventpoll_del : Eventpoll K → ℕ → Fdd → Ctl (Eventpoll K)
  eventpoll_del evp id fdd =
      if not (is_linked id evp.fds) then bug else elim (epoll_ctl evp.kernel epoll_del fdd) [
        | accepted k ↦ done (record { kernel = k; fds = list_del_init id evp.fds })
        | refused errno ↦ fails errno evp
      ]

  unfoldable pub eventpoll_mod : Eventpoll K → ℕ → Fdd → Ctl (Eventpoll K)
  eventpoll_mod evp id fdd =
      if not (is_linked id evp.fds) then bug else elim (epoll_ctl evp.kernel epoll_mod fdd) [
        | accepted k ↦ done (record evp { kernel = k })
        | refused errno ↦ fails errno evp
      ]

  unfoldable pub ev_fdset_add : EvFdset K → EvFd → Ctl (EvFdset K × EvFd)
  ev_fdset_add evfds evfd =
      let fdd : Fdd = record { fd = evfd.fd; events = evfd.events } in
      elim (eventpoll_add evfds.eventpoll evfd.id fdd) [
        | done evp ↦ done (
          record { fd_size = add_int evfds.fd_size 1; eventpoll = evp },
          record evfd { fdd = fdd },
        )
        | fails errno evp ↦
            fails errno (record evfds { eventpoll = evp }, record evfd { fdd = fdd })
        | bug ↦ bug
      ]

  unfoldable pub ev_fdset_rm : EvFdset K → EvFd → Ctl (EvFdset K × EvFd)
  ev_fdset_rm evfds evfd = elim (eventpoll_del evfds.eventpoll evfd.id evfd.fdd) [
    | done evp ↦ done (record { fd_size = sub_int evfds.fd_size 1; eventpoll = evp }, evfd)
    | fails errno evp ↦ fails errno (record evfds { eventpoll = evp }, evfd)
    | bug ↦ bug
  ]

  -- The old settings come back when the kernel refuses.
  unfoldable pub ev_fdset_mod : EvFdset K → EvFd → Ctl (EvFdset K × EvFd)
  ev_fdset_mod evfds evfd =
      let fdd : Fdd = record { fd = evfd.fd; events = evfd.events } in
      elim (eventpoll_mod evfds.eventpoll evfd.id fdd) [
        | done evp ↦ done (record evfds { eventpoll = evp }, record evfd { fdd = fdd })
        | fails errno evp ↦ fails errno (
          record evfds { eventpoll = evp },
          record evfd { fdd = record { fd = evfd.fdd.fd; events = evfd.fdd.events } },
        )
        | bug ↦ bug
      ]

  -- `op` as a bit pattern: the test against NELEM is one of unsigned numbers.
  unfoldable pub fds_ctl_vfptr : ℕ → Option (FdsCtlOp K)
  fds_ctl_vfptr op =
      if op == 0
      then some ev_fdset_add
      else if op == 1
      then some ev_fdset_rm
      else if op == 2
      then some ev_fdset_mod
      else none

  -- `__ev_fdset_ctl`, for the handlers of the loop itself.
  unfoldable pub ev_fdset_ctl_inside : EvFdset K → ℕ → EvFd → Ctl (EvFdset K × EvFd)
  ev_fdset_ctl_inside evfds op evfd = elim (fds_ctl_vfptr op) [
    | none ↦ fails einval (evfds, evfd)
    | some f ↦ f evfds evfd
  ]

-- `fd_async_task` with its `ev_task`: what to do, and for which descriptor.
pub record EvTask (K : Type 0) : Type 0 where
  pub f : FdsCtlOp K
  pub owner : EvFd

-- A task that was run. `rc` is a bit pattern, negative with an `errno`.
pub record TaskEnd : Type 0 where
  pub rc : ℕ
  pub owner : EvFd

abbrev pub neg_int : ℕ → ℕ
neg_int n = sub_int 0 n

module _ {K : Type 0} where
  unfoldable pub run_one : EvFdset K → EvTask K → Option (EvFdset K × TaskEnd)
  run_one evfds ts = elim (ts.f evfds ts.owner) [
    | bug ↦ none
    | fails errno r ↦ some (r.0, record { rc = neg_int errno; owner = r.1 })
    | done r ↦ some (r.0, record { rc = 0; owner = r.1 })
  ]

  -- The tasks of `ev_fdset_poll`, in the order of the queue. `none` is a BUG_ON.
  unfoldable pub run_tasks : EvFdset K → List (EvTask K) → Option (EvFdset K × List TaskEnd)
  run_tasks evfds [] = some (evfds, [])
  run_tasks evfds (ts ∷ more) = elim (run_one evfds ts) [
    | none ↦ none
    | some r ↦ elim (run_tasks r.0 more) [ none ↦ none | some s ↦ some (s.0, r.1 ∷ s.1) ]
  ]

  -- The caller of `ev_fdset_run_task` has waited for its task, which ended so.
  unfoldable pub task_result : EvFdset K → TaskEnd → Ctl (EvFdset K × EvFd)
  task_result evfds t =
      if less_int t.rc 0 then fails (neg_int t.rc) (evfds, t.owner) else done (evfds, t.owner)

  -- A task queued behind `ahead`, and the poll that runs them.
  unfoldable pub ev_fdset_run_task : EvFdset K → List (EvTask K) → EvTask K → Ctl (EvFdset K × EvFd)
  ev_fdset_run_task evfds ahead ts = elim (run_tasks evfds ahead) [
    | none ↦ bug
    | some r ↦ elim (run_one r.0 ts) [ none ↦ bug | some s ↦ task_result s.0 s.1 ]
  ]

  unfoldable pub ev_fdset_ctl :
      (K → EpollOp → Fdd → CtlAnswer K)
      → EvFdset K
      → List (EvTask K)
      → ℕ
      → EvFd
      → Ctl (EvFdset K × EvFd)
  ev_fdset_ctl epoll_ctl evfds ahead op evfd = elim (fds_ctl_vfptr epoll_ctl op) [
    | none ↦ fails einval (evfds, evfd)
    | some f ↦ ev_fdset_run_task evfds ahead (record { f = f; owner = evfd })
  ]
