-- ===== src/Ev/Tasks.antt =====
-- A change of the set by a task, against a change made directly.
use proxyio.Base.{
  ℕ, ◌^◌, ◌<◌, ◌≡◌, refl, subst, Bool, true, false, ◌||◌, List, none, some, ◌==◌, if◌then◌else◌,
  arith,
}
use proxyio.MsgbufHead.{less_int}
use proxyio.Ev.{
  Fdd, EvFd, FdsCtlOp, EpollOp, epoll_add, epoll_del, epoll_mod, CtlAnswer, refused, EvFdset, Ctl,
  bug, fails, done, eventpoll_add, eventpoll_del, eventpoll_mod, ev_fdset_add, ev_fdset_rm,
  ev_fdset_mod, fds_ctl_vfptr, ev_fdset_ctl_inside, EvTask, TaskEnd, neg_int, run_one, run_tasks,
  task_result, ev_fdset_run_task, ev_fdset_ctl,
}
use proxyio.Ev.Watching.{All, vfptr-All}

negative : (n : ℕ) → 0 < n → n < 2 ^ 31 → less_int (neg_int n) 0 ≡ true
negative n p h = ground (arith, p, h)

neg_neg : (n : ℕ) → 0 < n → n < 2 ^ 31 → neg_int (neg_int n) ≡ n
neg_neg n p h = omega (arith, p, h)

module _ {K : Type 0} where
  -- The `errno` of a refusal is positive and an `int`.
  abbrev Sane : Ctl (EvFdset K × EvFd) → Type 0
  Sane (fails errno r) = (0 < errno) × (errno < 2 ^ 31)
  Sane (done r) = Unit {0}
  Sane bug = Unit {0}

  -- What the caller sees of a task is what the operation answered.
  same_result :
      (evfds : EvFdset K) (ts : EvTask K) (c : Ctl (EvFdset K × EvFd))
      → ts.f evfds ts.owner ≡ c
      → Sane c
      → elim (run_one evfds ts) as (λ _. Ctl (EvFdset K × EvFd)) [
        | none ↦ bug
        | some s ↦ task_result s.0 s.1
      ]
        ≡ c
  unfolding run_one task_result
  same_result evfds ts bug e s = rw (e, run_one) refl
  same_result evfds ts (done r) e s = rw (e, run_one) refl
  same_result evfds ts (fails errno r) e s =
      rw (e, run_one, negative errno s.0 s.1, neg_neg errno s.0 s.1) refl

  run_task_step :
      (evfds evfds' : EvFdset K) (ahead : List (EvTask K)) (ends : List TaskEnd) (ts : EvTask K)
      → run_tasks evfds ahead ≡ some (evfds', ends)
      → Sane (ts.f evfds' ts.owner)
      → ev_fdset_run_task evfds ahead ts ≡ ts.f evfds' ts.owner
  unfolding ev_fdset_run_task
  run_task_step evfds evfds' ahead ends ts e s =
      rw (e, ev_fdset_run_task) (same_result evfds' ts (ts.f evfds' ts.owner) refl s)

-- What epoll_ctl(2) documents: it refuses with a positive `errno`.
pub record IsEpollCtl {K : Type 0} (epoll_ctl : K → EpollOp → Fdd → CtlAnswer K) : Type 0 where
  pub positive : (k : K) (op : EpollOp) (fdd : Fdd) (n : ℕ) → epoll_ctl k op fdd ≡ refused n → 0 < n
  pub fits :
      (k : K) (op : EpollOp) (fdd : Fdd) (n : ℕ) → epoll_ctl k op fdd ≡ refused n → n < 2 ^ 31

module _ {K : Type 0} (epoll_ctl : K → EpollOp → Fdd → CtlAnswer K) (v : IsEpollCtl epoll_ctl) where
  add-Sane : (evfds : EvFdset K) (evfd : EvFd) → Sane (ev_fdset_add epoll_ctl evfds evfd)
  unfolding ev_fdset_add eventpoll_add
  add-Sane evfds evfd = grind (
    arith,
    v.positive evfds.eventpoll.kernel epoll_add (record { fd = evfd.fd; events = evfd.events }),
    v.fits evfds.eventpoll.kernel epoll_add (record { fd = evfd.fd; events = evfd.events }),
  )

  rm-Sane : (evfds : EvFdset K) (evfd : EvFd) → Sane (ev_fdset_rm epoll_ctl evfds evfd)
  unfolding ev_fdset_rm eventpoll_del
  rm-Sane evfds evfd = grind (
    arith,
    v.positive evfds.eventpoll.kernel epoll_del evfd.fdd,
    v.fits evfds.eventpoll.kernel epoll_del evfd.fdd,
  )

  mod-Sane : (evfds : EvFdset K) (evfd : EvFd) → Sane (ev_fdset_mod epoll_ctl evfds evfd)
  unfolding ev_fdset_mod eventpoll_mod
  mod-Sane evfds evfd = grind (
    arith,
    v.positive evfds.eventpoll.kernel epoll_mod (record { fd = evfd.fd; events = evfd.events }),
    v.fits evfds.eventpoll.kernel epoll_mod (record { fd = evfd.fd; events = evfd.events }),
  )

  by_table :
      (evfds evfds' : EvFdset K) (ahead : List (EvTask K)) (ends : List TaskEnd) (op : ℕ)
      (evfd : EvFd) (f : FdsCtlOp K)
      → run_tasks evfds ahead ≡ some (evfds', ends)
      → fds_ctl_vfptr epoll_ctl op ≡ some f
      → Sane (f evfds' evfd)
      → ev_fdset_ctl epoll_ctl evfds ahead op evfd ≡ ev_fdset_ctl_inside epoll_ctl evfds' op evfd
  unfolding ev_fdset_ctl ev_fdset_ctl_inside
  by_table evfds evfds' ahead ends op evfd f r e s =
      rw (e, ev_fdset_ctl, ev_fdset_ctl_inside)
        (run_task_step evfds evfds' ahead ends (record { f = f; owner = evfd }) r s)

  table_some : (op : ℕ) → op < 3 → (f : FdsCtlOp K) × (fds_ctl_vfptr epoll_ctl op ≡ some f)
  unfolding fds_ctl_vfptr
  table_some op h = go (op == 0) (op == 1) (op == 2) (ground (arith, h))
    where
      go :
          (x y z : Bool)
          → (x || (y || z)) ≡ true
          → (f : FdsCtlOp K) × ((if x
                then some (ev_fdset_add epoll_ctl)
                else if y
                then some (ev_fdset_rm epoll_ctl)
                else if z
                then some (ev_fdset_mod epoll_ctl)
                else none)
              ≡ some f)
      go true y z e = (ev_fdset_add epoll_ctl, refl)
      go false true z e = (ev_fdset_rm epoll_ctl, refl)
      go false false true e = (ev_fdset_mod epoll_ctl, refl)
      go false false false e = absurd (cc)

  -- Whatever tasks are queued before it: a change by a task has the effect, the result and the `errno`
  -- of the same change made directly once those tasks are done.
  pub ev_fdset_ctl-ev_fdset_ctl_inside :
      (evfds evfds' : EvFdset K) (ahead : List (EvTask K)) (ends : List TaskEnd) (op : ℕ)
      (evfd : EvFd)
      → op < 3
      → run_tasks evfds ahead ≡ some (evfds', ends)
      → ev_fdset_ctl epoll_ctl evfds ahead op evfd ≡ ev_fdset_ctl_inside epoll_ctl evfds' op evfd
  ev_fdset_ctl-ev_fdset_ctl_inside evfds evfds' ahead ends op evfd h r =
      let (f, e) = table_some op h in
      by_table evfds evfds' ahead ends op evfd f r e (
        subst (All epoll_ctl (λ g. Sane (g evfds' evfd))) e (
          vfptr-All epoll_ctl (λ g. Sane (g evfds' evfd)) (add-Sane evfds' evfd)
            (rm-Sane evfds' evfd) (mod-Sane evfds' evfd) op))
