-- ===== src/Ev/Watching.antt =====
-- The set of descriptors of a loop: its count, and the two ways to change it.
use proxyio.Base.{
  ℕ, suc, ◌%◌, ◌^◌, ◌≡◌, refl, ap, subst, ◌∙◌, inl, inr, Bool, true, false, ◌||◌, List, [], ◌∷◌,
  ◌++◌, Option, none, some, ◌==◌, if◌then◌else◌, length, length-append, Bool-cases, arith,
}
use proxyio.Ev.{
  Fdd, EvFd, FdsCtlOp, EpollOp, CtlAnswer, EvFdset, Ctl, bug, fails, done, einval, is_linked,
  list_del_init, eventpoll_add, eventpoll_del, eventpoll_mod, ev_fdset_add, ev_fdset_rm,
  ev_fdset_mod, fds_ctl_vfptr, ev_fdset_ctl_inside,
}

abbrev pub Unique : List ℕ → Type 0
Unique [] = Unit {0}
Unique (x ∷ xs) = (is_linked x xs ≡ false) × Unique xs

is_linked-append :
    (id y : ℕ) (xs : List ℕ) → is_linked id (xs ++ y ∷ []) ≡ (is_linked id xs || y == id)
is_linked-append id y [] = elim (Bool-cases (y == id)) [ inl t ↦ rw t refl | inr f ↦ rw f refl ]
is_linked-append id y (x ∷ xs) = elim (Bool-cases (x == id)) [
  | inl t ↦ rw t refl
  | inr f ↦ rw f (is_linked-append id y xs)
]

Unique-append :
    (id : ℕ) (xs : List ℕ) → Unique xs → is_linked id xs ≡ false → Unique (xs ++ id ∷ [])
Unique-append id [] u h = (refl, tt)
Unique-append id (x ∷ xs) u h =
    (is_linked-append x id xs ∙ ground (arith, u.0, h), Unique-append id xs u.1 (ground (arith, h)))

is_linked-list_del_init :
    (y id : ℕ) (xs : List ℕ) → is_linked y xs ≡ false → is_linked y (list_del_init id xs) ≡ false
is_linked-list_del_init y id [] h = refl
is_linked-list_del_init y id (x ∷ xs) h = ground (arith, h, is_linked-list_del_init y id xs)

Unique-list_del_init : (id : ℕ) (xs : List ℕ) → Unique xs → Unique (list_del_init id xs)
Unique-list_del_init id [] u = tt
Unique-list_del_init id (x ∷ xs) u = elim (Bool-cases (x == id)) [
  | inl t ↦ rw t (u.1)
  | inr f ↦ rw f (is_linked-list_del_init x id xs u.0, Unique-list_del_init id xs u.1)
]

-- What is removed is not linked any more.
list_del_init_gone : (id : ℕ) (xs : List ℕ) → Unique xs → is_linked id (list_del_init id xs) ≡ false
list_del_init_gone id [] u = refl
list_del_init_gone id (x ∷ xs) u = elim (Bool-cases (x == id)) [
  | inl t ↦ rw t (subst (λ n. is_linked n xs ≡ false) (ground (arith, t)) (u.0))
  | inr f ↦ rw f (rw f (list_del_init_gone id xs u.1))
]

length-list_del_init :
    (id : ℕ) (xs : List ℕ) → is_linked id xs ≡ true → suc (length (list_del_init id xs)) ≡ length xs
length-list_del_init id [] h = absurd (cc)
length-list_del_init id (x ∷ xs) h = elim (Bool-cases (x == id)) [
  | inl t ↦ rw t refl
  | inr f ↦
      rw f (ap suc (length-list_del_init id xs (subst (λ b. (b || is_linked id xs) ≡ true) f h)))
]

module _ {K : Type 0} where
  -- The count is that of the descriptors that are linked, each of them once.
  pub record IsFdset (evfds : EvFdset K) : Type 0 where
    pub counted : evfds.fd_size ≡ length evfds.eventpoll.fds % 2 ^ 32
    pub unique : Unique evfds.eventpoll.fds

  abbrev Kept : Ctl (EvFdset K × EvFd) → Type 0
  Kept (fails errno r) = IsFdset r.0
  Kept (done r) = IsFdset r.0
  Kept bug = Unit {0}

module _ {K : Type 0} (epoll_ctl : K → EpollOp → Fdd → CtlAnswer K) where
  add-Kept :
      (evfds : EvFdset K) (evfd : EvFd) → IsFdset evfds → Kept (ev_fdset_add epoll_ctl evfds evfd)
  unfolding ev_fdset_add eventpoll_add
  add-Kept evfds evfd v = ground (
    arith,
    v.counted,
    v.unique,
    Unique-append evfd.id evfds.eventpoll.fds v.unique,
    length-append evfds.eventpoll.fds (evfd.id ∷ []),
  )

  rm-Kept :
      (evfds : EvFdset K) (evfd : EvFd) → IsFdset evfds → Kept (ev_fdset_rm epoll_ctl evfds evfd)
  unfolding ev_fdset_rm eventpoll_del
  rm-Kept evfds evfd v = ground (
    arith,
    v.counted,
    v.unique,
    Unique-list_del_init evfd.id evfds.eventpoll.fds v.unique,
    length-list_del_init evfd.id evfds.eventpoll.fds,
  )

  mod-Kept :
      (evfds : EvFdset K) (evfd : EvFd) → IsFdset evfds → Kept (ev_fdset_mod epoll_ctl evfds evfd)
  unfolding ev_fdset_mod eventpoll_mod
  mod-Kept evfds evfd v = ground (arith, v.counted, v.unique)

  abbrev pub All : (FdsCtlOp K → Type 0) → Option (FdsCtlOp K) → Type 0
  All P none = Unit {0}
  All P (some f) = P f

  -- What holds of the three operations holds of what the table gives.
  pub vfptr-All :
      (P : FdsCtlOp K → Type 0)
      → P (ev_fdset_add epoll_ctl)
      → P (ev_fdset_rm epoll_ctl)
      → P (ev_fdset_mod epoll_ctl)
      → (op : ℕ) → All P (fds_ctl_vfptr epoll_ctl op)
  unfolding fds_ctl_vfptr
  vfptr-All P a r m op = go (op == 0) (op == 1) (op == 2)
    where
      go :
          (x y z : Bool)
          → All P (
              if x
              then some (ev_fdset_add epoll_ctl)
              else if y
              then some (ev_fdset_rm epoll_ctl)
              else if z
              then some (ev_fdset_mod epoll_ctl)
              else none)
      go true y z = a
      go false true z = r
      go false false true = m
      go false false false = tt

  inside-Kept :
      (evfds : EvFdset K) (op : ℕ) (evfd : EvFd)
      → IsFdset evfds
      → Kept (ev_fdset_ctl_inside epoll_ctl evfds op evfd)
  unfolding ev_fdset_ctl_inside
  inside-Kept evfds op evfd v = go (fds_ctl_vfptr epoll_ctl op) (
      vfptr-All (λ f. Kept (f evfds evfd)) (add-Kept evfds evfd v) (rm-Kept evfds evfd v)
        (mod-Kept evfds evfd v) op)
    where
      go :
          (o : Option (FdsCtlOp K))
          → All (λ f. Kept (f evfds evfd)) o
          → Kept (elim o as (λ _. Ctl (EvFdset K × EvFd)) [
            | none ↦ fails einval (evfds, evfd)
            | some f ↦ f evfds evfd
          ])
      go none a = v
      go (some f) a = a

  -- The sets that calls make of the empty one, refused calls included.
  pub data Reachable : EvFdset K → Type 0 where
    inits :
        (k : K) → Reachable (record { fd_size = 0; eventpoll = record { kernel = k; fds = [] } })
    ctls :
        {evfds evfds' : EvFdset K} (op : ℕ) (evfd evfd' : EvFd)
        → Reachable evfds
        → ev_fdset_ctl_inside epoll_ctl evfds op evfd ≡ done (evfds', evfd')
        → Reachable evfds'
    refuses :
        {evfds evfds' : EvFdset K} (op errno : ℕ) (evfd evfd' : EvFd)
        → Reachable evfds
        → ev_fdset_ctl_inside epoll_ctl evfds op evfd ≡ fails errno (evfds', evfd')
        → Reachable evfds'

  Reachable-IsFdset : {evfds : EvFdset K} → Reachable evfds → IsFdset evfds
  Reachable-IsFdset (inits k) = record { counted = omega arith; unique = tt }
  Reachable-IsFdset (ctls op evfd evfd' r e) =
      subst Kept e (inside-Kept _ op evfd (Reachable-IsFdset r))
  Reachable-IsFdset (refuses op errno evfd evfd' r e) =
      subst Kept e (inside-Kept _ op evfd (Reachable-IsFdset r))

  Gone : EvFdset K → EvFd → Ctl (EvFdset K × EvFd) → Type 0
  Gone evfds evfd (done r) =
      (is_linked evfd.id r.0.eventpoll.fds ≡ false)
      × (suc (length r.0.eventpoll.fds) ≡ length evfds.eventpoll.fds)
  Gone evfds evfd _ = Unit {0}

  rm-Gone :
      (evfds : EvFdset K) (evfd : EvFd)
      → IsFdset evfds
      → Gone evfds evfd (ev_fdset_ctl_inside epoll_ctl evfds 1 evfd)
  unfolding ev_fdset_ctl_inside fds_ctl_vfptr ev_fdset_rm eventpoll_del Gone
  rm-Gone evfds evfd v = ground (
    arith,
    list_del_init_gone evfd.id evfds.eventpoll.fds v.unique,
    length-list_del_init evfd.id evfds.eventpoll.fds,
  )

  -- Whatever calls were made before: after a removal that succeeds, the set does not hold the
  -- descriptor any more, has one fewer, and still counts what it holds.
  pub ev_fdset_rm-Reachable :
      (evfds evfds' : EvFdset K) (evfd evfd' : EvFd)
      → Reachable evfds
      → ev_fdset_ctl_inside epoll_ctl evfds 1 evfd ≡ done (evfds', evfd')
      → (is_linked evfd.id evfds'.eventpoll.fds ≡ false)
        × (suc (length evfds'.eventpoll.fds) ≡ length evfds.eventpoll.fds)
        × IsFdset evfds'
  unfolding Gone
  ev_fdset_rm-Reachable evfds evfds' evfd evfd' r e =
      let v = Reachable-IsFdset r in
      let gone = subst (Gone evfds evfd) e (rm-Gone evfds evfd v) in
      (gone.0, gone.1, subst Kept e (inside-Kept evfds 1 evfd v))
