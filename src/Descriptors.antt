-- ===== src/Descriptors.antt =====
-- The tables of descriptors: of sockets in src/socket/sockbase.c, of pollers in
-- src/poll/poll_struct.c and of endpoints in src/sp/sp_module.c. A table has an array of pointers and a
-- stack of the numbers that are not in use. What runs with the table's lock held is one step; `xput`
-- counts down without it, in a step of its own. In `poll_put` and `eid_put` both steps are one here.
pub mod Numbers
pub mod Upkeep
pub mod Threads
pub mod Safety
use proxyio.Base.{
  ℕ, zero, suc, ◌+◌, ◌-◌, Bool, true, false, List, [], ◌∷◌, ◌++◌, Option, none, some, ◌==◌, leb,
  if◌then◌else◌,
}

-- What a pointer of the array leads to: the count of references, and whether the memory was freed.
pub record Slot : Type 0 where
  pub ref : ℕ
  pub freed : Bool

-- `unused` is the stack from the index `nused` on, where `unused[nused]` is read next. A number that
-- `table` does not have is a null pointer.
pub record Descriptors : Type 0 where
  pub nused : ℕ
  pub unused : List ℕ
  pub table : List (ℕ × Slot)
  pub shutdown_head : List ℕ

-- PROXYIO_MAX_SOCKS, PROXYIO_MAX_POLLS and MAX_ENDPOINTS.
abbrev pub max_descriptors : ℕ
max_descriptors = 10240

-- The numbers from `first` on.
unfoldable pub numbers : ℕ → ℕ → List ℕ
numbers first zero = []
numbers first (suc n) = first ∷ numbers (suc first) n

unfoldable pub descriptors_init : ℕ → Descriptors
descriptors_init max = record { nused = 0; unused = numbers 0 max; table = []; shutdown_head = [] }

unfoldable pub lookup : ℕ → List (ℕ × Slot) → Option Slot
lookup fd [] = none
lookup fd ((k, s) ∷ table) = if k == fd then some s else lookup fd table

-- The null pointer is stored.
unfoldable pub clear : ℕ → List (ℕ × Slot) → List (ℕ × Slot)
clear fd [] = []
clear fd ((k, s) ∷ table) = if k == fd then table else (k, s) ∷ clear fd table

unfoldable pub store : ℕ → Slot → List (ℕ × Slot) → List (ℕ × Slot)
store fd s table = (fd, s) ∷ clear fd table

-- `none` is the BUG_ON.
unfoldable pub alloc : ℕ → ℕ → Descriptors → Option (Descriptors × ℕ)
alloc max ref d = if leb max d.nused then none else elim d.unused [
  | [] ↦ none
  | fd ∷ fds ↦ some (
    record d {
      nused = d.nused + 1;
      unused = fds;
      table = store fd (record { ref = ref; freed = false }) d.table;
    },
    fd,
  )
]

-- The first reference of a socket and of an endpoint is taken with the number, that of a poller by
-- `xpoll_create`.
unfoldable pub xalloc : Descriptors → Option (Descriptors × ℕ)
xalloc d = alloc max_descriptors 1 d

unfoldable pub eid_alloc : Descriptors → Option (Descriptors × ℕ)
eid_alloc d = alloc max_descriptors 1 d

unfoldable pub pollid_alloc : Descriptors → Option (Descriptors × ℕ)
pollid_alloc d = alloc max_descriptors 0 d

-- A null pointer; the table with one reference more; freed memory is read; the BUG_ON; or a read
-- outside the array, which no `get` guards against.
pub data Got : Type 0 where
  null : Got
  got : Descriptors → Got
  dangling bug outside : Got

unfoldable pub get_slot : Descriptors → ℕ → Slot → Got
get_slot d fd s =
    if s.freed
    then dangling
    else got (record d { table = store fd (record s { ref = s.ref + 1 }) d.table })

-- Sockets and endpoints test that there is a reference already.
unfoldable pub xget : Descriptors → ℕ → Got
xget d fd = if leb max_descriptors fd then outside else elim (lookup fd d.table) [
  | none ↦ null
  | some s ↦ if s.ref == 0 then bug else get_slot d fd s
]

unfoldable pub eid_get : Descriptors → ℕ → Got
eid_get d eid = xget d eid

unfoldable pub poll_get : Descriptors → ℕ → Got
poll_get d pollid =
    if leb max_descriptors pollid
    then outside
    else elim (lookup pollid d.table) [ none ↦ null | some s ↦ get_slot d pollid s ]

-- `fd` is pushed: `unused[--nused] = fd`.
abbrev pub push_unused : Descriptors → ℕ → List (ℕ × Slot) → Descriptors
push_unused d fd table = record d { nused = d.nused - 1; unused = fd ∷ d.unused; table = table }

-- `atomic_decr`, without the lock: one reference less, and whether it was the last. `none` is a null
-- pointer. The caller holds a reference.
unfoldable pub xput_decr : Descriptors → ℕ → Option (Descriptors × Bool)
xput_decr d fd = elim (lookup fd d.table) [
  | none ↦ none
  | some s ↦ some (record d { table = store fd (record s { ref = s.ref - 1 }) d.table }, s.ref == 1)
]

-- What follows the last reference, with the lock held; the socket is then closed.
unfoldable pub xput_clear : Descriptors → ℕ → Descriptors
xput_clear d fd = push_unused d fd (clear fd d.table)

-- Both, when no other thread comes between.
unfoldable pub xput : Descriptors → ℕ → Option (Descriptors × Bool)
xput d fd = elim (xput_decr d fd) [
  | none ↦ none
  | some (d', last) ↦ some (if last then xput_clear d' fd else d', last)
]

-- The pointer to a poller that is freed stays in the array.
unfoldable pub poll_put : Descriptors → ℕ → Option (Descriptors × Bool)
poll_put d pollid = elim (lookup pollid d.table) [
  | none ↦ none
  | some s ↦
      if s.ref == 1
      then some
          (push_unused d pollid (store pollid (record { ref = 0; freed = true }) d.table), true)
      else some (record d { table = store pollid (record s { ref = s.ref - 1 }) d.table }, false)
]

-- The last reference puts the endpoint on the list of those that shut down.
unfoldable pub eid_put : Descriptors → ℕ → Option (Descriptors × Bool)
eid_put d eid = elim (lookup eid d.table) [
  | none ↦ none
  | some s ↦
      let table = store eid (record s { ref = s.ref - 1 }) d.table in
      if s.ref == 1
      then some (record d { table = table; shutdown_head = d.shutdown_head ++ eid ∷ [] }, true)
      else some (record d { table = table }, false)
]

-- `shutdown_epbase` pushes the numbers and frees the endpoints. The pointers stay in the array.
unfoldable pub shutdown_all : List ℕ → Descriptors → Descriptors
shutdown_all [] d = record d { shutdown_head = [] }
shutdown_all (eid ∷ eids) d =
    shutdown_all eids (push_unused d eid (store eid (record { ref = 0; freed = true }) d.table))

unfoldable pub shutdown_numbers : Descriptors → Descriptors
shutdown_numbers d = shutdown_all d.shutdown_head d
