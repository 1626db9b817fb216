-- ===== src/Poll.antt =====
-- src/poll: eventpoll.c, poll_struct.c and select.c. A poller keeps an entry for each socket that it
-- watches, in `lru_head`. An entry is named by a number, `pb`, at the poller and at the socket; one
-- that was removed stays in `detached` until the socket, or another holder, lets go of it. An operation
-- is what a thread does with the poller's lock held. The statistics are left out.
pub mod Ready
pub mod Emission
pub mod Adding
pub mod Waiting
use proxyio.Base.{
  ℕ, zero, suc, ◌+◌, ◌-◌, Bool, true, false, not, ◌&&◌, ◌||◌, List, [], ◌∷◌, ◌++◌, Option, none,
  some, ltb, ◌==◌, if◌then◌else◌, length,
}
use proxyio.Socket.{Events, no_events, meet}

pub record PollFd : Type 0 where
  pub fd : ℕ
  pub events : Events
  pub happened : Events

pub record PollEntry : Type 0 where
  pub pb : ℕ
  pub pollfd : PollFd
  pub ref : ℕ

-- `ref` counts the references to the poller itself.
pub record Xpoll : Type 0 where
  pub id : ℕ
  pub ref : ℕ
  pub uwaiters : ℕ
  pub size : ℕ
  pub shutdown_state : Bool
  pub lru_head : List PollEntry
  pub detached : List PollEntry

-- A mask that is not 0.
abbrev pub any : Events → Bool
any e = e.pollin || (e.pollout || e.pollerr)

abbrev pub happens_now : PollEntry → Bool
happens_now ent = any ent.pollfd.happened

abbrev pub with_happened : PollEntry → Events → PollEntry
with_happened ent events = record ent { pollfd = record ent.pollfd { happened = events } }

-- `poll_alloc`, and the reference that `xpoll_create` takes.
unfoldable pub poll_alloc : ℕ → Xpoll
poll_alloc id = record {
  id = id;
  ref = 0;
  uwaiters = 0;
  size = 0;
  shutdown_state = false;
  lru_head = [];
  detached = [];
}

unfoldable pub xpoll_create : ℕ → Xpoll
xpoll_create id = record (poll_alloc id) { ref = 1 }

unfoldable pub poll_entry_alloc : ℕ → PollEntry
poll_entry_alloc pb = record {
  pb = pb;
  pollfd = record { fd = 0; events = no_events; happened = no_events };
  ref = 0;
}

-- The first entry that passes the test, and the list without it.
unfoldable pub unlink : (PollEntry → Bool) → List PollEntry → Option (PollEntry × List PollEntry)
unlink p [] = none
unlink p (ent ∷ ents) =
    let rest = unlink p ents in
    if p ent
    then some (ent, ents)
    else elim rest [ none ↦ none | some (e, es) ↦ some (e, ent ∷ es) ]

-- A descriptor, or XPOLL_HEADFD.
pub data Wanted : Type 0 where
  by_fd : ℕ → Wanted
  headfd : Wanted

abbrev pub is_wanted : Wanted → PollEntry → Bool
is_wanted (by_fd fd) ent = ent.pollfd.fd == fd
is_wanted headfd ent = true

abbrev pub is_pb : ℕ → PollEntry → Bool
is_pb pb ent = ent.pb == pb

unfoldable pub find_poll_entry : Xpoll → Wanted → Option PollEntry
find_poll_entry self wanted = elim (unlink (is_wanted wanted) self.lru_head) [
  | none ↦ none
  | some (ent, ents) ↦ some ent
]

-- `poll_entry_put` of an entry that is not in the list. The last reference destroys it, which takes
-- away its reference to the poller. `none` is a BUG_ON, or an entry that is gone.
unfoldable pub poll_entry_put : Xpoll → ℕ → Option Xpoll
poll_entry_put self pb = elim (unlink (is_pb pb) self.detached) [
  | none ↦ none
  | some (ent, ents) ↦
      if ent.ref == 1
      then some (record self { ref = self.ref - 1; detached = ents })
      else if ent.ref == 0
      then none
      else some (record self { detached = record ent { ref = ent.ref - 1 } ∷ ents })
]

-- `undone` is EBADF where the entry was already made and is removed again.
pub data Result : Type 0 where
  ok : Xpoll → Result
  ebadf eexist enoent enomem einval : Result
  undone : Xpoll → Result
  bug : Result

-- One reference is for the caller, one for the list. `pb` names the entry, if there is memory.
unfoldable pub add_poll_entry : Xpoll → ℕ → Option ℕ → Result
add_poll_entry self fd alloc = elim (find_poll_entry self (by_fd fd)) [
  | some ent ↦ eexist
  | none ↦ elim alloc [
    | none ↦ enomem
    | some pb ↦
        let new = poll_entry_alloc pb in
        let ent = record new { pollfd = record new.pollfd { fd = fd }; ref = 2 } in
        ok (record self {
          ref = self.ref + 1;
          size = self.size + 1;
          lru_head = self.lru_head ++ ent ∷ [];
        })
  ]
]

unfoldable pub rm_poll_entry : Xpoll → Wanted → Result
rm_poll_entry self wanted = elim (unlink (is_wanted wanted) self.lru_head) [
  | none ↦ enoent
  | some (ent, ents) ↦
      let self' = record self {
        size = self.size - 1;
        lru_head = ents;
        detached = ent ∷ self.detached;
      } in
      elim (poll_entry_put self' ent.pb) [ none ↦ bug | some self'' ↦ ok self'' ]
]

-- The poller, and whether a sleeper is woken; `dropped` where the entry was removed, so that the socket
-- takes it off its own list.
pub data Emitted : Type 0 where
  emitted : Xpoll → Bool → Emitted
  dropped : Xpoll → Emitted
  bug : Emitted

unfoldable pub emit_entry : Xpoll → PollEntry → List PollEntry → Events → Emitted
emit_entry self ent ents events =
    if any events
    then emitted (record self { lru_head = with_happened ent events ∷ ents }) (ltb 0 self.uwaiters)
    else if happens_now ent
    then emitted (record self { lru_head = ents ++ with_happened ent no_events ∷ [] }) false
    else emitted self false

unfoldable pub emit_detached : Xpoll → ℕ → Option (PollEntry × List PollEntry) → Emitted
emit_detached self pb none = bug
emit_detached self pb (some (ent, ents)) =
    if any ent.pollfd.events
    then elim (poll_entry_put self pb) [ none ↦ bug | some self' ↦ dropped self' ]
    else bug

unfoldable pub xpollbase_emit : Xpoll → ℕ → Events → Emitted
xpollbase_emit self pb events = elim (unlink (is_pb pb) self.lru_head) [
  | none ↦ emit_detached self pb (unlink (is_pb pb) self.detached)
  | some (ent, ents) ↦ if any ent.pollfd.events then emit_entry self ent ents events else bug
]

-- The reference of the socket goes with the removal.
unfoldable pub xpollbase_close : Xpoll → ℕ → ℕ → Option Xpoll
xpollbase_close self pb fd = elim (rm_poll_entry self (by_fd fd)) [
  | ok self' ↦ poll_entry_put self' pb
  | bug ↦ none
  | _ ↦ poll_entry_put self pb
]

abbrev pub set_pollfd : (PollEntry → Bool) → (PollFd → PollFd) → List PollEntry → List PollEntry
set_pollfd p f [] = []
set_pollfd p f (ent ∷ ents) =
    if p ent then record ent { pollfd = f ent.pollfd } ∷ ents else ent ∷ set_pollfd p f ents

-- What follows the registration at the socket: the socket tells the new entry what happens.
unfoldable pub tell : Xpoll → ℕ → Events → Result
tell self pb events = elim (xpollbase_emit self pb events) [
  | emitted self' woken ↦ ok self'
  | dropped self' ↦ ok self'
  | bug ↦ bug
]

-- `now` is what happens at the socket, if there is one, and `registered` whether `add_pollbase`
-- succeeds. The whole of the caller's `struct poll_fd` is copied, `happened` with it.
unfoldable pub xpoll_add : Xpoll → PollFd → Option Events → Bool → Option ℕ → Result
xpoll_add self pollfd none registered alloc = ebadf
xpoll_add self pollfd (some now) registered none = elim (find_poll_entry self (by_fd pollfd.fd)) [
  | none ↦ enomem
  | some ent ↦ eexist
]
xpoll_add self pollfd (some now) registered (some pb) =
    elim (add_poll_entry self pollfd.fd (some pb)) [
      | ok self' ↦
          let self'' = record self' {
            lru_head = set_pollfd (is_pb pb) (λ x. pollfd) self'.lru_head;
          } in
          if registered
          then tell self'' pb (meet now pollfd.events)
          else elim (rm_poll_entry self'' (by_fd pollfd.fd)) [
            | ok gone ↦ undone gone
            | bug ↦ bug
            | _ ↦ ebadf
          ]
      | e ↦ e
    ]

unfoldable pub xpoll_rm : Xpoll → PollFd → Result
xpoll_rm self pollfd = rm_poll_entry self (by_fd pollfd.fd)

unfoldable pub xpoll_mod : Xpoll → PollFd → Option Events → Result
xpoll_mod self pollfd none = ebadf
xpoll_mod self pollfd (some now) = elim (find_poll_entry self (by_fd pollfd.fd)) [
  | none ↦ enoent
  | some ent ↦
      let change : PollFd → PollFd = λ x. record x { events = pollfd.events } in
      tell
        (record self { lru_head = set_pollfd (is_wanted (by_fd pollfd.fd)) change self.lru_head })
        ent.pb (meet now pollfd.events)
]

-- The operations by number. A reference to the poller is held meanwhile.
unfoldable pub xpoll_ctl : Xpoll → ℕ → PollFd → Option Events → Bool → Option ℕ → Result
xpoll_ctl self op pollfd now registered alloc =
    if op == 1
    then xpoll_add self pollfd now registered alloc
    else if op == 2
    then xpoll_rm self pollfd
    else if op == 3
    then xpoll_mod self pollfd now
    else einval

-- `while (rm_poll_entry (self, XPOLL_HEADFD) == 0)`: each round takes an entry off the list.
unfoldable pub rm_all : ℕ → Xpoll → Option Xpoll
rm_all zero self = some self
rm_all (suc fuel) self = elim (rm_poll_entry self headfd) [
  | ok self' ↦ rm_all fuel self'
  | bug ↦ none
  | _ ↦ some self
]

-- The caller's reference goes at the end. The poller is freed where it was the last.
unfoldable pub xpoll_close : Xpoll → Option (Xpoll × Bool)
xpoll_close self = elim (rm_all (length self.lru_head) (record self { shutdown_state = true })) [
  | none ↦ none
  | some self' ↦ some (record self' { ref = self'.ref - 1 }, self'.ref == 1)
]

-- Whether `xpoll_wait` sleeps, if it may. `none` where the list is empty: its head is then read as if
-- it were an entry.
unfoldable pub wait_sleeps : Xpoll → Bool → Option Bool
wait_sleeps self may_wait = elim (unlink (λ x. true) self.lru_head) [
  | none ↦ none
  | some (ent, ents) ↦ some (not (happens_now ent) && may_wait)
]

-- What is copied out, once the sleep is over: up to the first entry without an event.
unfoldable pub wait_walk : List PollEntry → ℕ → List PollFd
wait_walk [] size = []
wait_walk (ent ∷ ents) zero = []
wait_walk (ent ∷ ents) (suc size) =
    let rest = wait_walk ents size in if happens_now ent then ent.pollfd ∷ rest else []

unfoldable pub xpoll_wait : Xpoll → ℕ → List PollFd
xpoll_wait self size = wait_walk self.lru_head size

-- `check_pollevents (sb, events) > 0` for each descriptor that is open, until the set is full.
unfoldable pub xselect : (ℕ → Option Bool) → List ℕ → ℕ → List ℕ
xselect happened [] nout = []
xselect happened (fd ∷ fds) zero = []
xselect happened (fd ∷ fds) (suc nout) =
    let rest = xselect happened fds nout in
    let skipped = xselect happened fds (suc nout) in
    elim (happened fd) [ none ↦ skipped | some true ↦ fd ∷ rest | some false ↦ skipped ]
