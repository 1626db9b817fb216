-- ===== src/Poll/Waiting.antt =====
-- A poller in any state that the operations can bring it to.
use proxyio.Base.{ℕ, ◌≡◌, sym, subst, ◌∙◌, Bool, true, Option, some, take}
use proxyio.Socket.{Events, meet}
use proxyio.Poll.{
  PollFd, Xpoll, any, xpoll_create, poll_alloc, by_fd, is_wanted, is_pb, ok, emitted, dropped,
  xpollbase_emit, xpoll_add, xpoll_rm, xpoll_mod, xpoll_wait,
}
use proxyio.Poll.Ready.{IsSorted, ready, xpoll_wait_lem}
use proxyio.Poll.Emission.{
  Orders, EmitOrders, xpollbase_emit-IsSorted, rm_poll_entry-IsSorted, xpoll_mod-IsSorted,
}
use proxyio.Poll.Adding.{Absent, registered_entry, xpoll_add_lem, place-IsSorted}

-- A new entry has an address that no other entry has, and a mask.
pub data Step : Xpoll → Xpoll → Type 0 where
  adds :
      {a b : Xpoll} (pollfd : PollFd) (now : Events) (pb : ℕ)
      → Absent (is_wanted (by_fd pollfd.fd)) a.lru_head
      → Absent (is_pb pb) a.lru_head
      → any pollfd.events ≡ true
      → xpoll_add a pollfd (some now) true (some pb) ≡ ok b
      → Step a b
  removes : {a b : Xpoll} (pollfd : PollFd) → xpoll_rm a pollfd ≡ ok b → Step a b
  modifies :
      {a b : Xpoll} (pollfd : PollFd) (now : Option Events)
      → xpoll_mod a pollfd now ≡ ok b
      → Step a b
  emits :
      {a b : Xpoll} (pb : ℕ) (events : Events) (woken : Bool)
      → xpollbase_emit a pb events ≡ emitted b woken
      → Step a b
  drops :
      {a b : Xpoll} (pb : ℕ) (events : Events) → xpollbase_emit a pb events ≡ dropped b → Step a b

pub data Reachable : Xpoll → Type 0 where
  created : (id : ℕ) → Reachable (xpoll_create id)
  goes : {a b : Xpoll} → Reachable a → Step a b → Reachable b

Step-IsSorted : {a b : Xpoll} → Step a b → IsSorted a.lru_head → IsSorted b.lru_head
unfolding xpoll_rm
Step-IsSorted (adds {a} {b} pollfd now pb absent fresh asked e) v =
    let ent = registered_entry pb pollfd (meet now pollfd.events) in
    subst Orders (sym (xpoll_add_lem a pollfd now pb absent fresh asked) ∙ e)
      (place-IsSorted ent a.lru_head v)
Step-IsSorted (removes {a} {b} pollfd e) v =
    subst Orders e (rm_poll_entry-IsSorted a (by_fd pollfd.fd) v)
Step-IsSorted (modifies {a} {b} pollfd now e) v = subst Orders e (xpoll_mod-IsSorted a pollfd now v)
Step-IsSorted (emits {a} {b} pb events woken e) v =
    subst EmitOrders e (xpollbase_emit-IsSorted a pb events v)
Step-IsSorted (drops {a} {b} pb events e) v =
    subst EmitOrders e (xpollbase_emit-IsSorted a pb events v)

Reachable-IsSorted : {self : Xpoll} → Reachable self → IsSorted self.lru_head
unfolding xpoll_create poll_alloc
Reachable-IsSorted (created id) = tt
Reachable-IsSorted (goes r s) = Step-IsSorted s (Reachable-IsSorted r)

-- Whatever was added, removed, modified and told before, a wait returns the entries with an event,
-- all of them or as many as there is room for.
pub xpoll_wait-Reachable :
    {self : Xpoll} (size : ℕ)
    → Reachable self
    → xpoll_wait self size ≡ take size (ready self.lru_head)
xpoll_wait-Reachable {self} size r = xpoll_wait_lem self size (Reachable-IsSorted r)
