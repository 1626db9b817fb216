-- ===== src/Socket.antt =====
-- src/socket: sockbase.h, send.c, recv.c, listen.c, close.c and eventnotify.c, the part of a socket
-- that all transports share. An operation runs with the socket's lock held, from one test of its
-- `while` to the end or to the next `condition_wait`.
pub mod Readiness
use proxyio.Base.{
  ℕ, ◌+◌, Bool, true, false, not, ◌&&◌, ◌||◌, List, [], ◌∷◌, ◌++◌, Option, none, some, map, ◌==◌,
  if◌then◌else◌,
}
use proxyio.Msgbuf.{Msgbuf}
use proxyio.MsgbufHead.{
  Event, MsgbufHead, msgbuf_head_init, add_int, sub_int, is_positive, is_empty, msgbuf_head_empty,
  Popped, popped, fail, msgbuf_head_out, msgbuf_head_in, msgbuf_can_in,
}

pub data Socktype : Type 0 where
  xlistener xconnector : Socktype

-- A mask of XPOLLIN, XPOLLOUT and XPOLLERR.
pub record Events : Type 0 where
  pub pollin : Bool
  pub pollout : Bool
  pub pollerr : Bool

abbrev pub all_events : Events
all_events = record { pollin = true; pollout = true; pollerr = true }

abbrev pub no_events : Events
no_events = record { pollin = false; pollout = false; pollerr = false }

-- `a & b`.
abbrev pub meet : Events → Events → Events
meet a b = record {
  pollin = a.pollin && b.pollin;
  pollout = a.pollout && b.pollout;
  pollerr = a.pollerr && b.pollerr;
}

-- A poller's entry at a socket, by a number, and the events that it asks for.
pub record Pollbase : Type 0 where
  pub id : ℕ
  pub events : Events

-- The sockets that wait to be accepted are named by their descriptors.
pub record Sockbase : Type 0 where
  pub type : Socktype
  pub fd : ℕ
  pub epipe : Bool
  pub non_block : Bool
  pub rcv : MsgbufHead
  pub snd : MsgbufHead
  pub acceptq_waiters : ℕ
  pub acceptq_head : List ℕ
  pub poll_entries : List Pollbase

-- Somebody sleeps at a queue.
abbrev pub has_waiters : Sockbase → Bool
has_waiters sb = not (sb.rcv.waiters == 0) || not (sb.snd.waiters == 0)

unfoldable pub sockbase_init : Socktype → ℕ → Sockbase
sockbase_init type fd = record {
  type = type;
  fd = fd;
  epipe = false;
  non_block = false;
  rcv = msgbuf_head_init 409600;
  snd = msgbuf_head_init 409600;
  acceptq_waiters = 0;
  acceptq_head = [];
  poll_entries = [];
}

abbrev pub no_fds : List ℕ → Bool
no_fds [] = true
no_fds (fd ∷ fds) = false

-- `none` is a BUG_ON.
unfoldable pub check_pollin : Sockbase → Socktype → Option Bool
check_pollin sb xconnector = elim (msgbuf_head_empty sb.rcv) [ none ↦ none | some e ↦ some (not e) ]
check_pollin sb xlistener = some (not (no_fds sb.acceptq_head))

unfoldable pub check_pollevents : Sockbase → Events → Option Events
check_pollevents sb events = elim (if events.pollin then check_pollin sb sb.type else some false) [
  | none ↦ none
  | some ready ↦ some (record {
    pollin = ready;
    pollout = events.pollout && msgbuf_can_in sb.snd;
    pollerr = events.pollerr && sb.epipe;
  })
]

-- The events that each entry is told, in order.
unfoldable pub emit_pollevents : Sockbase → Option (List (ℕ × Events))
emit_pollevents sb = elim (check_pollevents sb all_events) [
  | none ↦ none
  | some happened ↦ some (map (λ pb. (pb.id, meet happened pb.events)) sb.poll_entries)
]

-- What an operation does besides: the callbacks of the queue, what the pollers are told, and whether
-- the sleepers at the condition are woken.
pub record Effects : Type 0 where
  pub calls : List Event
  pub emits : List (ℕ × Events)
  pub woken : Bool

-- An operation up to its end, or up to the `condition_wait` that it falls asleep in.
pub data Turn {ℓ} (A : Type ℓ) : Type ℓ where
  waits : Sockbase → Turn A
  did : Sockbase → A → Effects → Turn A
  bug : Turn A

-- The call of `__emit_pollevents` at the end.
unfoldable pub finish {ℓ} : {A : Type ℓ} → Sockbase → A → List Event → Bool → Turn A
finish sb a calls woken = elim (emit_pollevents sb) [
  | none ↦ bug
  | some emits ↦ did sb a (record { calls = calls; emits = emits; woken = woken })
]

unfoldable pub snd_sleeps : Sockbase → Bool
snd_sleeps sb = not sb.epipe && (not (msgbuf_can_in sb.snd) && not sb.non_block)

-- `if (1 || …)`: the message is taken whatever the window says.
unfoldable pub snd_msgbuf_head_add : Sockbase → Msgbuf → Turn (Unit {0})
snd_msgbuf_head_add sb msg =
    if snd_sleeps sb
    then waits (record sb { snd = record sb.snd { waiters = add_int sb.snd.waiters 1 } })
    else elim (msgbuf_head_in sb.snd msg) [
      | none ↦ bug
      | some (bh, evs) ↦ finish (record sb { snd = bh }) tt evs false
    ]

-- `condition_wait` returns; the test of the loop is next.
unfoldable pub snd_woken : Sockbase → Sockbase
snd_woken sb = record sb { snd = record sb.snd { waiters = sub_int sb.snd.waiters 1 } }

unfoldable pub snd_popped : Sockbase → Popped → Turn (Option Msgbuf)
snd_popped sb (popped bh msg evs) =
    finish (record sb { snd = bh }) (some msg) evs (is_positive bh.waiters)
snd_popped sb fail = finish sb none [] false
snd_popped sb Popped.bug = bug

unfoldable pub snd_msgbuf_head_rm : Sockbase → Turn (Option Msgbuf)
snd_msgbuf_head_rm sb = snd_popped sb (msgbuf_head_out sb.snd)

unfoldable pub rcv_msgbuf_head_add : Sockbase → Msgbuf → Turn (Unit {0})
rcv_msgbuf_head_add sb msg = elim (msgbuf_head_in sb.rcv msg) [
  | none ↦ bug
  | some (bh, evs) ↦ finish (record sb { rcv = bh }) tt evs (is_positive bh.waiters)
]

unfoldable pub rcv_popped : Sockbase → Popped → Turn (Option Msgbuf)
rcv_popped sb (popped bh msg evs) = finish (record sb { rcv = bh }) (some msg) evs false
rcv_popped sb fail = finish sb none [] false
rcv_popped sb Popped.bug = bug

-- Whether the reader goes to sleep. The queue is looked at only if the connection stands.
unfoldable pub rcv_sleeps : Sockbase → Option Bool
rcv_sleeps sb =
    if sb.epipe
    then some false
    else elim (msgbuf_head_empty sb.rcv) [ none ↦ none | some e ↦ some (e && not sb.non_block) ]

unfoldable pub rcv_msgbuf_head_rm : Sockbase → Turn (Option Msgbuf)
rcv_msgbuf_head_rm sb = elim (rcv_sleeps sb) [
  | none ↦ bug
  | some true ↦ waits (record sb { rcv = record sb.rcv { waiters = add_int sb.rcv.waiters 1 } })
  | some false ↦ rcv_popped sb (msgbuf_head_out sb.rcv)
]

unfoldable pub rcv_woken : Sockbase → Sockbase
rcv_woken sb = record sb { rcv = record sb.rcv { waiters = sub_int sb.rcv.waiters 1 } }

pub data Received : Type 0 where
  received : Msgbuf → Received
  eagain epipe_lost : Received

abbrev pub recv_result : Bool → Option Msgbuf → Received
recv_result epipe none = if epipe then epipe_lost else eagain
recv_result epipe (some msg) = received msg

unfoldable pub xgeneric_recv : Sockbase → Turn Received
xgeneric_recv sb = elim (rcv_msgbuf_head_rm sb) [
  | waits sb' ↦ waits sb'
  | did sb' msg eff ↦ did sb' (recv_result sb'.epipe msg) eff
  | bug ↦ bug
]

-- At the socket that has no owner. The one that is accepted goes to the tail.
unfoldable pub acceptq_add : Sockbase → ℕ → Turn (Unit {0})
acceptq_add sb new =
    finish (record sb { acceptq_head = sb.acceptq_head ++ new ∷ [] }) tt []
      (no_fds sb.acceptq_head && is_positive sb.acceptq_waiters)

unfoldable pub acceptq_first : List ℕ → List ℕ × Option ℕ
acceptq_first [] = ([], none)
acceptq_first (fd ∷ fds) = (fds, some fd)

-- `none` is -1.
unfoldable pub acceptq_rm_nohup : Sockbase → Sockbase × Option ℕ
acceptq_rm_nohup sb =
    let (fds, new) = acceptq_first sb.acceptq_head in (record sb { acceptq_head = fds }, new)

unfoldable pub acceptq_rm : Sockbase → Turn (Option ℕ)
acceptq_rm sb =
    if no_fds sb.acceptq_head && not sb.non_block
    then waits (record sb { acceptq_waiters = add_int sb.acceptq_waiters 1 })
    else let (sb', new) = acceptq_rm_nohup sb in finish sb' new [] false

-- The first half of `__xclose`: the entries that are closed, and which sleepers are woken, at the
-- queues and at the accept queue.
unfoldable pub xclose : Sockbase → Sockbase × List ℕ × Bool × Bool
xclose sb = (
  record sb { epipe = true; poll_entries = [] },
  map (λ pb. pb.id) sb.poll_entries,
  not (sb.rcv.waiters == 0) || not (sb.snd.waiters == 0),
  not (sb.acceptq_waiters == 0),
)
