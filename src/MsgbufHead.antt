-- ===== src/MsgbufHead.antt =====
-- src/msgbuf/msgbuf_head.c and msgbuf_head.h: a queue of messages with a window. The callbacks of
-- `struct msgbuf_vfptr` belong to the queue's owner: an operation returns the list of those that it
-- calls, in order. An `int` is its bit pattern, below 2 ^ 32.
pub mod Order
pub mod Sending
pub mod Offering
pub mod Installed
use proxyio.Base.{
  ℕ, zero, suc, ◌+◌, ◌-◌, ◌%◌, ◌^◌, Bool, true, false, ◌&&◌, ◌||◌, List, [], ◌∷◌, ◌++◌, Option,
  none, some, ltb, leb, ◌==◌, if◌then◌else◌, length,
}
use proxyio.Msgbuf.{Msgbuf, Msgs, frame}
use proxyio.Msgbuf.Ctl.{usize}
use proxyio.Msgbuf.Send.{RexIov, msgbuf_serialize, msgbuf_install_iovs}

pub data Event : Type 0 where
  add rm empty nonempty full nonfull : Event

-- Which callbacks are set. `ev_hndl == 0` is the record of no callbacks.
pub record MsgbufVfptr : Type 0 where
  pub has_add : Bool
  pub has_rm : Bool
  pub has_empty : Bool
  pub has_nonempty : Bool
  pub has_full : Bool
  pub has_nonfull : Bool

pub record MsgbufHead : Type 0 where
  pub ev_hndl : MsgbufVfptr
  pub wnd : ℕ
  pub size : ℕ
  pub waiters : ℕ
  pub head : List Msgbuf

-- `int` arithmetic on bit patterns, and the tests `n > 0` and `a < b` on the values.
abbrev pub add_int : ℕ → ℕ → ℕ
add_int a b = (a + b) % 2 ^ 32

abbrev pub sub_int : ℕ → ℕ → ℕ
sub_int a b = (a + 2 ^ 32 - b) % 2 ^ 32

abbrev pub is_positive : ℕ → Bool
is_positive n = ltb 0 n && ltb n (2 ^ 31)

abbrev pub less_int : ℕ → ℕ → Bool
less_int a b = ltb ((a + 2 ^ 31) % 2 ^ 32) ((b + 2 ^ 31) % 2 ^ 32)

abbrev pub no_callbacks : MsgbufVfptr
no_callbacks = record {
  has_add = false;
  has_rm = false;
  has_empty = false;
  has_nonempty = false;
  has_full = false;
  has_nonfull = false;
}

unfoldable pub msgbuf_head_init : ℕ → MsgbufHead
msgbuf_head_init wnd = record {
  ev_hndl = no_callbacks;
  wnd = wnd;
  size = 0;
  waiters = 0;
  head = [];
}

unfoldable pub msgbuf_head_ev_hndl : MsgbufHead → MsgbufVfptr → MsgbufHead
msgbuf_head_ev_hndl bh ev_hndl = record bh { ev_hndl = ev_hndl }

abbrev pub is_empty : List Msgbuf → Bool
is_empty [] = true
is_empty (m ∷ ms) = false

-- `none` is the BUG_ON: no message, and yet a size.
unfoldable pub msgbuf_head_empty : MsgbufHead → Option Bool
msgbuf_head_empty bh =
    if is_empty bh.head then (if bh.size == 0 then some true else none) else some false

abbrev pub call : Bool → Event → List Event
call set ev = if set then ev ∷ [] else []

-- What the pop of the first message does behind `list_del_init`: the new size, then `rm`, then
-- `nonfull` and `empty` if they apply.
unfoldable pub out_first :
    MsgbufHead → Msgbuf → List Msgbuf → Option (MsgbufHead × Msgbuf × List Event)
out_first bh msg ms =
    let bh' = record bh { size = sub_int bh.size (usize msg); head = ms } in
    let nonfulls = call (bh.ev_hndl.has_nonfull && is_positive (sub_int bh.wnd bh'.size)) nonfull in
    let calls = call bh.ev_hndl.has_rm rm ++ nonfulls in
    if bh.ev_hndl.has_empty
    then elim (msgbuf_head_empty bh') [
      | none ↦ none
      | some e ↦ some (bh', msg, calls ++ call e empty)
    ]
    else some (bh', msg, calls)

-- What an operation returns: `fail` is -1, and `bug` is a BUG_ON, which aborts.
pub data Popped : Type 0 where
  popped : MsgbufHead → Msgbuf → List Event → Popped
  fail bug : Popped

unfoldable pub out_from : MsgbufHead → List Msgbuf → Popped
out_from bh [] = if bh.size == 0 then fail else bug
out_from bh (msg ∷ ms) = elim (out_first bh msg ms) [
  | none ↦ bug
  | some (bh', m, evs) ↦ popped bh' m evs
]

unfoldable pub msgbuf_head_out : MsgbufHead → Popped
msgbuf_head_out bh = out_from bh bh.head

-- `none` is the BUG_ON. The message goes to the tail, whatever the window says.
unfoldable pub msgbuf_head_in : MsgbufHead → Msgbuf → Option (MsgbufHead × List Event)
msgbuf_head_in bh msg =
    let bh' = record bh { size = add_int bh.size (usize msg); head = bh.head ++ msg ∷ [] } in
    let fulls =
      call (bh.ev_hndl.has_full && (if is_positive (sub_int bh.wnd bh'.size) then false else true))
        full in
    let calls = call bh.ev_hndl.has_add add ++ fulls in
    if bh.ev_hndl.has_nonempty
    then elim (msgbuf_head_empty bh) [ none ↦ none | some e ↦ some (bh', call e nonempty ++ calls) ]
    else some (bh', calls)

-- One message at least can always be pushed.
unfoldable pub msgbuf_can_in : MsgbufHead → Bool
msgbuf_can_in bh = is_empty bh.head || less_int bh.size bh.wnd

-- Entries for the messages of the queue, until the array is full.
unfoldable pub preinstall_walk : List Msgbuf → ℕ → List RexIov
preinstall_walk [] n = []
preinstall_walk (m ∷ ms) n =
    let got = msgbuf_serialize m n in
    let rest = preinstall_walk ms (n - length got) in if length got == n then got else got ++ rest

unfoldable pub msgbuf_head_preinstall_iovs : MsgbufHead → ℕ → List RexIov
msgbuf_head_preinstall_iovs bh n = preinstall_walk bh.head n

-- The messages with their new offsets, and how many of them are wholly sent.
unfoldable pub install_walk : List Msgbuf → ℕ → List Msgbuf × ℕ
install_walk [] len = ([], 0)
install_walk (m ∷ ms) len =
    let (m', left, done) = msgbuf_install_iovs m len in
    let (ms', n) = install_walk ms left in
    let one = if done then 1 else 0 in if left == 0 then (m' ∷ ms, one) else (m' ∷ ms', one + n)

unfoldable pub msgbuf_head_install_iovs : MsgbufHead → ℕ → MsgbufHead × ℕ
msgbuf_head_install_iovs bh len =
    let (ms, n) = install_walk bh.head len in (record bh { head = ms }, n)
