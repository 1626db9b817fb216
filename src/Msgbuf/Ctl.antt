-- ===== src/Msgbuf/Ctl.antt =====
-- src/msgbuf/msgbuf.c: the `sub_msgbuf_…` functions behind `uctl`, and `clone_ubuf` of
-- src/sp/sp_module.h. A pointer to a child is its place among the children. An allocation that the
-- source does not check is taken to succeed.
use proxyio.Base.{
  ℕ, zero, suc, ◌+◌, ◌-◌, ◌%◌, ◌^◌, true, ◌||◌, Option, none, some, ltb, ◌==◌, take, if◌then◌else◌,
  List,
}
use proxyio.Msgbuf.Frame.{subnummark, cmsglenmark}
use proxyio.Msgbuf.{
  Msgbuf, msgbuf, Msgs, nil, cons, frame, cmsg_head, ubase, msgbuf_lens, add_u32, msgbuf_alloc,
}

abbrev pub append : Msgs → Msgs → Msgs
append nil ds = ds
append (cons c cs) ds = cons c (append cs ds)

abbrev pub child_at : Msgs → ℕ → Option Msgbuf
child_at nil i = none
child_at (cons c cs) zero = some c
child_at (cons c cs) (suc i) = child_at cs i

abbrev pub remove_at : Msgs → ℕ → Msgs
remove_at nil i = nil
remove_at (cons c cs) zero = cs
remove_at (cons c cs) (suc i) = cons c (remove_at cs i)

abbrev pub last_child : Msgs → Option Msgbuf
last_child nil = none
last_child (cons c nil) = some c
last_child (cons c (cons d ds)) = last_child (cons d ds)

-- `usize`.
abbrev pub usize : Msgbuf → ℕ
usize m = (frame m).ulen

unfoldable pub sub_msgbuf_num : Msgbuf → ℕ
sub_msgbuf_num m = (frame m).cmsg_num

-- `none` is -1, here and below.
unfoldable pub sub_msgbuf_first : Msgbuf → Option Msgbuf
sub_msgbuf_first m = child_at (cmsg_head m) 0

unfoldable pub sub_msgbuf_next : Msgbuf → ℕ → Option Msgbuf
sub_msgbuf_next m i = child_at (cmsg_head m) (i + 1)

unfoldable pub sub_msgbuf_tail : Msgbuf → Option Msgbuf
sub_msgbuf_tail m = last_child (cmsg_head m)

-- `none` is EFBIG. The counts are bit fields of four and of twelve bits.
unfoldable pub sub_msgbuf_add : Msgbuf → Msgbuf → Option Msgbuf
sub_msgbuf_add (msgbuf s h u cs) new =
    if h.cmsg_num == subnummark || ltb cmsglenmark (add_u32 h.cmsg_length (msgbuf_lens new))
    then none
    else some (
        msgbuf s
          (record h {
            cmsg_num = (h.cmsg_num + 1) % 2 ^ 4;
            cmsg_length = (h.cmsg_length + msgbuf_lens new) % 2 ^ 12;
          })
          u (append cs (cons new nil)))

-- The message without the child, and the child; `none` where the place names no child.
unfoldable pub sub_msgbuf_rm : Msgbuf → ℕ → Option (Msgbuf × Msgbuf)
sub_msgbuf_rm (msgbuf s h u cs) i = elim (child_at cs i) [
  | none ↦ none
  | some rm ↦ some (
    msgbuf s
        (record h {
          cmsg_num = (h.cmsg_num + 2 ^ 4 - 1) % 2 ^ 4;
          cmsg_length = (h.cmsg_length + 2 ^ 32 - msgbuf_lens rm) % 2 ^ 12;
        })
        u (remove_at cs i),
    rm,
  )
]

-- Source and destination after the move. `list_splice` puts the moved ones in front.
unfoldable pub sub_msgbuf_switch : Msgbuf → Msgbuf → Msgbuf × Msgbuf
sub_msgbuf_switch (msgbuf s h u cs) (msgbuf t k w ds) = (
  msgbuf s (record h { cmsg_num = 0; cmsg_length = 0 }) u nil,
  msgbuf t (record k { cmsg_num = h.cmsg_num; cmsg_length = h.cmsg_length }) w (append cs ds),
)

module _ (crc16 : List ℕ → ℕ) where
  -- `ualloc (usize (ubuf))` and the `memcpy` of the body.
  unfoldable pub ubufdup : Msgbuf → Msgbuf
  ubufdup m = elim (msgbuf_alloc crc16 true (usize m)) [
    | none ↦ m
    | some (msgbuf s h u cs) ↦ msgbuf s h (take (usize m) (ubase m)) cs
  ]

  -- A child that does not fit is dropped, and the copy goes on.
  unfoldable pub copy_children : Msgs → Msgbuf → Msgbuf
  copy_children nil dest = dest
  copy_children (cons c cs) dest =
      copy_children cs (elim (sub_msgbuf_add dest (ubufdup c)) [ none ↦ dest | some d ↦ d ])

  unfoldable pub sub_msgbuf_copy : Msgbuf → Msgbuf → Msgbuf
  sub_msgbuf_copy src dest = copy_children (cmsg_head src) dest

  unfoldable pub clone_ubuf : Msgbuf → Msgbuf
  clone_ubuf src = sub_msgbuf_copy src (ubufdup src)

-- `msgbuf_vfptr` of `uctl`: the entries 1 to 8 are functions, entry 0 is a null pointer that is
-- called all the same, and any other number is refused with EINVAL. A negative `opt` is at least
-- 2 ^ 31 as a bit pattern.
pub data Handler : Type 0 where
  num first next tail add rm switch copy : Handler

pub data Dispatch : Type 0 where
  einval null_call : Dispatch
  handled : Handler → Dispatch

unfoldable pub uctl : ℕ → Dispatch
uctl opt =
    if opt == 0
    then null_call
    else if opt == 1
    then handled num
    else if opt == 2
    then handled first
    else if opt == 3
    then handled next
    else if opt == 4
    then handled tail
    else if opt == 5
    then handled add
    else if opt == 6
    then handled rm
    else if opt == 7
    then handled switch
    else if opt == 8
    then handled copy
    else einval
