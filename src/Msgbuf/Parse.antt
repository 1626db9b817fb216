-- ===== src/Msgbuf/Parse.antt =====
-- src/msgbuf/msgbuf.c: `msgbuf_deserialize` takes one message with its children off a buffer. The
-- source does not test its allocations here, and they are taken to succeed. The recursion is on
-- fuel, which bounds how deep messages are nested.
use proxyio.Base.{
  ℕ, zero, suc, Bool, true, false, List, ◌++◌, Option, none, some, ltb, ◌==◌, if◌then◌else◌, drop,
  length,
}
use proxyio.Bufio.{Bio, bio_copy, bio_read}
use proxyio.Msgbuf.Frame.{Msghdr, msghdr_size, msghdr_of}
use proxyio.Msgbuf.{
  Msgbuf, msgbuf, nil, cons, frame, msgbuf_len, msgbuf_base, add_u32, msgbuf_alloc,
}
use proxyio.Msgbuf.Ctl.{append}

-- `again` is EAGAIN with the buffer as it was; `bug` is a BUG_ON, which aborts the process;
-- `spent` is the model's, for fuel that ran out.
pub data Outcome : Type 0 where
  done : Msgbuf → Bio → Outcome
  again bug spent : Outcome

-- The header at the front of the buffer.
unfoldable pub peek : Bio → Msghdr
peek b = msghdr_of (bio_copy b msghdr_size).1

unfoldable pub msgbuf_recv_finish : Bio → Bool
msgbuf_recv_finish b =
    if ltb b.bsize msghdr_size
    then false
    else if ltb b.bsize (add_u32 (add_u32 msghdr_size (peek b).ulen) (peek b).cmsg_length)
    then false
    else true

-- What was read lies over the front of the new frame.
unfoldable pub overlay : Msgbuf → List ℕ → Msgbuf
overlay m out =
    let mem = out ++ drop (length out) (msgbuf_base m) in
    msgbuf 0 (msghdr_of mem) (drop msghdr_size mem) nil

-- `none` is the result -1 or a BUG_ON; the caller aborts on either.
unfoldable pub extract_msgbuf : (List ℕ → ℕ) → Bio → Option (Msgbuf × Bio)
extract_msgbuf crc16 b = elim (msgbuf_alloc crc16 true (peek b).ulen) [
  | none ↦ none
  | some m ↦
      let (b', nbytes, out) = bio_read b (msgbuf_len m) in
      if ltb b.bsize (msgbuf_len m)
      then none
      else if nbytes == msgbuf_len m
      then some (overlay m out, b')
      else none
]

unfoldable pub add_tail : Msgbuf → Msgbuf → Msgbuf
add_tail (msgbuf s h u cs) c = msgbuf s h u (append cs (cons c nil))

-- `while (sno--)`, with the recursive call as a parameter.
unfoldable pub take_children : (Bio → Outcome) → ℕ → Msgbuf → Bio → Outcome
take_children deserialize zero msg b = done msg b
take_children deserialize (suc sno) msg b = elim (deserialize b) [
  | done s b' ↦ take_children deserialize sno (add_tail msg s) b'
  | again ↦ bug
  | bug ↦ bug
  | spent ↦ spent
]

unfoldable pub msgbuf_deserialize : (List ℕ → ℕ) → ℕ → Bio → Outcome
msgbuf_deserialize crc16 zero b = spent
msgbuf_deserialize crc16 (suc fuel) b =
    if msgbuf_recv_finish b
    then elim (extract_msgbuf crc16 b) [
      | none ↦ bug
      | some (msg, b') ↦ take_children (msgbuf_deserialize crc16 fuel) (frame msg).cmsg_num msg b'
    ]
    else again
