-- ===== src/Msgbuf.antt =====
-- src/msgbuf/msgbuf.c and msgbuf.h: a message is a tree, a frame with the messages that hang below
-- it. The pointers `item` and `cmsg_head` are the list of children. `crc16` of src/utils/crc16.c is
-- another project's code, and a parameter.
pub mod Frame
pub mod Tree
pub mod Ctl
pub mod Children
pub mod Copy
pub mod Send
pub mod Fragments
pub mod Ordered
pub mod Install
pub mod Parse
pub mod RoundTrip
pub mod Malformed
use proxyio.Base.{
  ℕ, zero, suc, ◌+◌, ◌-◌, ◌%◌, ◌^◌, Bool, true, false, List, [], ◌∷◌, ◌++◌, Option, none, some,
  length, replicate,
}
use Frame.{Msghdr, msghdr_size, msghdr_bytes, u32_bytes}

-- `soff` bytes of the frame are sent already. `ubase` is the memory behind the header.
mutual
  pub data Msgbuf : Type 0 where
    msgbuf : ℕ → Msghdr → List ℕ → Msgs → Msgbuf

  pub data Msgs : Type 0 where
    nil : Msgs
    cons : Msgbuf → Msgs → Msgs

abbrev pub soff : Msgbuf → ℕ
soff (msgbuf s h u cs) = s

abbrev pub frame : Msgbuf → Msghdr
frame (msgbuf s h u cs) = h

abbrev pub ubase : Msgbuf → List ℕ
ubase (msgbuf s h u cs) = u

abbrev pub cmsg_head : Msgbuf → Msgs
cmsg_head (msgbuf s h u cs) = cs

-- Arithmetic on `u32`.
abbrev pub add_u32 : ℕ → ℕ → ℕ
add_u32 a b = (a + b) % 2 ^ 32

abbrev pub sub_u32 : ℕ → ℕ → ℕ
sub_u32 a b = (a + 2 ^ 32 - b) % 2 ^ 32

abbrev pub msgbuf_len : Msgbuf → ℕ
msgbuf_len (msgbuf s h u cs) = add_u32 msghdr_size h.ulen

-- The frame with everything below it.
unfoldable mutual
  pub msgbuf_lens : Msgbuf → ℕ
  msgbuf_lens (msgbuf s h u cs) = lens_from (add_u32 msghdr_size h.ulen) cs

  pub lens_from : ℕ → Msgs → ℕ
  lens_from iovlen nil = iovlen
  lens_from iovlen (cons c cs) = lens_from (add_u32 iovlen (msgbuf_lens c)) cs

-- The memory from `&msg->frame` on.
abbrev pub msgbuf_base : Msgbuf → List ℕ
msgbuf_base (msgbuf s h u cs) = msghdr_bytes h ++ u

-- `allocated` says whether `mem_zalloc` succeeds. The checksum covers the size field only.
unfoldable pub msgbuf_alloc : (List ℕ → ℕ) → Bool → ℕ → Option Msgbuf
msgbuf_alloc crc16 false size = none
msgbuf_alloc crc16 true size = some (
    msgbuf 0
      (record { checksum = crc16 (u32_bytes size); cmsg_num = 0; cmsg_length = 0; ulen = size })
      (replicate size 0) nil)
