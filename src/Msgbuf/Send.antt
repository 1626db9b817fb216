-- ===== src/Msgbuf/Send.antt =====
-- src/msgbuf/msgbuf.c: `msgbuf_serialize` fills an array of `struct rex_iov` from a message, and
-- `msgbuf_install_iovs` records how many bytes the network took.
use proxyio.Base.{ℕ, ◌+◌, ◌-◌, Bool, List, [], ◌∷◌, ◌++◌, drop, length, ltb, ◌==◌, if◌then◌else◌}
use proxyio.Msgbuf.Frame.{Msghdr, msghdr_size, msghdr_bytes}
use proxyio.Msgbuf.{Msgbuf, msgbuf, Msgs, nil, cons, frame, msgbuf_len, add_u32, sub_u32}

-- `iov_base` is the memory from the pointer on; `iov_len` bytes of it count.
pub record RexIov : Type 0 where
  pub iov_base : List ℕ
  pub iov_len : ℕ

-- The entry for the frame itself; it counts when it is not empty.
unfoldable pub own_iov : ℕ → Msghdr → List ℕ → List RexIov
own_iov s h u =
    let len = sub_u32 (add_u32 msghdr_size h.ulen) s in
    if ltb 0 len then record { iov_base = drop s (msghdr_bytes h ++ u); iov_len = len } ∷ [] else []

-- The entries that are installed in an array with room for `n`; their number is the result.
unfoldable mutual
  pub msgbuf_serialize : Msgbuf → ℕ → List RexIov
  msgbuf_serialize (msgbuf s h u cs) n =
      let own = own_iov s h u in
      let rest = serialize_children cs (n - length own) in if n == 0 then [] else own ++ rest

  pub serialize_children : Msgs → ℕ → List RexIov
  serialize_children nil n = []
  serialize_children (cons c cs) n =
      let got = msgbuf_serialize c n in
      let rest = serialize_children cs (n - length got) in
      if length got == n then got else got ++ rest

-- The message with its new offsets, the length that is left, and the sum of the offsets.
unfoldable mutual
  pub install : Msgbuf → ℕ → Msgbuf × ℕ × ℕ
  install (msgbuf s h u cs) len =
      let avail = sub_u32 (add_u32 msghdr_size h.ulen) s in
      let diff = if ltb avail len then avail else len in
      let soff' = add_u32 s diff in
      let (cs', left, installed) = install_children cs (len - diff) in
      if len - diff == 0
      then (msgbuf soff' h u cs, 0, soff')
      else (msgbuf soff' h u cs', left, soff' + installed)

  pub install_children : Msgs → ℕ → Msgs × ℕ × ℕ
  install_children nil len = (nil, len, 0)
  install_children (cons c cs) len =
      let (c', left, installed) = install c len in
      let (cs', left', installed') = install_children cs left in
      if left == 0 then (cons c' cs, 0, installed) else (cons c' cs', left', installed + installed')

-- The message, the length that is left, and whether the whole of it is sent (the result 0).
unfoldable pub msgbuf_install_iovs : Msgbuf → ℕ → Msgbuf × ℕ × Bool
msgbuf_install_iovs m len =
    let (m', left, installed) = install m len in
    (m', left, installed == add_u32 (msgbuf_len m) (frame m).cmsg_length)
