-- ===== src/Msgbuf/Frame.antt =====
-- src/msgbuf/msgbuf.h: `struct msghdr`, the eight bytes before the body of a message, and its place
-- in memory: little endian, the bit field `cmsg_num` in the low four bits of its `u16`.
use proxyio.Base.{
  ℕ, zero, suc, ◌+◌, ◌*◌, ◌/◌, ◌%◌, ◌^◌, ◌<◌, ◌≡◌, refl, List, [], ◌∷◌, ◌++◌, arith, length,
}

pub record Msghdr : Type 0 where
  pub checksum : ℕ
  pub cmsg_num : ℕ
  pub cmsg_length : ℕ
  pub ulen : ℕ

-- `sizeof (struct msghdr)`; the array `ubase[0]` takes no room.
abbrev pub msghdr_size : ℕ
msghdr_size = 8

abbrev pub subnummark : ℕ
subnummark = 0xf

abbrev pub cmsglenmark : ℕ
cmsglenmark = 0xfff

unfoldable pub u16_bytes : ℕ → List ℕ
u16_bytes n = n % 256 ∷ n / 256 % 256 ∷ []

unfoldable pub u32_bytes : ℕ → List ℕ
u32_bytes n = n % 256 ∷ n / 256 % 256 ∷ n / 65536 % 256 ∷ n / 16777216 % 256 ∷ []

-- The header as it lies in memory.
unfoldable pub msghdr_bytes : Msghdr → List ℕ
unfolding u16_bytes u32_bytes
msghdr_bytes h =
    u16_bytes h.checksum ++ (u16_bytes (h.cmsg_num + h.cmsg_length * 16) ++ u32_bytes h.ulen)

-- The byte at an offset; memory that was not written is zero.
abbrev pub byte : List ℕ → ℕ → ℕ
byte [] i = 0
byte (c ∷ cs) zero = c
byte (c ∷ cs) (suc i) = byte cs i

-- The header that lies at the front of a memory.
unfoldable pub msghdr_of : List ℕ → Msghdr
msghdr_of mem =
    let counts = byte mem 2 + byte mem 3 * 256 in
    record {
      checksum = byte mem 0 + byte mem 1 * 256;
      cmsg_num = counts % 16;
      cmsg_length = counts / 16;
      ulen = byte mem 4 + byte mem 5 * 256 + byte mem 6 * 65536 + byte mem 7 * 16777216;
    }

-- Each field fits its width.
pub record IsMsghdr (h : Msghdr) : Type 0 where
  pub checksum_fits : h.checksum < 2 ^ 16
  pub cmsg_num_fits : h.cmsg_num < 2 ^ 4
  pub cmsg_length_fits : h.cmsg_length < 2 ^ 12
  pub ulen_fits : h.ulen < 2 ^ 32

pub length-msghdr_bytes : (h : Msghdr) → length (msghdr_bytes h) ≡ msghdr_size
unfolding msghdr_bytes
length-msghdr_bytes h = refl

-- What was laid down is read back.
pub msghdr_of-msghdr_bytes :
    (h : Msghdr) (rest : List ℕ) → IsMsghdr h → msghdr_of (msghdr_bytes h ++ rest) ≡ h
unfolding msghdr_of msghdr_bytes
msghdr_of-msghdr_bytes h rest v = ground arith
