-- ===== src/Bufio/Pages.antt =====
-- src/utils/bufio.c and bufio.h: one page of a buffer, `bio_page_t`, and the functions on it. A
-- memory of `PAGE_SIZE` bytes is a list; a `memcpy` of n bytes to an offset is `copy_to`.
use proxyio.Base.{
  ℕ, ◌+◌, ◌-◌, ◌%◌, ◌^◌, Bool, List, ◌++◌, ltb, ◌==◌, if◌then◌else◌, take, drop, length, replicate,
}

abbrev pub page_size : ℕ
page_size = 4096

-- Subtraction on `uint64_t` wraps.
abbrev pub sub_u64 : ℕ → ℕ → ℕ
sub_u64 a b = (a + 2 ^ 64 - b) % 2 ^ 64

pub record Page : Type 0 where
  pub start : ℕ
  pub end : ℕ
  pub page : List ℕ

-- `memcpy (mem + at, bytes, length bytes)`.
unfoldable pub copy_to : List ℕ → ℕ → List ℕ → List ℕ
copy_to mem at bytes = take at mem ++ (bytes ++ drop (at + length bytes) mem)

-- `mem_zalloc` zeroes what it allocates.
unfoldable pub bio_page_new : Page
bio_page_new = record { start = 0; end = 0; page = replicate page_size 0 }

unfoldable pub bio_page_empty : Page → Bool
bio_page_empty bp = bp.end == bp.start

unfoldable pub bio_page_full : Page → Bool
bio_page_full bp = sub_u64 bp.end bp.start == page_size

-- How much a copy or a read of `sz` bytes moves: `sz`, or what the page holds.
unfoldable pub held : Page → ℕ → ℕ
held bp sz = if ltb sz (sub_u64 bp.end bp.start) then sz else sub_u64 bp.end bp.start

unfoldable pub bio_page_copy : Page → ℕ → List ℕ
bio_page_copy bp sz = take (held bp sz) (drop bp.start bp.page)

-- The page after the read, and the bytes read. The `memmove` brings the rest to the front.
unfoldable pub bio_page_read : Page → ℕ → Page × List ℕ
bio_page_read bp sz =
    let n = held bp sz in
    let from = bp.start + n in
    let left = sub_u64 bp.end from in
    (
      record { start = 0; end = left; page = copy_to bp.page 0 (take left (drop from bp.page)) },
      take n (drop bp.start bp.page),
    )

-- How much a write of `sz` bytes stores: `sz`, or the room that is left.
unfoldable pub room : Page → ℕ → ℕ
room bp sz =
    let free = sub_u64 page_size (sub_u64 bp.end bp.start) in if ltb sz free then sz else free

-- The page after the write of `buff[0..sz)`, and how many bytes of it were stored.
unfoldable pub bio_page_write : Page → List ℕ → ℕ → Page × ℕ
bio_page_write bp buff sz =
    let n = room bp sz in
    (record bp { end = bp.end + n; page = copy_to bp.page bp.end (take n buff) }, n)
