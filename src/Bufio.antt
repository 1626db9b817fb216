-- ===== src/Bufio.antt =====
-- src/utils/bufio.c and bufio.h: `struct bio`, a byte queue over a list of pages. The list of
-- pages is the kernel-style `page_head`, first page first. `mem_zalloc` can fail: `budget` is how
-- many more pages it will give. A loop of the source is a function of its own on fuel.
pub mod Pages
pub mod Contents
pub mod Stream
pub mod Reading
pub mod Writing
pub mod Io
use proxyio.Base.{
  ℕ, zero, suc, ◌+◌, ◌-◌, ◌%◌, ◌^◌, Bool, true, false, ◌||◌, ◌&&◌, not, List, [], ◌∷◌, ◌++◌, Option,
  none, some, ltb, ◌==◌, if◌then◌else◌, take, drop, length,
}
use Pages.{
  Page, sub_u64, bio_page_new, bio_page_empty, bio_page_full, bio_page_copy, bio_page_read,
  bio_page_write,
}

pub record Bio : Type 0 where
  pub bsize : ℕ
  pub pno : ℕ
  pub page_head : List Page

unfoldable pub bio_init : Bio
bio_init = record { bsize = 0; pno = 0; page_head = [] }

unfoldable pub bio_empty : Bio → Bool
bio_empty b = b.bsize == 0

-- Frees the pages and nothing else.
unfoldable pub bio_reset : Bio → Bio
bio_reset b = record b { page_head = [] }

unfoldable pub bio_last : List Page → Option Page
bio_last [] = none
bio_last (bp ∷ []) = some bp
bio_last (bp ∷ bq ∷ ps) = bio_last (bq ∷ ps)

unfoldable pub list_empty : List Page → Bool
list_empty [] = true
list_empty (bp ∷ ps) = false

-- A null `bio_last` is not read, since `||` stops at the empty list.
unfoldable pub is_time_to_expand : List Page → Bool
is_time_to_expand ps =
    list_empty ps || elim (bio_last ps) [ none ↦ true | some bp ↦ bio_page_full bp ]

-- `none` when no page can be allocated; else the budget that is left and the buffer.
unfoldable pub bio_expand_one_page : ℕ → Bio → Option (ℕ × Bio)
bio_expand_one_page zero b = none
bio_expand_one_page (suc budget) b =
    some (budget, record b { pno = b.pno + 1; page_head = b.page_head ++ bio_page_new ∷ [] })

unfoldable pub copy_loop : List Page → ℕ → ℕ → List ℕ → ℕ × List ℕ
copy_loop [] sz nbytes out = (nbytes, out)
copy_loop (bp ∷ ps) sz nbytes out =
    let bytes = bio_page_copy bp (sz - nbytes) in
    let n = nbytes + length bytes in
    let rest = copy_loop ps sz n (out ++ bytes) in if sz == n then (n, out ++ bytes) else rest

-- The number of bytes copied, and the bytes; the buffer stays.
unfoldable pub bio_copy : Bio → ℕ → ℕ × List ℕ
bio_copy b sz = copy_loop b.page_head sz 0 []

-- The pages that are left, the count and the bytes. A page that the read empties is freed.
unfoldable pub read_loop : ℕ → List Page → ℕ → ℕ → List ℕ → List Page × ℕ × List ℕ
read_loop zero ps sz nbytes out = (ps, nbytes, out)
read_loop (suc fuel) [] sz nbytes out = ([], nbytes, out)
read_loop (suc fuel) (bp ∷ ps) sz nbytes out =
    let (bq, bytes) = bio_page_read bp (sz - nbytes) in
    let left = if bio_page_empty bq then ps else bq ∷ ps in
    let rest = read_loop fuel left sz (nbytes + length bytes) (out ++ bytes) in
    if ltb nbytes sz then rest else (bp ∷ ps, nbytes, out)

-- Each round empties a page or ends the loop.
unfoldable pub bio_read : Bio → ℕ → Bio × ℕ × List ℕ
bio_read b sz =
    let (ps, nbytes, out) = read_loop (suc (length b.page_head)) b.page_head sz 0 [] in
    (record b { bsize = sub_u64 b.bsize nbytes; page_head = ps }, nbytes, out)

-- `bp = bio_last(b)` and `bio_page_write(bp, …)`. The list is not empty where the loop does this.
unfoldable pub write_last : List Page → List ℕ → ℕ → List Page × ℕ
write_last [] buff sz = ([], 0)
write_last (bp ∷ []) buff sz = let (bq, n) = bio_page_write bp buff sz in (bq ∷ [], n)
write_last (bp ∷ bq ∷ ps) buff sz = let (qs, n) = write_last (bq ∷ ps) buff sz in (bp ∷ qs, n)

-- `none` where the source leaves the loop because no page is to be had.
unfoldable pub make_room : ℕ → Bio → Option (ℕ × Bio)
make_room budget b =
    if is_time_to_expand b.page_head then bio_expand_one_page budget b else some (budget, b)

-- `rest` is `buff + nbytes`, of `sz - nbytes` bytes. Each round stores a byte at least.
unfoldable pub write_loop : ℕ → ℕ → Bio → List ℕ → ℕ → ℕ × Bio × ℕ
write_loop zero budget b rest nbytes = (budget, b, nbytes)
write_loop (suc fuel) budget b [] nbytes = (budget, b, nbytes)
write_loop (suc fuel) budget b (c ∷ cs) nbytes = elim (make_room budget b) [
  | none ↦ (budget, b, nbytes)
  | some (budget', b') ↦
      let (ps, n) = write_last b'.page_head (c ∷ cs) (length (c ∷ cs)) in
      write_loop fuel budget' (record b' { page_head = ps }) (drop n (c ∷ cs)) (nbytes + n)
]

-- The budget that is left, the buffer, and the number of bytes stored.
unfoldable pub bio_write : ℕ → Bio → List ℕ → ℕ × Bio × ℕ
bio_write budget b buff =
    let (budget', b', nbytes) = write_loop (length buff) budget b buff 0 in
    (budget', record b' { bsize = (b'.bsize + nbytes) % 2 ^ 64 }, nbytes)
