-- ===== src/Bufio/Contents.antt =====
-- What a page holds, the invariant of a page, and how the operations on one page act on both.
use proxyio.Base.{
  ℕ, ◌+◌, ◌-◌, ◌^◌, ◌≤◌, ◌<◌, min, ◌≡◌, refl, sym, ap, ap₂, ◌∙◌, false, List, [], ◌++◌, take, drop,
  length, arith, take-take, drop-take, drop-min-length, length-append, length-take, length-drop,
  length-replicate, take_all, take-append_left, take-append_right,
}
use proxyio.Bufio.Pages.{
  Page, page_size, sub_u64, copy_to, bio_page_new, bio_page_full, held, room, bio_page_copy,
  bio_page_read, bio_page_write,
}

-- The bytes between `start` and `end`.
abbrev pub page_bytes : Page → List ℕ
page_bytes p = take (p.end - p.start) (drop p.start p.page)

-- Between two calls a page starts at 0.
pub record IsPage (p : Page) : Type 0 where
  pub at_front : p.start ≡ 0
  pub in_page : p.end ≤ page_size
  pub memory : length p.page ≡ page_size

pub sub_u64_lem : (a b : ℕ) → b ≤ a → a < 2 ^ 64 → sub_u64 a b ≡ a - b
sub_u64_lem a b h k = omega arith

-- A copy inside the memory keeps the memory's length.
length-copy_to :
    (mem : List ℕ) (at : ℕ) (bytes : List ℕ)
    → at + length bytes ≤ length mem
    → length (copy_to mem at bytes) ≡ length mem
unfolding copy_to
length-copy_to mem at bytes h = omega (
  arith,
  length-append (take at mem) (bytes ++ drop (at + length bytes) mem),
  length-append bytes (drop (at + length bytes) mem),
  length-take at mem,
  length-drop (at + length bytes) mem,
)

-- The memory up to the end of a copy.
take-copy_to :
    (mem : List ℕ) (at : ℕ) (bytes : List ℕ)
    → at + length bytes ≤ length mem
    → take (at + length bytes) (copy_to mem at bytes) ≡ take at mem ++ bytes
unfolding copy_to
take-copy_to mem at bytes h =
    let l : length (take at mem) ≡ at = omega (arith, length-take at mem) in
    let e : at + length bytes - length (take at mem) ≡ length bytes = omega (arith, l) in
    rw
      (take-append_right (take at mem) (bytes ++ drop (at + length bytes) mem) (at + length bytes)
        (omega (arith, l)))
      (rw e (
        ap (λ x. take at mem ++ x)
          (take-append_left (length bytes) bytes (drop (at + length bytes) mem) (omega arith)
            ∙ take_all (length bytes) bytes (omega arith))))

pub page_bytes_front : (p : Page) → IsPage p → page_bytes p ≡ take p.end p.page
page_bytes_front p v =
    let e : p.end - 0 ≡ p.end = omega arith in rw (v.at_front) (ap (λ n. take n p.page) e)

pub length-page_bytes : (p : Page) → IsPage p → length (page_bytes p) ≡ p.end
length-page_bytes p v = omega (
  arith,
  v.at_front,
  v.in_page,
  v.memory,
  length-take (p.end - p.start) (drop p.start p.page),
  length-drop p.start p.page,
)

pub bio_page_new-IsPage : IsPage bio_page_new × (page_bytes bio_page_new ≡ [])
unfolding bio_page_new
bio_page_new-IsPage = (
  record { at_front = refl; in_page = omega arith; memory = length-replicate {A = ℕ} page_size 0 },
  refl,
)

pub bio_page_full_lem :
    (p : Page) → IsPage p → bio_page_full p ≡ false → length (page_bytes p) < page_size
unfolding bio_page_full
bio_page_full_lem p v h = ground (arith, length-page_bytes p v)

held_lem : (p : Page) (sz : ℕ) → IsPage p → held p sz ≡ min sz p.end
unfolding held
held_lem p sz v = ground arith

room_lem : (p : Page) (sz : ℕ) → IsPage p → room p sz ≡ min sz (page_size - p.end)
unfolding room
room_lem p sz v = ground arith

take-held :
    (p : Page) (sz : ℕ) → IsPage p → take (held p sz) (drop p.start p.page) ≡ take sz (page_bytes p)
take-held p sz v =
    let e : p.end - 0 ≡ p.end = omega arith in
    rw (held_lem p sz v, v.at_front, e, take-take sz p.end p.page)

-- A copy takes a prefix of what the page holds.
pub bio_page_copy_lem : (p : Page) (sz : ℕ) → IsPage p → bio_page_copy p sz ≡ take sz (page_bytes p)
unfolding bio_page_copy
bio_page_copy_lem p sz v = take-held p sz v

-- A read splits what the page holds.
pub bio_page_read_lem :
    (p : Page) (sz : ℕ)
    → IsPage p
    → let (q, bytes) = bio_page_read p sz in
      IsPage q × (bytes ≡ take sz (page_bytes p)) × (page_bytes q ≡ drop sz (page_bytes p))
unfolding bio_page_read
bio_page_read_lem p sz v = (
  record {
    at_front = refl;
    in_page = omega (arith, left);
    memory = length-copy_to p.page 0 moved (omega (arith, v.memory, left, length-moved)) ∙ v.memory;
  },
  take-held p sz v,
  rest,
)
  where
    n : ℕ
    n = held p sz

    left : sub_u64 p.end (p.start + n) ≡ p.end - n
    left = omega (arith, held_lem p sz v, v.at_front, v.in_page)

    moved : List ℕ
    moved = take (sub_u64 p.end (p.start + n)) (drop (p.start + n) p.page)

    length-moved : length moved ≡ p.end - n
    length-moved = omega (
      arith,
      left,
      v.at_front,
      v.in_page,
      v.memory,
      held_lem p sz v,
      length-take (sub_u64 p.end (p.start + n)) (drop (p.start + n) p.page),
      length-drop (p.start + n) p.page,
    )

    rest :
        take (sub_u64 p.end (p.start + n) - 0) (drop 0 (copy_to p.page 0 moved))
        ≡ drop sz (page_bytes p)
    rest =
        let l : sub_u64 p.end (p.start + n) - 0 ≡ 0 + length moved =
          omega (arith, left, length-moved) in
        let h : n ≡ min sz (length (page_bytes p)) =
          omega (arith, held_lem p sz v, length-page_bytes p v) in
        let k : p.start + n ≡ n = omega (arith, v.at_front) in
        ap (λ k. take k (copy_to p.page 0 moved)) l
        ∙ take-copy_to p.page 0 moved (omega (arith, length-moved, v.memory, v.in_page))
        ∙ ap₂ (λ a b. take a (drop b p.page)) left k
        ∙ sym (drop-take n p.end p.page)
        ∙ ap (drop n) (sym (page_bytes_front p v))
        ∙ ap (λ k. drop k (page_bytes p)) h
        ∙ drop-min-length sz (page_bytes p)

-- A write appends what there is room for.
pub bio_page_write_lem :
    (p : Page) (buff : List ℕ)
    → IsPage p
    → let (q, n) = bio_page_write p buff (length buff) in
      IsPage q
      × (n ≡ min (length buff) (page_size - length (page_bytes p)))
      × (page_bytes q ≡ page_bytes p ++ take n buff)
unfolding bio_page_write
bio_page_write_lem p buff v = (
  record {
    at_front = v.at_front;
    in_page = omega (arith, room_lem p (length buff) v, v.in_page);
    memory = length-copy_to p.page p.end stored fits ∙ v.memory;
  },
  omega (arith, room_lem p (length buff) v, length-page_bytes p v),
  whole,
)
  where
    n : ℕ
    n = room p (length buff)

    stored : List ℕ
    stored = take n buff

    length-stored : length stored ≡ n
    length-stored = omega (arith, length-take n buff, room_lem p (length buff) v)

    fits : p.end + length stored ≤ length p.page
    fits = omega (arith, length-stored, room_lem p (length buff) v, v.memory, v.in_page)

    whole :
        take (p.end + n - p.start) (drop p.start (copy_to p.page p.end stored))
        ≡ page_bytes p ++ stored
    whole =
        let e : p.end + n - p.start ≡ p.end + length stored =
          omega (arith, length-stored, v.at_front) in
        ap₂ (λ a b. take a (drop b (copy_to p.page p.end stored))) e v.at_front
        ∙ take-copy_to p.page p.end stored fits
        ∙ ap (λ x. x ++ stored) (sym (page_bytes_front p v))
