-- ===== src/Tests/Buffers.antt =====
-- Buffers at concrete inputs.
use proxyio.Base.{
  ℕ, ◌-◌, ◌≤◌, ◌≡◌, refl, sym, ap, subst, ◌⊎◌, Bool, false, List, [], ◌∷◌, ◌++◌, some, take, drop,
  length, arith,
}
use proxyio.Bufio.{
  Bio, bio_read, bio_write, write_loop, make_room, is_time_to_expand, list_empty, bio_last,
  write_last,
}
use proxyio.Bufio.Pages.{bio_page_full, bio_page_write, room}
use proxyio.Bufio.Stream.{contents, IsBio}
use proxyio.Bufio.Reading.{bio_read_lem}
use proxyio.Bufio.Writing.{bio_write_lem}
use proxyio.Bufio.Io.{prefetch_loop, flush_result, bio_flush, bio_flush_lem, bio_prefetch, Answers}
use proxyio.Tests.Samples.{bio_of, contents-bio_of, bio_of-IsBio}

abbrev some_bytes : List ℕ
some_bytes = 1 ∷ 2 ∷ 3 ∷ 4 ∷ 5 ∷ []

some_bytes-IsBio : IsBio (bio_of some_bytes)
some_bytes-IsBio = bio_of-IsBio some_bytes (omega arith)

bio_read_lem_example :
    let (b', n, out) = bio_read (bio_of some_bytes) 2 in
    IsBio b'
    × (n ≡ length out)
    × (out ≡ take 2 (contents (bio_of some_bytes)))
    × (contents b' ≡ drop 2 (contents (bio_of some_bytes)))
bio_read_lem_example = bio_read_lem (bio_of some_bytes) 2 some_bytes-IsBio

bio_write_lem_example :
    let (budget', b', n) = bio_write 3 (bio_of some_bytes) some_bytes in
    IsBio b'
    × (n ≤ length some_bytes)
    × (contents b' ≡ contents (bio_of some_bytes) ++ take n some_bytes)
    × ((n ≡ length some_bytes) ⊎ (budget' ≡ 0))
    × (budget' ≤ 3)
bio_write_lem_example =
    bio_write_lem 3 (bio_of some_bytes) some_bytes some_bytes-IsBio (omega arith)

-- The peer takes two bytes, then three.
some_bytes-Answers : Answers (2 ∷ 3 ∷ []) (length (contents (bio_of some_bytes)))
some_bytes-Answers =
    subst (λ n. Answers (2 ∷ 3 ∷ []) n) (ap (length {A = ℕ}) (sym (contents-bio_of some_bytes)))
      (omega arith, omega arith, (omega arith, omega arith, tt))

bio_flush_lem_example :
    (b' : Bio) × (sent : List ℕ) × (failed : Bool) × (bio_flush
        (bio_of some_bytes)
        (2 ∷ 3 ∷ [])
        false
      ≡ some (
        b',
        sent,
        flush_result failed false (length (contents (bio_of some_bytes)) - length (contents b')),
      ))
    × IsBio b'
    × (sent ++ contents b' ≡ contents (bio_of some_bytes))
bio_flush_lem_example =
    bio_flush_lem (bio_of some_bytes) (2 ∷ 3 ∷ []) false some_bytes-IsBio some_bytes-Answers

abbrev deliveries : List (List ℕ)
deliveries = (6 ∷ 7 ∷ []) ∷ []

-- There is room in the page, and no other page is taken.
some_bytes-budget : (bio_prefetch 3 (bio_of some_bytes) deliveries false).0 ≡ 3
unfolding bio_prefetch prefetch_loop bio_write write_loop make_room is_time_to_expand list_empty
    bio_last bio_page_full write_last bio_page_write room
some_bytes-budget = refl
