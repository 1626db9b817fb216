-- ===== src/Ev/Efd.antt =====
-- src/utils/efd.c: a pipe that makes a poll return. The pipe is the kernel's, a parameter: what it
-- holds is only counted, since nobody looks at the bytes. The `int64_t` is a
-- bit pattern.
pub mod Draining
use proxyio.Base.{
  ℕ, zero, suc, ◌+◌, ◌-◌, ◌*◌, ◌/◌, ◌%◌, ◌^◌, ◌≤◌, ◌<◌, ◌≡◌, min, List, [], ◌∷◌, Option, none, some,
  ltb, ◌==◌, if◌then◌else◌,
}
use proxyio.MsgbufHead.{is_positive}

-- The two ends of a non-blocking pipe. `none` is EAGAIN, else the number of bytes moved.
pub record Pipe (P : Type 0) : Type 0 where
  pub unread : P → ℕ
  pub capacity : ℕ
  pub write : P → ℕ → Option (P × ℕ)
  pub read : P → ℕ → Option (P × ℕ)

-- What pipe(7) documents: a small write is atomic while there is room, a read takes what there is.
pub record IsPipe {P : Type 0} (pipe : Pipe P) : Type 0 where
  pub writes :
      (p : P) (n : ℕ)
      → 0 < n
      → n ≤ 512
      → pipe.unread p + n ≤ pipe.capacity
      → (q : P) × (pipe.write p n ≡ some (q, n)) × (pipe.unread q ≡ pipe.unread p + n)
  pub reads :
      (p : P) (n : ℕ)
      → 0 < n
      → 0 < pipe.unread p
      → (q : P) × (pipe.read p n ≡ some (q, min n (pipe.unread p)))
        × (pipe.unread q ≡ pipe.unread p - min n (pipe.unread p))
  pub read_none : (p : P) (n : ℕ) → 0 < n → pipe.unread p ≡ 0 → pipe.read p n ≡ none

pub record Efd (P : Type 0) : Type 0 where
  pub pipe : P
  pub unsignal_size : ℕ

-- A call still spins when its fuel is used up, or meets a BUG_ON, or returns.
pub data Run {ℓ} (A : Type ℓ) : Type ℓ where
  spins bug : Run A
  gives : A → Run A

module _ {P : Type 0} (pipe : Pipe P) where
  -- `nbytes` of the four bytes are written.
  unfoldable pub signal_loop : ℕ → P → ℕ → Run (P × ℕ)
  signal_loop zero w nbytes = spins
  signal_loop (suc fuel) w nbytes =
      if ltb nbytes 4
      then elim (pipe.write w (4 - nbytes)) [
        | none ↦ signal_loop fuel w nbytes
        | some (w', rc) ↦ signal_loop fuel w' (nbytes + rc)
      ]
      else gives (w, nbytes)

  -- `none` is EINVAL.
  unfoldable pub efd_signal : ℕ → Efd P → ℕ → Run (Option (Efd P))
  efd_signal fuel self signo =
      if is_positive signo
      then elim (signal_loop fuel self.pipe 0) [
        | gives (w, nbytes) ↦
            gives
              (some (record { pipe = w; unsignal_size = (self.unsignal_size + nbytes) % 2 ^ 64 }))
        | bug ↦ bug
        | spins ↦ spins
      ]
      else gives none

  unfoldable pub unsignal_loop : ℕ → Efd P → ℕ → ℕ → Run (Efd P × ℕ)
  unsignal_loop zero self size nbytes = spins
  unsignal_loop (suc fuel) self size nbytes =
      if ltb nbytes size
      then elim (pipe.read self.pipe (size - nbytes)) [
        | none ↦
            let again = unsignal_loop fuel self size nbytes in
            if nbytes % 4 == 0 then gives (self, nbytes) else again
        | some (r, rc) ↦
            unsignal_loop fuel
              (record { pipe = r; unsignal_size = (self.unsignal_size + 2 ^ 64 - rc) % 2 ^ 64 })
              size (nbytes + rc)
      ]
      else gives (self, nbytes)

  -- How many whole `int`s there were, at most `size`.
  unfoldable pub efd_unsignal2 : ℕ → Efd P → ℕ → Run (Efd P × ℕ)
  efd_unsignal2 fuel self size = elim (unsignal_loop fuel self (4 * size) 0) [
    | gives (self', nbytes) ↦ if nbytes % 4 == 0 then gives (self', nbytes / 4) else bug
    | bug ↦ bug
    | spins ↦ spins
  ]

  unfoldable pub efd_unsignal : ℕ → Efd P → Run (Efd P)
  efd_unsignal fuel self = elim (efd_unsignal2 fuel self 1) [
    | gives (self', rc) ↦ gives self'
    | bug ↦ bug
    | spins ↦ spins
  ]
