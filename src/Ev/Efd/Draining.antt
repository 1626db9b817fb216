-- ===== src/Ev/Efd/Draining.antt =====
-- What the calls of an efd do to a pipe that has room, and to one that holds whole `int`s.
use proxyio.Base.{
  ℕ, suc, ◌+◌, ◌-◌, ◌*◌, ◌/◌, ◌%◌, ◌^◌, ◌≤◌, ◌<◌, ◌≡◌, refl, ap, ◌∙◌, min, some, inl, inr, ltb,
  ◌==◌, true, false, Bool-cases, arith,
}
use proxyio.Ev.Efd.{Pipe, IsPipe, Efd, gives, signal_loop, efd_signal, unsignal_loop, efd_unsignal2}

module _ {P : Type 0} (pipe : Pipe P) (v : IsPipe pipe) where
  -- With room for four bytes, a signal writes them at once.
  pub efd_signal_lem :
      (fuel : ℕ) (e : Efd P)
      → pipe.unread e.pipe + 4 ≤ pipe.capacity
      → (e' : Efd P) × (efd_signal pipe (suc (suc fuel)) e 1 ≡ gives (some e'))
        × (pipe.unread e'.pipe ≡ pipe.unread e.pipe + 4)
  unfolding efd_signal signal_loop
  efd_signal_lem fuel e room =
      let (q, w, u) = v.writes e.pipe 4 (omega arith) (omega arith) room in
      (
        record { pipe = q; unsignal_size = (e.unsignal_size + 4) % 2 ^ 64 },
        rw (w, signal_loop) refl,
        u,
      )

  -- One round of reading, on a pipe that holds something.
  unsignal_round :
      (fuel : ℕ) (e : Efd P) (size nbytes : ℕ)
      → nbytes < size
      → 0 < pipe.unread e.pipe
      → (e' : Efd P) × (unsignal_loop pipe (suc fuel) e size nbytes
          ≡ unsignal_loop pipe fuel e' size (nbytes + min (size - nbytes) (pipe.unread e.pipe)))
        × (pipe.unread e'.pipe ≡ pipe.unread e.pipe - min (size - nbytes) (pipe.unread e.pipe))
  unfolding unsignal_loop
  unsignal_round fuel e size nbytes h held =
      let (q, r, u) = v.reads e.pipe (size - nbytes) (omega (arith, h)) held in
      (
        record {
          pipe = q;
          unsignal_size =
              (e.unsignal_size + 2 ^ 64 - min (size - nbytes) (pipe.unread e.pipe)) % 2 ^ 64;
        },
        rw (within, r, unsignal_loop) refl,
        u,
      )
    where
      within : ltb nbytes size ≡ true
      within = ground (arith, h)

  -- The loop stops on the empty pipe, and when it has all that was asked for.
  unsignal_empty :
      (fuel : ℕ) (e : Efd P) (size nbytes : ℕ)
      → nbytes < size
      → pipe.unread e.pipe ≡ 0
      → nbytes % 4 ≡ 0
      → unsignal_loop pipe (suc fuel) e size nbytes ≡ gives (e, nbytes)
  unfolding unsignal_loop
  unsignal_empty fuel e size nbytes h none_left whole =
      rw (within, v.read_none e.pipe (size - nbytes) (omega (arith, h)) none_left, aligned) refl
    where
      within : ltb nbytes size ≡ true
      within = ground (arith, h)

      aligned : (nbytes % 4 == 0) ≡ true
      aligned = ground (arith, whole)

  unsignal_full :
      (fuel : ℕ) (e : Efd P) (size nbytes : ℕ)
      → size ≤ nbytes
      → unsignal_loop pipe (suc fuel) e size nbytes ≡ gives (e, nbytes)
  unfolding unsignal_loop
  unsignal_full fuel e size nbytes h = rw over refl
    where
      over : ltb nbytes size ≡ false
      over = ground (arith, h)

  whole_words :
      (fuel : ℕ) (e e' : Efd P) (size nbytes : ℕ)
      → unsignal_loop pipe fuel e (4 * size) 0 ≡ gives (e', nbytes)
      → nbytes % 4 ≡ 0
      → efd_unsignal2 pipe fuel e size ≡ gives (e', nbytes / 4)
  unfolding efd_unsignal2
  whole_words fuel e e' size nbytes h whole = rw (h, efd_unsignal2, aligned) refl
    where
      aligned : (nbytes % 4 == 0) ≡ true
      aligned = ground (arith, whole)

  -- What is asked for, or all there is.
  pub efd_unsignal2_lem :
      (fuel : ℕ) (e : Efd P) (size : ℕ)
      → 0 < size
      → pipe.unread e.pipe % 4 ≡ 0
      → (e' : Efd P) × (efd_unsignal2 pipe (suc (suc fuel)) e size
          ≡ gives (e', min (4 * size) (pipe.unread e.pipe) / 4))
        × (pipe.unread e'.pipe ≡ pipe.unread e.pipe - min (4 * size) (pipe.unread e.pipe))
  efd_unsignal2_lem fuel e size h whole = elim (Bool-cases (pipe.unread e.pipe == 0)) [
    | inl t ↦ go_empty (ground (arith, t))
    | inr f ↦ go_held (ground (arith, f))
  ]
    where
      taken : ℕ
      taken = min (4 * size) (pipe.unread e.pipe)

      Goal : Type 0
      Goal =
          (e' : Efd P) × (efd_unsignal2 pipe (suc (suc fuel)) e size ≡ gives (e', taken / 4))
          × (pipe.unread e'.pipe ≡ pipe.unread e.pipe - taken)

      go_empty : pipe.unread e.pipe ≡ 0 → Goal
      go_empty z = (
        e,
        whole_words (suc (suc fuel)) e e size 0
              (unsignal_empty (suc fuel) e (4 * size) 0 (omega (arith, h)) z (omega arith))
              (omega arith)
            ∙ ap (λ n. gives (e, n)) (omega (arith, z)),
        omega (arith, z),
      )

      finish :
          (e' : Efd P)
          → pipe.unread e'.pipe ≡ pipe.unread e.pipe - taken
          → unsignal_loop pipe (suc fuel) e' (4 * size) taken ≡ gives (e', taken)
      finish e' u = elim (Bool-cases (ltb taken (4 * size))) [
        | inl t ↦
            unsignal_empty fuel e' (4 * size) taken (ground (arith, t)) (ground (arith, t, u))
              (omega (arith, whole))
        | inr f ↦ unsignal_full fuel e' (4 * size) taken (ground (arith, f))
      ]

      go_held : 0 < pipe.unread e.pipe → Goal
      go_held held =
          let (e', step, u) = unsignal_round (suc fuel) e (4 * size) 0 (omega (arith, h)) held in
          let same : 0 + min (4 * size - 0) (pipe.unread e.pipe) ≡ taken = omega arith in
          let left : pipe.unread e'.pipe ≡ pipe.unread e.pipe - taken = omega (arith, u) in
          (
            e',
            whole_words (suc (suc fuel)) e e' size taken
                (step
                  ∙ ap (λ n. unsignal_loop pipe (suc fuel) e' (4 * size) n) same
                  ∙ finish e' left)
                (omega (arith, whole)),
            left,
          )
