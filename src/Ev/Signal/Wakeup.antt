-- ===== src/Ev/Signal/Wakeup.antt =====
-- What the turns at an `ev_sig` do: the signals that it holds, and the pipe that wakes the loop.
use proxyio.Base.{
  ℕ, zero, suc, ◌+◌, ◌-◌, ◌*◌, ◌/◌, ◌%◌, ◌^◌, ◌≤◌, ◌<◌, ◌≡◌, refl, sym, subst, ap, ap₂, ◌∙◌, min,
  inl, inr, Bool, true, false, List, [], ◌∷◌, ◌++◌, ltb, ◌==◌, if◌then◌else◌, take, drop, length,
  append-nil, append_assoc, Bool-cases, arith,
}
use proxyio.Msgbuf.Frame.{u32_bytes}
use proxyio.Bufio.{Bio, bio_init, bio_empty, bio_read, bio_write}
use proxyio.Bufio.Stream.{contents, IsBio}
use proxyio.Bufio.Reading.{bio_read_lem}
use proxyio.Bufio.Writing.{bio_write_lem}
use proxyio.Ev.Efd.{Pipe, IsPipe, Efd, Run, bug, gives, efd_unsignal2, efd_unsignal}
use proxyio.Ev.Efd.Draining.{efd_unsignal2_lem}
use proxyio.Ev.Signal.{EvSig, words, signal_write, ev_get_signals, drain, ev_unsignal}

-- The signals as they lie in the buffer.
abbrev pub frames : List ℕ → List ℕ
frames [] = []
frames (signo ∷ more) = u32_bytes signo ++ frames more

abbrev pub AreInts : List ℕ → Type 0
AreInts [] = Unit {0}
AreInts (signo ∷ more) = (signo < 2 ^ 32) × AreInts more

pub record Holds (b : Bio) (pending : List ℕ) : Type 0 where
  pub bio : IsBio b
  pub bytes : contents b ≡ frames pending
  pub ints : AreInts pending

pub bio_init-Holds : Holds bio_init []
unfolding bio_init
bio_init-Holds = record {
  bio = record { pages = tt; counted = refl; small = omega arith };
  bytes = refl;
  ints = tt;
}

length-frames : (pending : List ℕ) → length (frames pending) ≡ 4 * length pending
unfolding u32_bytes
length-frames [] = omega arith
length-frames (signo ∷ more) = omega (arith, length-frames more)

pub bsize_lem : (b : Bio) (pending : List ℕ) → Holds b pending → b.bsize ≡ 4 * length pending
bsize_lem b pending v = v.bio.counted ∙ ap (λ l. length {A = ℕ} l) v.bytes ∙ length-frames pending

frames-append : (xs ys : List ℕ) → frames (xs ++ ys) ≡ frames xs ++ frames ys
frames-append [] ys = refl
frames-append (x ∷ xs) ys =
    ap (λ l. u32_bytes x ++ l) (frames-append xs ys)
    ∙ sym (append_assoc (u32_bytes x) (frames xs) (frames ys))

AreInts-append : (xs : List ℕ) (y : ℕ) → AreInts xs → y < 2 ^ 32 → AreInts (xs ++ y ∷ [])
AreInts-append [] y v h = (h, tt)
AreInts-append (x ∷ xs) y v h = (v.0, AreInts-append xs y v.1 h)

take_word : (signo : ℕ) (rest : List ℕ) → take 4 (u32_bytes signo ++ rest) ≡ u32_bytes signo
unfolding u32_bytes
take_word signo rest = refl

drop_word : (signo : ℕ) (rest : List ℕ) → drop 4 (u32_bytes signo ++ rest) ≡ rest
unfolding u32_bytes
drop_word signo rest = refl

words_lem : (signo : ℕ) → signo < 2 ^ 32 → words 1 (u32_bytes signo) ≡ signo ∷ []
unfolding u32_bytes
words_lem signo h = ap (λ n. n ∷ []) (omega (arith, h))

module _ {P : Type 0} where
  -- One signal is taken: the oldest.
  pub ev_get_signals_one :
      (sig : EvSig P) (signo : ℕ) (more : List ℕ)
      → Holds sig.signals (signo ∷ more)
      → (b : Bio) × (ev_get_signals sig 1 ≡ (record sig { signals = b }, signo ∷ [])) × Holds b more
  unfolding ev_get_signals
  ev_get_signals_one sig signo more v =
      let (w, count, out, left) = bio_read_lem sig.signals 4 v.bio in
      let r : Bio × ℕ × List ℕ = bio_read sig.signals 4 in
      let got : r.2 ≡ u32_bytes signo = out ∙ ap (take 4) v.bytes ∙ take_word signo (frames more) in
      let four : r.1 ≡ 4 = count ∙ ap (λ l. length {A = ℕ} l) got ∙ four_bytes in
      (
        r.0,
        ap (λ l. (record sig { signals = r.0 }, l))
            (ap₂ (λ n l. words (n / 4) l) four got ∙ words_lem signo v.ints.0),
        record {
          bio = w;
          bytes = left ∙ ap (drop 4) v.bytes ∙ drop_word signo (frames more);
          ints = v.ints.1;
        },
      )
    where
      four_bytes : length (u32_bytes signo) ≡ 4
      four_bytes =
          let e : length (frames (signo ∷ [])) ≡ 4 = length-frames (signo ∷ []) in
          ap (λ l. length {A = ℕ} l) (sym (append-nil (u32_bytes signo))) ∙ e

  pub ev_get_signals_none :
      (sig : EvSig P)
      → Holds sig.signals []
      → (b : Bio) × (ev_get_signals sig 1 ≡ (record sig { signals = b }, [])) × Holds b []
  unfolding ev_get_signals
  ev_get_signals_none sig v =
      let (w, count, out, left) = bio_read_lem sig.signals 4 v.bio in
      let r : Bio × ℕ × List ℕ = bio_read sig.signals 4 in
      let got : r.2 ≡ [] = out ∙ ap (take 4) v.bytes in
      let none_read : r.1 ≡ 0 = count ∙ ap (λ l. length {A = ℕ} l) got in
      (
        r.0,
        ap (λ l. (record sig { signals = r.0 }, l)) (ap₂ (λ n l. words (n / 4) l) none_read got),
        record { bio = w; bytes = left ∙ ap (drop 4) v.bytes; ints = tt },
      )

  -- The signals held after a write that came to its end.
  abbrev pub Wrote : List ℕ → Efd P → Run (ℕ × EvSig P) → Type 0
  Wrote pending efd (gives (budget, sig)) = Holds sig.signals pending × (sig.efd ≡ efd)
  Wrote pending efd _ = Unit {0}

  -- One signal is written behind the others.
  pub signal_write_lem :
      (budget : ℕ) (sig : EvSig P) (signo : ℕ) (pending : List ℕ)
      → Holds sig.signals pending
      → signo < 2 ^ 32
      → sig.signals.bsize + 4 < 2 ^ 63
      → Wrote (pending ++ signo ∷ []) sig.efd (signal_write budget sig signo)
  unfolding signal_write
  signal_write_lem budget sig signo pending v small room =
      let (w, most, bytes, all, less) =
        bio_write_lem budget sig.signals (u32_bytes signo) v.bio
          (subst (λ n. sig.signals.bsize + n < 2 ^ 63) (sym four) room) in
      elim (Bool-cases ((bio_write budget sig.signals (u32_bytes signo)).2 == 4)) [
        | inl t ↦ subst Tested (sym t) (
          record {
            bio = w;
            bytes =
                bytes
                ∙ ap₂ (λ a b. a ++ b) v.bytes
                    (ap (λ n. take n (u32_bytes signo)) (count t) ∙ take_whole)
                ∙ sym (frames-append pending (signo ∷ []));
            ints = AreInts-append pending signo v.ints small;
          },
          refl,
        )
        | inr f ↦ subst Tested (sym f) tt
      ]
    where
      count :
          ((bio_write budget sig.signals (u32_bytes signo)).2 == 4) ≡ true
          → (bio_write budget sig.signals (u32_bytes signo)).2 ≡ 4
      count t = ground (arith, t)

      Tested : Bool → Type 0
      Tested b = Wrote (pending ++ signo ∷ []) sig.efd (
          if b
          then gives (
            (bio_write budget sig.signals (u32_bytes signo)).0,
            record sig { signals = (bio_write budget sig.signals (u32_bytes signo)).1 },
          )
          else bug)

      four : length (u32_bytes signo) ≡ 4
      four =
          ap (λ l. length {A = ℕ} l) (sym (append-nil (u32_bytes signo)))
          ∙ length-frames (signo ∷ [])

      take_whole : take 4 (u32_bytes signo) ≡ frames (signo ∷ [])
      take_whole =
          ap (take 4) (sym (append-nil (u32_bytes signo)))
          ∙ take_word signo []
          ∙ sym (append-nil (u32_bytes signo))

module _ {P : Type 0} (pipe : Pipe P) (v : IsPipe pipe) where
  drain_last :
      (fuel : ℕ) (e e' : Efd P)
      → efd_unsignal2 pipe (suc fuel) e 1024 ≡ gives (e', 0)
      → drain pipe (suc fuel) e ≡ gives e'
  unfolding drain
  drain_last fuel e e' h = rw (h, drain) refl

  drain_more :
      (fuel rc : ℕ) (e e' : Efd P)
      → efd_unsignal2 pipe (suc fuel) e 1024 ≡ gives (e', rc)
      → 0 < rc
      → drain pipe (suc fuel) e ≡ drain pipe fuel e'
  unfolding drain
  drain_more fuel rc e e' h some_read = rw (h, drain, positive) refl
    where
      positive : ltb 0 rc ≡ true
      positive = ground (arith, some_read)

  -- With fuel for the pipe's words, all of it is read.
  pub drain_lem :
      (fuel : ℕ) (e : Efd P)
      → pipe.unread e.pipe % 4 ≡ 0
      → pipe.unread e.pipe ≤ 4 * fuel
      → (e' : Efd P) × (drain pipe (suc (suc fuel)) e ≡ gives e') × (pipe.unread e'.pipe ≡ 0)
  drain_lem zero e whole enough =
      let (e', step, u) = efd_unsignal2_lem pipe v 0 e 1024 (omega arith) whole in
      (
        e',
        drain_last 1 e e' (step ∙ ap (λ n. gives (e', n)) (omega (arith, enough))),
        omega (arith, u, enough),
      )
  drain_lem (suc fuel) e whole enough =
      let (e', step, u) = efd_unsignal2_lem pipe v (suc fuel) e 1024 (omega arith) whole in
      elim (Bool-cases (pipe.unread e.pipe == 0)) [
        | inl t ↦
            let z : pipe.unread e.pipe ≡ 0 = ground (arith, t) in
            (
              e',
              drain_last (suc (suc fuel)) e e' (step ∙ ap (λ n. gives (e', n)) (omega (arith, z))),
              omega (arith, u, z),
            )
        | inr f ↦
            let held : 0 < pipe.unread e.pipe = ground (arith, f) in
            let (e'', rest, z) =
              drain_lem fuel e' (omega (arith, u, whole, held))
                (omega (arith, u, whole, held, enough)) in
            (
              e'',
              drain_more (suc (suc fuel)) (min (4 * 1024) (pipe.unread e.pipe) / 4) e e' step
                    (omega (arith, whole, held))
                  ∙ rest,
              z,
            )
      ]

  one_word :
      (fuel rc : ℕ) (e e' : Efd P)
      → efd_unsignal2 pipe fuel e 1 ≡ gives (e', rc)
      → efd_unsignal pipe fuel e ≡ gives e'
  unfolding efd_unsignal
  one_word fuel rc e e' h = rw (h, efd_unsignal) refl

  -- The pipe is read empty when no signal is left, and else loses one word.
  pub ev_unsignal_none :
      (fuel : ℕ) (sig : EvSig P)
      → Holds sig.signals []
      → pipe.unread sig.efd.pipe % 4 ≡ 0
      → pipe.unread sig.efd.pipe ≤ 4 * fuel
      → (e : Efd P) × (ev_unsignal pipe (suc (suc fuel)) sig ≡ gives (record sig { efd = e }))
        × (pipe.unread e.pipe ≡ 0)
  unfolding ev_unsignal bio_empty
  ev_unsignal_none fuel sig h whole enough =
      let (e, step, z) = drain_lem fuel sig.efd whole enough in
      (e, rw (no_bytes, step, ev_unsignal) refl, z)
    where
      no_bytes : (sig.signals.bsize == 0) ≡ true
      no_bytes = ground (arith, bsize_lem sig.signals [] h)

  pub ev_unsignal_some :
      (fuel : ℕ) (sig : EvSig P) (signo : ℕ) (more : List ℕ)
      → Holds sig.signals (signo ∷ more)
      → pipe.unread sig.efd.pipe % 4 ≡ 0
      → (e : Efd P) × (ev_unsignal pipe (suc (suc fuel)) sig ≡ gives (record sig { efd = e }))
        × (pipe.unread e.pipe ≡ pipe.unread sig.efd.pipe - min 4 (pipe.unread sig.efd.pipe))
  unfolding ev_unsignal bio_empty
  ev_unsignal_some fuel sig signo more h whole =
      let (e, step, left) = efd_unsignal2_lem pipe v fuel sig.efd 1 (omega arith) whole in
      (
        e,
        rw
            (
              bytes,
              one_word (suc (suc fuel)) (min (4 * 1) (pipe.unread sig.efd.pipe) / 4) sig.efd e step,
              ev_unsignal,
            )
            refl,
        left,
      )
    where
      bytes : (sig.signals.bsize == 0) ≡ false
      bytes = ground (arith, bsize_lem sig.signals (signo ∷ more) h)
