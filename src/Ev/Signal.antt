-- ===== src/Ev/Signal.antt =====
-- `struct ev_sig` of ev.c: signals from any thread to the one that runs an event loop. What stands
-- between taking and giving back `sig->lock` is one function.
pub mod Wakeup
pub mod Interleaved
pub mod Awake
pub mod Handling
use proxyio.Base.{
  ℕ, zero, suc, ◌+◌, ◌*◌, ◌/◌, List, [], ◌∷◌, ◌++◌, none, some, ltb, ◌==◌, if◌then◌else◌, drop,
}
use proxyio.Bufio.{Bio, bio_init, bio_empty, bio_read, bio_write}
use proxyio.Msgbuf.Frame.{u32_bytes, byte}
use proxyio.Ev.Efd.{Pipe, Efd, Run, spins, bug, gives, efd_signal, efd_unsignal2, efd_unsignal}

pub record EvSig (P : Type 0) : Type 0 where
  pub efd : Efd P
  pub signals : Bio

-- The `int`s that lie in so many bytes.
abbrev pub words : ℕ → List ℕ → List ℕ
words zero mem = []
words (suc n) mem =
    (byte mem 0 + byte mem 1 * 256 + byte mem 2 * 65536 + byte mem 3 * 16777216)
    ∷ words n (drop 4 mem)

-- `efd_init` makes an empty pipe.
unfoldable pub ev_sig_init : {P : Type 0} → P → EvSig P
ev_sig_init p = record { efd = record { pipe = p; unsignal_size = 0 }; signals = bio_init }

-- Behind the test whether the pipe is to be written. `budget` is the memory that is left.
unfoldable pub signal_write : {P : Type 0} → ℕ → EvSig P → ℕ → Run (ℕ × EvSig P)
signal_write budget sig signo =
    let (budget', b, rc) = bio_write budget sig.signals (u32_bytes signo) in
    if rc == 4 then gives (budget', record sig { signals = b }) else bug

-- The whole signals among the bytes read.
unfoldable pub ev_get_signals : {P : Type 0} → EvSig P → ℕ → EvSig P × List ℕ
ev_get_signals sig size =
    let (b, rc, sigset) = bio_read sig.signals (4 * size) in
    (record sig { signals = b }, words (rc / 4) sigset)

module _ {P : Type 0} (pipe : Pipe P) where
  -- The result of `efd_signal` is not looked at.
  unfoldable pub ev_signal : ℕ → ℕ → EvSig P → ℕ → Run (ℕ × EvSig P)
  ev_signal fuel budget sig signo =
      if sig.signals.bsize == 0
      then elim (efd_signal pipe fuel sig.efd 1) [
        | gives (some efd) ↦ signal_write budget (record sig { efd = efd }) signo
        | gives none ↦ signal_write budget sig signo
        | bug ↦ bug
        | spins ↦ spins
      ]
      else signal_write budget sig signo

  -- Reads until the pipe is empty.
  unfoldable pub drain : ℕ → Efd P → Run (Efd P)
  drain zero efd = spins
  drain (suc fuel) efd = elim (efd_unsignal2 pipe (suc fuel) efd 1024) [
    | gives (efd', rc) ↦ let more = drain fuel efd' in if ltb 0 rc then more else gives efd'
    | bug ↦ bug
    | spins ↦ spins
  ]

  unfoldable pub ev_unsignal : ℕ → EvSig P → Run (EvSig P)
  ev_unsignal fuel sig =
      elim (if bio_empty sig.signals then drain fuel sig.efd else efd_unsignal pipe fuel sig.efd) [
        | gives efd ↦ gives (record sig { efd = efd })
        | bug ↦ bug
        | spins ↦ spins
      ]

  -- The signals in the order in which `sig->hndl` gets them.
  unfoldable pub ev_sigfd_hndl : ℕ → ℕ → EvSig P → Run (EvSig P × List ℕ)
  ev_sigfd_hndl fuel zero sig = spins
  ev_sigfd_hndl fuel (suc rounds) sig =
      let (sig', sigset) = ev_get_signals sig 1 in
      elim sigset [
        | [] ↦ elim (ev_unsignal fuel sig') [
          | gives sig'' ↦ gives (sig'', [])
          | bug ↦ bug
          | spins ↦ spins
        ]
        | signo ∷ more ↦ elim (ev_sigfd_hndl fuel rounds sig') [
          | gives (sig'', handled) ↦ gives (sig'', signo ∷ more ++ handled)
          | bug ↦ bug
          | spins ↦ spins
        ]
      ]
