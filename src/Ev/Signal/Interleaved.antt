-- ===== src/Ev/Signal/Interleaved.antt =====
-- Signals that any thread sends while the event loop handles others: each taking of `sig->lock` is one
-- step.
use proxyio.Base.{ℕ, suc, ◌+◌, ◌*◌, ◌^◌, ◌≤◌, ◌<◌, ◌≡◌, List, [], ◌∷◌, ◌++◌}
use proxyio.Ev.Efd.{Pipe, gives}
use proxyio.Ev.Signal.{EvSig, ev_sig_init, ev_signal, ev_get_signals, ev_unsignal}

-- Where the event loop is: it polls, or it takes signals, or it has found none and is about to call
-- `ev_unsignal`.
pub data Phase : Type 0 where
  polls takes_signals unsignals : Phase

-- `sent` and `handled` are all signals so far.
pub record Loop (P : Type 0) : Type 0 where
  pub sig : EvSig P
  pub phase : Phase
  pub sent : List ℕ
  pub handled : List ℕ

-- What the loop has after `ev_get_signals`.
abbrev pub taken : {P : Type 0} → Loop P → EvSig P → List ℕ → Loop P
taken l sig [] = record l { sig = sig; phase = unsignals }
taken l sig (signo ∷ more) = record l { sig = sig; handled = l.handled ++ signo ∷ more }

module _ {P : Type 0} (pipe : Pipe P) where
  pub data Step : Loop P → Loop P → Type 0 where
    signals :
        {l : Loop P} (fuel budget budget' signo : ℕ) (sig : EvSig P)
        → signo < 2 ^ 32
        → l.sig.signals.bsize + 4 < 2 ^ 63
        → pipe.unread l.sig.efd.pipe + 4 ≤ pipe.capacity
        → ev_signal pipe (suc (suc fuel)) budget l.sig signo ≡ gives (budget', sig)
        → Step l (record l { sig = sig; sent = l.sent ++ signo ∷ [] })
    readable :
        {l : Loop P}
        → l.phase ≡ polls
        → 0 < pipe.unread l.sig.efd.pipe
        → Step l (record l { phase = takes_signals })
    takes :
        {l : Loop P}
        → l.phase ≡ takes_signals
        → Step l (taken l (ev_get_signals l.sig 1).0 (ev_get_signals l.sig 1).1)
    returns :
        {l : Loop P} (fuel : ℕ) (sig : EvSig P)
        → l.phase ≡ unsignals
        → pipe.unread l.sig.efd.pipe ≤ 4 * fuel
        → ev_unsignal pipe (suc (suc fuel)) l.sig ≡ gives sig
        → Step l (record l { sig = sig; phase = polls })

  pub data Reachable : Loop P → Type 0 where
    inits :
        (p : P)
        → pipe.unread p ≡ 0
        → Reachable (record { sig = ev_sig_init p; phase = polls; sent = []; handled = [] })
    goes : {a b : Loop P} → Reachable a → Step a b → Reachable b
