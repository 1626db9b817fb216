-- ===== src/Ev/Signal/Handling.antt =====
-- `ev_sigfd_hndl` while no other thread sends.
use proxyio.Base.{ℕ, suc, ◌*◌, ◌%◌, ◌≤◌, ◌≡◌, refl, ap, ◌∙◌, List, [], ◌∷◌, length}
use proxyio.Ev.Efd.{Pipe, IsPipe, gives}
use proxyio.Ev.Signal.{EvSig, ev_get_signals, ev_unsignal, ev_sigfd_hndl}
use proxyio.Ev.Signal.Wakeup.{Holds, ev_get_signals_one, ev_get_signals_none, ev_unsignal_none}

module _ {P : Type 0} (pipe : Pipe P) where
  hndl_none :
      (fuel rounds : ℕ) (sig sig'' : EvSig P)
      → (ev_get_signals sig 1).1 ≡ []
      → ev_unsignal pipe fuel (ev_get_signals sig 1).0 ≡ gives sig''
      → ev_sigfd_hndl pipe fuel (suc rounds) sig ≡ gives (sig'', [])
  unfolding ev_sigfd_hndl
  hndl_none fuel rounds sig sig'' e u = rw (e, u, ev_sigfd_hndl) refl

  hndl_one :
      (fuel rounds signo : ℕ) (handled : List ℕ) (sig sig'' : EvSig P)
      → (ev_get_signals sig 1).1 ≡ signo ∷ []
      → ev_sigfd_hndl pipe fuel rounds (ev_get_signals sig 1).0 ≡ gives (sig'', handled)
      → ev_sigfd_hndl pipe fuel (suc rounds) sig ≡ gives (sig'', signo ∷ handled)
  unfolding ev_sigfd_hndl
  hndl_one fuel rounds signo handled sig sig'' e u = rw (e, u, ev_sigfd_hndl) refl

  -- The handler returns: it hands over all signals held, oldest first, and leaves the buffer and the
  -- pipe empty.
  pub ev_sigfd_hndl_lem :
      (v : IsPipe pipe) (fuel : ℕ) (pending : List ℕ) (sig : EvSig P)
      → Holds sig.signals pending
      → pipe.unread sig.efd.pipe % 4 ≡ 0
      → pipe.unread sig.efd.pipe ≤ 4 * fuel
      → (sig' : EvSig P) × (ev_sigfd_hndl pipe (suc (suc fuel)) (suc (length pending)) sig
          ≡ gives (sig', pending))
        × Holds sig'.signals []
        × (pipe.unread sig'.efd.pipe ≡ 0)
  ev_sigfd_hndl_lem v fuel [] sig h whole enough =
      let (b, got, h') = ev_get_signals_none sig h in
      let sig' : EvSig P = record sig { signals = b } in
      let (e, step, z) = ev_unsignal_none pipe v fuel sig' h' whole enough in
      (
        record sig' { efd = e },
        hndl_none (suc (suc fuel)) 0 sig (record sig' { efd = e }) (ap (λ r. r.1) got)
            (ap (λ r. ev_unsignal pipe (suc (suc fuel)) r.0) got ∙ step),
        h',
        z,
      )
  ev_sigfd_hndl_lem v fuel (signo ∷ more) sig h whole enough =
      let (b, got, h') = ev_get_signals_one sig signo more h in
      let sig' : EvSig P = record sig { signals = b } in
      let (sig'', rest, none_left, z) = ev_sigfd_hndl_lem v fuel more sig' h' whole enough in
      (
        sig'',
        hndl_one (suc (suc fuel)) (suc (length more)) signo more sig sig'' (ap (λ r. r.1) got)
            (ap (λ r. ev_sigfd_hndl pipe (suc (suc fuel)) (suc (length more)) r.0) got ∙ rest),
        none_left,
        z,
      )
