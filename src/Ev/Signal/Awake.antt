-- ===== src/Ev/Signal/Awake.antt =====
-- No wake-up is lost: the invariant of the interleaved signals.
use proxyio.Base.{
  ℕ, suc, ◌+◌, ◌*◌, ◌%◌, ◌^◌, ◌≤◌, ◌<◌, ◌≡◌, refl, sym, subst, ap, ◌∙◌, true, false, ◌||◌, List, [],
  ◌∷◌, ◌++◌, ltb, ◌==◌, append_assoc, arith,
}
use proxyio.Ev.Efd.{Pipe, IsPipe, Efd, Run, gives}
use proxyio.Ev.Efd.Draining.{efd_signal_lem}
use proxyio.Ev.Signal.{EvSig, ev_sig_init, signal_write, ev_signal, ev_get_signals, ev_unsignal}
use proxyio.Ev.Signal.Wakeup.{
  Holds, bio_init-Holds, bsize_lem, Wrote, signal_write_lem, ev_get_signals_one,
  ev_get_signals_none, ev_unsignal_none, ev_unsignal_some,
}
use proxyio.Ev.Signal.Interleaved.{
  Phase, polls, takes_signals, unsignals, Loop, taken, signals, readable, takes, returns, Reachable,
  inits, goes,
}

-- How many words the pipe holds at the least: one while a signal waits or the loop handles signals,
-- and a second one where the loop is about to take one out.
abbrev waiting : List ℕ → ℕ
waiting [] = 0
waiting (signo ∷ more) = 1

abbrev owed : Phase → List ℕ → ℕ
owed polls pending = waiting pending
owed takes_signals pending = 1
owed unsignals pending = 1 + waiting pending

module _ {P : Type 0} (pipe : Pipe P) where
  record IsAwake (l : Loop P) (pending : List ℕ) : Type 0 where
    holds : Holds l.sig.signals pending
    ordered : l.handled ++ pending ≡ l.sent
    whole : pipe.unread l.sig.efd.pipe % 4 ≡ 0
    woken : 4 * owed l.phase pending ≤ pipe.unread l.sig.efd.pipe

  abbrev Awake : Loop P → Type 0
  Awake l = (pending : List ℕ) × IsAwake l pending

  waiting_last : (pending : List ℕ) (signo : ℕ) → waiting (pending ++ signo ∷ []) ≡ 1
  waiting_last [] signo = refl
  waiting_last (x ∷ pending) signo = refl

  owed_one :
      (phase : Phase) (signo x : ℕ) (more : List ℕ)
      → owed phase ((x ∷ more) ++ signo ∷ []) ≡ owed phase (x ∷ more)
  owed_one polls signo x more = refl
  owed_one takes_signals signo x more = refl
  owed_one unsignals signo x more = refl

  owed_first : (phase : Phase) (signo : ℕ) → owed phase (signo ∷ []) ≤ 1 + owed phase []
  owed_first polls signo = omega arith
  owed_first takes_signals signo = omega arith
  owed_first unsignals signo = omega arith

  some_owed : (phase : Phase) (x : ℕ) (more : List ℕ) → 1 ≤ owed phase (x ∷ more)
  some_owed polls x more = omega arith
  some_owed takes_signals x more = omega arith
  some_owed unsignals x more = omega arith

  module _ (v : IsPipe pipe) where
    -- The first signal writes to the pipe as well.
    ev_signal_first :
        (fuel budget : ℕ) (sig : EvSig P) (signo : ℕ)
        → Holds sig.signals []
        → pipe.unread sig.efd.pipe + 4 ≤ pipe.capacity
        → (e : Efd P) × (ev_signal pipe (suc (suc fuel)) budget sig signo
            ≡ signal_write budget (record sig { efd = e }) signo)
          × (pipe.unread e.pipe ≡ pipe.unread sig.efd.pipe + 4)
    unfolding ev_signal
    ev_signal_first fuel budget sig signo h room =
        let (e, step, u) = efd_signal_lem pipe v fuel sig.efd room in
        (e, rw (no_bytes, step, ev_signal) refl, u)
      where
        no_bytes : (sig.signals.bsize == 0) ≡ true
        no_bytes = ground (arith, bsize_lem sig.signals [] h)

    ev_signal_more :
        (fuel budget : ℕ) (sig : EvSig P) (signo x : ℕ) (more : List ℕ)
        → Holds sig.signals (x ∷ more)
        → ev_signal pipe fuel budget sig signo ≡ signal_write budget sig signo
    unfolding ev_signal
    ev_signal_more fuel budget sig signo x more h = rw bytes refl
      where
        bytes : (sig.signals.bsize == 0) ≡ false
        bytes = ground (arith, bsize_lem sig.signals (x ∷ more) h)

    sent_to :
        (l : Loop P) (budget' signo : ℕ) (sig : EvSig P) (efd : Efd P) (pending : List ℕ)
        → l.handled ++ pending ≡ l.sent
        → Wrote (pending ++ signo ∷ []) efd (gives (budget', sig))
        → pipe.unread efd.pipe % 4 ≡ 0
        → 4 * owed l.phase (pending ++ signo ∷ []) ≤ pipe.unread efd.pipe
        → Awake (record l { sig = sig; sent = l.sent ++ signo ∷ [] })
    sent_to l budget' signo sig efd pending order wrote whole woken = (
      pending ++ signo ∷ [],
      record {
        holds = wrote.0;
        ordered =
            sym (append_assoc l.handled pending (signo ∷ [])) ∙ ap (λ l. l ++ signo ∷ []) order;
        whole = subst (λ e. pipe.unread (Efd.pipe e) % 4 ≡ 0) (sym wrote.1) whole;
        woken =
            subst (λ e. 4 * owed l.phase (pending ++ signo ∷ []) ≤ pipe.unread (Efd.pipe e))
              (sym wrote.1) woken;
      },
    )

    Awake-signals :
        (l : Loop P) (fuel budget budget' signo : ℕ) (sig : EvSig P)
        → Awake l
        → signo < 2 ^ 32
        → l.sig.signals.bsize + 4 < 2 ^ 63
        → pipe.unread l.sig.efd.pipe + 4 ≤ pipe.capacity
        → ev_signal pipe (suc (suc fuel)) budget l.sig signo ≡ gives (budget', sig)
        → Awake (record l { sig = sig; sent = l.sent ++ signo ∷ [] })
    Awake-signals l fuel budget budget' signo sig ([], a) small room space e =
        let (efd, step, u) = ev_signal_first fuel budget l.sig signo a.holds space in
        sent_to l budget' signo sig efd [] a.ordered
          (subst (Wrote (signo ∷ []) efd) (sym step ∙ e)
            (signal_write_lem budget (record l.sig { efd = efd }) signo [] a.holds small room))
          (omega (arith, u, a.whole)) (omega (arith, u, a.woken, owed_first l.phase signo))
    Awake-signals l fuel budget budget' signo sig (x ∷ more, a) small room space e =
        sent_to l budget' signo sig l.sig.efd (x ∷ more) a.ordered
          (subst (Wrote ((x ∷ more) ++ signo ∷ []) l.sig.efd)
            (sym (ev_signal_more (suc (suc fuel)) budget l.sig signo x more a.holds) ∙ e)
            (signal_write_lem budget l.sig signo (x ∷ more) a.holds small room))
          a.whole (omega (arith, a.woken, owed_one l.phase signo x more))

    Awake-takes :
        (l : Loop P)
        → Awake l
        → l.phase ≡ takes_signals
        → Awake (taken l (ev_get_signals l.sig 1).0 (ev_get_signals l.sig 1).1)
    Awake-takes l ([], a) e =
        let (b, step, h) = ev_get_signals_none l.sig a.holds in
        subst (λ r. Awake (taken l r.0 r.1)) (sym step)
          (
            [],
            record {
              holds = h;
              ordered = a.ordered;
              whole = a.whole;
              woken = subst (λ p. 4 * owed p [] ≤ pipe.unread l.sig.efd.pipe) e a.woken;
            },
          )
    Awake-takes l (signo ∷ more, a) e =
        let (b, step, h) = ev_get_signals_one l.sig signo more a.holds in
        subst (λ r. Awake (taken l r.0 r.1)) (sym step)
          (
            more,
            record {
              holds = h;
              ordered = append_assoc l.handled (signo ∷ []) more ∙ a.ordered;
              whole = a.whole;
              woken =
                  subst (λ p. 4 * owed p more ≤ pipe.unread l.sig.efd.pipe) (sym e)
                    (subst (λ p. 4 * owed p (signo ∷ more) ≤ pipe.unread l.sig.efd.pipe) e a.woken);
            },
          )

    Awake-returns :
        (l : Loop P) (fuel : ℕ) (sig : EvSig P)
        → Awake l
        → l.phase ≡ unsignals
        → pipe.unread l.sig.efd.pipe ≤ 4 * fuel
        → ev_unsignal pipe (suc (suc fuel)) l.sig ≡ gives sig
        → Awake (record l { sig = sig; phase = polls })
    Awake-returns l fuel sig ([], a) e enough r =
        let (efd, step, z) = ev_unsignal_none pipe v fuel l.sig a.holds a.whole enough in
        subst Back (sym step ∙ r) (
          [],
          record {
            holds = a.holds;
            ordered = a.ordered;
            whole = omega (arith, z);
            woken = omega arith;
          },
        )
      where
        Back : Run (EvSig P) → Type 0
        Back (gives s) = Awake (record l { sig = s; phase = polls })
        Back _ = Unit {0}
    Awake-returns l fuel sig (signo ∷ more, a) e enough r =
        let (efd, step, u) = ev_unsignal_some pipe v fuel l.sig signo more a.holds a.whole in
        let two : 4 * owed unsignals (signo ∷ more) ≤ pipe.unread l.sig.efd.pipe =
          subst (λ p. 4 * owed p (signo ∷ more) ≤ pipe.unread l.sig.efd.pipe) e a.woken in
        subst Back (sym step ∙ r) (
          signo ∷ more,
          record {
            holds = a.holds;
            ordered = a.ordered;
            whole = omega (arith, u, a.whole, two);
            woken = omega (arith, u, two);
          },
        )
      where
        Back : Run (EvSig P) → Type 0
        Back (gives s) = Awake (record l { sig = s; phase = polls })
        Back _ = Unit {0}

    Awake-readable :
        (l : Loop P)
        → Awake l
        → 0 < pipe.unread l.sig.efd.pipe
        → Awake (record l { phase = takes_signals })
    Awake-readable l (pending, a) held = (
      pending,
      record {
        holds = a.holds;
        ordered = a.ordered;
        whole = a.whole;
        woken = omega (arith, held, a.whole);
      },
    )

    Reachable-Awake : {l : Loop P} → Reachable pipe l → Awake l
    unfolding ev_sig_init
    Reachable-Awake (inits p z) = (
      [],
      record {
        holds = bio_init-Holds;
        ordered = refl;
        whole = omega (arith, z);
        woken = omega arith;
      },
    )
    Reachable-Awake (goes {a = l} r (signals fuel budget budget' signo sig small room space e)) =
        Awake-signals l fuel budget budget' signo sig (Reachable-Awake r) small room space e
    Reachable-Awake (goes {a = l} r (readable e held)) = Awake-readable l (Reachable-Awake r) held
    Reachable-Awake (goes {a = l} r (takes e)) = Awake-takes l (Reachable-Awake r) e
    Reachable-Awake (goes {a = l} r (returns fuel sig e enough s)) =
        Awake-returns l fuel sig (Reachable-Awake r) e enough s

    -- In every order of signals and handling: what was handled and what the buffer still holds are the
    -- signals sent, in order, and while it holds any the pipe is readable, so that the poll returns.
    pub ev_sig-Reachable :
        (l : Loop P)
        → Reachable pipe l
        → (pending : List ℕ) × Holds l.sig.signals pending
          × (l.handled ++ pending ≡ l.sent)
          × ((l.sig.signals.bsize == 0 || ltb 0 (pipe.unread l.sig.efd.pipe)) ≡ true)
    ev_sig-Reachable l r = let (pending, a) = Reachable-Awake r in go pending a
      where
        go :
            (pending : List ℕ)
            → IsAwake l pending
            → (pending : List ℕ) × Holds l.sig.signals pending
              × (l.handled ++ pending ≡ l.sent)
              × ((l.sig.signals.bsize == 0 || ltb 0 (pipe.unread l.sig.efd.pipe)) ≡ true)
        go [] a = ([], a.holds, a.ordered, ground (arith, bsize_lem l.sig.signals [] a.holds))
        go (x ∷ more) a =
            (x ∷ more, a.holds, a.ordered, ground (arith, a.woken, some_owed l.phase x more))
