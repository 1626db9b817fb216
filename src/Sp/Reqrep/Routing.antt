-- ===== src/Sp/Reqrep/Routing.antt =====
-- A request that crosses a proxy, and its reply, which finds the way back by the request's route.
use proxyio.Base.{
  ℕ, ◌≡◌, ◌≢◌, ◌⊎◌, inl, inr, refl, sym, ap, ◌∙◌, true, false, List, [], ◌∷◌, ◌++◌, some, arith,
  ◌==◌, Bool-cases, if◌then◌else◌,
}
use proxyio.Sp.Reqrep.Header.{Request, rt_cur, rt_prev}
use proxyio.Sp.Reqrep.{
  LoadbalanceVfptr, Target, Reqep, Repep, get_tgtd_if, change_tgtd_if, by_fd, by_uuid, learn,
  enqueue, ttl_dec, changed, receiver_add, dispatcher_add,
}

-- No other target than the one of the socket has the name.
abbrev pub IsOnly : ℕ → ℕ → List Target → Type 0
IsOnly fd uuid [] = Unit {0}
IsOnly fd uuid (t ∷ ts) = ((t.fd ≡ fd) ⊎ (t.uuid ≢ uuid)) × IsOnly fd uuid ts

same : (n : ℕ) → (n == n) ≡ true
same n = ground arith

-- What is learned at the target of a socket is found again by the name.
learn_then :
    (fd uuid : ℕ) (g : Target → Target) (ts : List Target) (t : Target)
    → get_tgtd_if (by_fd fd) ts ≡ some t
    → IsOnly fd uuid ts
    → (us ws : List Target) × (change_tgtd_if (by_fd fd) (learn uuid) ts ≡ some us)
      × (change_tgtd_if (by_uuid uuid) g us ≡ some ws)
      × (change_tgtd_if (by_fd fd) (λ x. g (learn uuid x)) ts ≡ some ws)
unfolding get_tgtd_if change_tgtd_if
learn_then fd uuid g [] t e v = absurd cc
learn_then fd uuid g (x ∷ xs) t e v = elim (Bool-cases (x.fd == fd)) [
  | inl here ↦
      (learn uuid x ∷ xs, g (learn uuid x) ∷ xs, rw here refl, rw (same uuid) refl, rw here refl)
  | inr there ↦
      let found : get_tgtd_if (by_fd fd) xs ≡ some t =
        ap (λ b. if b then some x else get_tgtd_if (by_fd fd) xs) (sym there) ∙ e in
      let ih = learn_then fd uuid g xs t found v.1 in
      let other : (x.uuid == uuid) ≡ false = elim v.0 [
        | inl f ↦ ground (arith, f, there)
        | inr n ↦ ground (arith, n)
      ] in
      (x ∷ ih.0, x ∷ ih.1, rw (there, ih.2) refl, rw (other, ih.3) refl, rw (there, ih.4) refl)
]

receiver_add_step :
    {L : Type 0} (vf : LoadbalanceVfptr L) (ep : Repep) (peer : Reqep L) (fd uuid go : ℕ) (lbs : L)
    (r : Request) (us ws : List Target)
    → rt_cur r ≡ some uuid
    → vf.select peer.lbs r.ubuf ≡ (lbs, some go)
    → change_tgtd_if (by_fd fd) (learn uuid) ep.connectors ≡ some us
    → change_tgtd_if (by_fd go) (enqueue r) peer.targets ≡ some ws
    → receiver_add vf ep peer fd r
      ≡ some (record ep { connectors = us }, record peer { targets = ws; lbs = lbs }, true)
unfolding receiver_add
receiver_add_step vf ep peer fd uuid go lbs r us ws cur selected learned queued =
    rw (cur, receiver_add)
      (rw (ap (λ p. p.1) selected, learned, queued)
        (ap (λ l. some (record ep { connectors = us }, record peer { targets = ws; lbs = l }, true))
          (ap (λ p. p.0) selected)))

-- A target that is there can be changed, and is the only one that changes.
change_there :
    (fd : ℕ) (g : Target → Target) (ts : List Target) (t : Target)
    → get_tgtd_if (by_fd fd) ts ≡ some t
    → (before after : List Target) × (ts ≡ before ++ t ∷ after)
      × (change_tgtd_if (by_fd fd) g ts ≡ some (before ++ g t ∷ after))
unfolding get_tgtd_if change_tgtd_if
change_there fd g [] t e = absurd cc
change_there fd g (x ∷ xs) t e = elim (Bool-cases (x.fd == fd)) [
  | inl here ↦
      let found : some x ≡ some t =
        ap (λ b. if b then some x else get_tgtd_if (by_fd fd) xs) (sym here) ∙ e in
      let same : x ≡ t = cc in
      ([], xs, ap (λ y. y ∷ xs) same, rw here (ap (λ y. some (g y ∷ xs)) same))
  | inr there ↦
      let found : get_tgtd_if (by_fd fd) xs ≡ some t =
        ap (λ b. if b then some x else get_tgtd_if (by_fd fd) xs) (sym there) ∙ e in
      let (before, after, all, changed) = change_there fd g xs t found in
      (x ∷ before, after, ap (λ l. x ∷ l) all, rw (there, changed) refl)
]

-- A proxy takes a request in when its balance, of whatever kind, selects a target that the back has:
-- the request is then last in the queue of just this target, which asks to send, and the balance
-- is as the selection leaves it. A reply whose route has the request's current entry as the one before
-- goes to the queue of just the target that the request came by, with one hop less.
pub dispatcher_add-receiver_add :
    {L : Type 0} (vf : LoadbalanceVfptr L) (ep : Repep) (peer : Reqep L) (fd uuid go : ℕ) (lbs : L)
    (r back : Request) (t u : Target)
    → get_tgtd_if (by_fd fd) ep.connectors ≡ some t
    → IsOnly fd uuid ep.connectors
    → vf.select peer.lbs r.ubuf ≡ (lbs, some go)
    → get_tgtd_if (by_fd go) peer.targets ≡ some u
    → rt_cur r ≡ some uuid
    → rt_prev back ≡ some uuid
    → (ep' : Repep) × (before after ts : List Target) × (receiver_add vf ep peer fd r
        ≡ some (ep', record peer { targets = before ++ enqueue r u ∷ after; lbs = lbs }, true))
      × (peer.targets ≡ before ++ u ∷ after)
      × (dispatcher_add ep' back ≡ some (record ep' { connectors = ts }, true))
      × (change_tgtd_if (by_fd fd) (λ x. enqueue (ttl_dec back) (learn uuid x)) ep.connectors
          ≡ some ts)
unfolding dispatcher_add
dispatcher_add-receiver_add vf ep peer fd uuid go lbs r back t u found only selected here cur prev =
    let (us, ts, learned, replied, same) =
      learn_then fd uuid (enqueue (ttl_dec back)) ep.connectors t found only in
    let (before, after, all, queued) = change_there go (enqueue r) peer.targets u here in
    (
      record ep { connectors = us },
      before,
      after,
      ts,
      receiver_add_step vf ep peer fd uuid go lbs r us _ cur selected learned queued,
      all,
      rw (prev, dispatcher_add) (rw replied refl),
      same,
    )
