-- ===== src/Sp/Reqrep/Replying.antt =====
-- A reply leaves by the socket that its request came by.
use proxyio.Base.{
  ℕ, ◌≡◌, inl, inr, refl, sym, ap, ◌∙◌, true, false, List, [], ◌∷◌, ◌++◌, some, arith, ◌==◌,
  Bool-cases, if◌then◌else◌,
}
use proxyio.Sp.Reqrep.Header.{Request, rt_cur}
use proxyio.Sp.Reqrep.{
  Target, Repep, get_tgtd_if, change_tgtd_if, del_tgtd_if, by_fd, by_uuid, learn, turn_back,
  repep_add, repep_send,
}
use proxyio.Sp.Reqrep.Routing.{IsOnly}

same : (n : ℕ) → (n == n) ≡ true
same n = ground arith

learn_get :
    (fd uuid : ℕ) (ts : List Target) (t : Target)
    → get_tgtd_if (by_fd fd) ts ≡ some t
    → IsOnly fd uuid ts
    → (us : List Target) × (u : Target) × (change_tgtd_if (by_fd fd) (learn uuid) ts ≡ some us)
      × (get_tgtd_if (by_uuid uuid) us ≡ some u)
      × (u.fd ≡ fd)
unfolding get_tgtd_if change_tgtd_if
learn_get fd uuid [] t e v = absurd cc
learn_get fd uuid (x ∷ xs) t e v = elim (Bool-cases (x.fd == fd)) [
  | inl here ↦
      (learn uuid x ∷ xs, learn uuid x, rw here refl, rw (same uuid) refl, ground (arith, here))
  | inr there ↦
      let found : get_tgtd_if (by_fd fd) xs ≡ some t =
        ap (λ b. if b then some x else get_tgtd_if (by_fd fd) xs) (sym there) ∙ e in
      let ih = learn_get fd uuid xs t found v.1 in
      let other : (x.uuid == uuid) ≡ false = elim v.0 [
        | inl f ↦ ground (arith, f, there)
        | inr n ↦ ground (arith, n)
      ] in
      (x ∷ ih.0, ih.1, rw (there, ih.2) refl, rw (other, ih.3) refl, ih.4)
]

add_step :
    (ep : Repep) (fd uuid : ℕ) (r : Request) (us : List Target)
    → rt_cur r ≡ some uuid
    → change_tgtd_if (by_fd fd) (learn uuid) ep.connectors ≡ some us
    → repep_add ep fd r ≡ some (record ep { connectors = us; rcv = ep.rcv ++ r ∷ [] })
unfolding repep_add
add_step ep fd uuid r us cur learned = rw (cur, repep_add) (rw learned refl)

send_step :
    (ep : Repep) (uuid : ℕ) (r : Request) (u : Target)
    → rt_cur r ≡ some uuid
    → get_tgtd_if (by_uuid uuid) ep.connectors ≡ some u
    → repep_send ep r
      ≡ some (
        record ep { connectors = u ∷ del_tgtd_if (by_uuid uuid) ep.connectors },
        turn_back r,
        some u.fd,
      )
unfolding repep_send
send_step ep uuid r u cur found = rw (cur, repep_send) (rw (found, repep_send) refl)

-- A request that comes in is put last in the queue; a reply with the same current entry goes to the
-- socket that the request came by, whatever was known of it before.
pub repep_send-repep_add :
    (ep : Repep) (fd uuid : ℕ) (r back : Request) (t : Target)
    → get_tgtd_if (by_fd fd) ep.connectors ≡ some t
    → IsOnly fd uuid ep.connectors
    → rt_cur r ≡ some uuid
    → rt_cur back ≡ some uuid
    → (ep' ep'' : Repep) × (repep_add ep fd r ≡ some ep')
      × (ep'.rcv ≡ ep.rcv ++ r ∷ [])
      × (repep_send ep' back ≡ some (ep'', turn_back back, some fd))
repep_send-repep_add ep fd uuid r back t found only cur cur' =
    let l = learn_get fd uuid ep.connectors t found only in
    let ep' : Repep = record ep { connectors = l.0; rcv = ep.rcv ++ r ∷ [] } in
    let ep'' : Repep = record ep' { connectors = l.1 ∷ del_tgtd_if (by_uuid uuid) l.0 } in
    (
      ep',
      ep'',
      add_step ep fd uuid r l.0 cur l.2,
      refl,
      send_step ep' uuid back l.1 cur' l.3 ∙ ap (λ n. some (ep'', turn_back back, some n)) l.4,
    )
