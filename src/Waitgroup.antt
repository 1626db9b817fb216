-- ===== src/Waitgroup.antt =====
-- src/utils/waitgroup.c: a count of workers that are not done. Each operation holds the mutex; a
-- `condition_broadcast` is a result. The count is an `int`, as a bit pattern.
use proxyio.Base.{
  ℕ, zero, suc, ◌^◌, ◌<◌, ◌≡◌, refl, ap, ◌∙◌, Bool, true, false, List, [], ◌∷◌, ◌++◌, replicate,
  arith, ◌==◌,
}
use proxyio.MsgbufHead.{add_int, sub_int, is_positive}

pub record Waitgroup : Type 0 where
  pub ref : ℕ

unfoldable pub waitgroup_init : Waitgroup
waitgroup_init = record { ref = 0 }

unfoldable pub waitgroup_adds : Waitgroup → ℕ → Waitgroup
waitgroup_adds wg refs = record { ref = add_int wg.ref refs }

-- Whether the waiters are woken.
unfoldable pub waitgroup_dones : Waitgroup → ℕ → Waitgroup × Bool
waitgroup_dones wg refs = (record { ref = sub_int wg.ref refs }, sub_int wg.ref refs == 0)

unfoldable pub waitgroup_add : Waitgroup → Waitgroup
waitgroup_add wg = waitgroup_adds wg 1

unfoldable pub waitgroup_done : Waitgroup → Waitgroup × Bool
waitgroup_done wg = waitgroup_dones wg 1

-- Whether a waiter that holds the mutex goes to sleep.
unfoldable pub waitgroup_wait : Waitgroup → Bool
waitgroup_wait wg = is_positive wg.ref

-- So many workers get done: what each of them wakes, and whether a waiter sleeps before that.
abbrev pub done_times : ℕ → Waitgroup → Waitgroup × List (Bool × Bool)
done_times zero wg = (wg, [])
done_times (suc n) wg =
    let (wg', woken) = waitgroup_done wg in
    let (wg'', more) = done_times n wg' in (wg'', (waitgroup_wait wg, woken) ∷ more)

done_more :
    (n : ℕ)
    → suc (suc n) < 2 ^ 31
    → waitgroup_done (record { ref = suc (suc n) }) ≡ (record { ref = suc n }, false)
unfolding waitgroup_done waitgroup_dones
done_more n h =
    ap (λ k. (record { ref = k }, k == 0)) (omega arith)
    ∙ ap (λ b. (record { ref = suc n }, b)) positive
  where
    positive : (suc n == 0) ≡ false
    positive = ground arith

done_last : waitgroup_done (record { ref = 1 }) ≡ (waitgroup_init, true)
unfolding waitgroup_done waitgroup_dones waitgroup_init
done_last = refl

sleeps : (n : ℕ) → suc n < 2 ^ 31 → waitgroup_wait (record { ref = suc n }) ≡ true
unfolding waitgroup_wait
sleeps n h = ground arith

-- When `n` workers were added and each gets done, a waiter sleeps until the last of them is, and just
-- the last wakes it.
pub done_times_lem :
    (n : ℕ)
    → suc n < 2 ^ 31
    → done_times (suc n) (waitgroup_adds waitgroup_init (suc n))
      ≡ (waitgroup_init, replicate n (true, false) ++ (true, true) ∷ [])
unfolding waitgroup_adds waitgroup_init
done_times_lem n h = ap (λ k. done_times (suc n) (record { ref = k })) (omega arith) ∙ go n h
  where
    go :
        (n : ℕ)
        → suc n < 2 ^ 31
        → done_times (suc n) (record { ref = suc n })
          ≡ (record { ref = 0 }, replicate n (true, false) ++ (true, true) ∷ [])
    go zero h =
        ap (λ r. (r.0, (waitgroup_wait (record { ref = 1 }), r.1) ∷ [])) done_last
        ∙ ap (λ b. (record { ref = 0 }, (b, true) ∷ [])) (sleeps 0 (omega arith))
    go (suc n) h =
        ap
          (λ r. (
            (done_times (suc n) r.0).0,
            (waitgroup_wait (record { ref = suc (suc n) }), r.1) ∷ (done_times (suc n) r.0).1,
          ))
          (done_more n h)
        ∙ ap
            (λ b. (
              (done_times (suc n) (record { ref = suc n })).0,
              (b, false) ∷ (done_times (suc n) (record { ref = suc n })).1,
            ))
            (sleeps (suc n) h)
        ∙ ap (λ r. (r.0, (true, false) ∷ r.1)) (go n (omega (arith, h)))
