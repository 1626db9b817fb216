-- ===== src/Poll/Ready.antt =====
-- The order of a poller's entries: those with events stand first, and a wait returns them all.
use proxyio.Base.{
  ℕ, zero, suc, ◌≡◌, refl, sym, ap, ◌⊎◌, inl, inr, Bool, true, false, List, [], ◌∷◌, ◌++◌, Option,
  none, some, take, if◌then◌else◌, Bool-cases, take-nil,
}
use proxyio.Poll.{PollFd, PollEntry, Xpoll, happens_now, unlink, wait_walk, xpoll_wait}

abbrev pub AreIdle : List PollEntry → Type 0
AreIdle [] = Unit {0}
AreIdle (e ∷ es) = (happens_now e ≡ false) × AreIdle es

-- No entry with an event stands behind one without.
abbrev pub IsSorted : List PollEntry → Type 0
IsSorted [] = Unit {0}
IsSorted (e ∷ es) = ((happens_now e ≡ true) × IsSorted es) ⊎ ((happens_now e ≡ false) × AreIdle es)

-- The entries with an event, as the caller sees them.
abbrev pub ready : List PollEntry → List PollFd
ready [] = []
ready (e ∷ es) = if happens_now e then e.pollfd ∷ ready es else ready es

idle-IsSorted : (es : List PollEntry) → AreIdle es → IsSorted es
idle-IsSorted [] v = tt
idle-IsSorted (e ∷ es) v = inr (v.0, v.1)

idle-ready : (es : List PollEntry) → AreIdle es → ready es ≡ []
idle-ready [] v = refl
idle-ready (e ∷ es) v = rw (v.0) (idle-ready es v.1)

idle-append :
    (es : List PollEntry) (e : PollEntry)
    → AreIdle es
    → happens_now e ≡ false
    → AreIdle (es ++ e ∷ [])
idle-append [] e v h = (h, tt)
idle-append (x ∷ es) e v h = (v.0, idle-append es e v.1 h)

pub append-IsSorted :
    (es : List PollEntry) (e : PollEntry)
    → IsSorted es
    → happens_now e ≡ false
    → IsSorted (es ++ e ∷ [])
append-IsSorted [] e v h = inr (h, tt)
append-IsSorted (x ∷ es) e (inl (a, v)) h = inl (a, append-IsSorted es e v h)
append-IsSorted (x ∷ es) e (inr (a, v)) h = inr (a, idle-append es e v h)

-- A wait returns the entries with an event, all of them or as many as there is room for.
pub xpoll_wait_lem :
    (self : Xpoll) (size : ℕ)
    → IsSorted self.lru_head
    → xpoll_wait self size ≡ take size (ready self.lru_head)
unfolding xpoll_wait wait_walk
xpoll_wait_lem self size v = go self.lru_head size v
  where
    go : (es : List PollEntry) (n : ℕ) → IsSorted es → wait_walk es n ≡ take n (ready es)
    go [] n v = sym (take-nil n)
    go (e ∷ es) zero v = refl
    go (e ∷ es) (suc n) (inl (a, v)) = rw (a) (ap (λ x. e.pollfd ∷ x) (go es n v))
    go (e ∷ es) (suc n) (inr (a, v)) = rw (a) (sym (ap (take (suc n)) (idle-ready es v)))

-- What `unlink` leaves is in the same order.
abbrev pub Rest : (List PollEntry → Type 0) → Option (PollEntry × List PollEntry) → Type 0
Rest P none = Unit {0}
Rest P (some (e, es)) = P es

module _ (p : PollEntry → Bool) where
  unlink-AreIdle : (es : List PollEntry) → AreIdle es → Rest AreIdle (unlink p es)
  unfolding unlink
  unlink-AreIdle [] v = tt
  unlink-AreIdle (e ∷ es) v = elim (Bool-cases (p e)) [
    | inl t ↦ rw t (v.1)
    | inr f ↦ rw f (behind (unlink p es) (unlink-AreIdle es v.1))
  ]
    where
      behind :
          (o : Option (PollEntry × List PollEntry))
          → Rest AreIdle o
          → Rest AreIdle (elim o [ none ↦ none | some (x, xs) ↦ some (x, e ∷ xs) ])
      behind none r = tt
      behind (some (x, xs)) r = (v.0, r)

  pub unlink-IsSorted : (es : List PollEntry) → IsSorted es → Rest IsSorted (unlink p es)
  unfolding unlink
  unlink-IsSorted [] v = tt
  unlink-IsSorted (e ∷ es) (inl (a, v)) = elim (Bool-cases (p e)) [
    | inl t ↦ rw t v
    | inr f ↦ rw f (behind (unlink p es) (unlink-IsSorted es v))
  ]
    where
      behind :
          (o : Option (PollEntry × List PollEntry))
          → Rest IsSorted o
          → Rest IsSorted (elim o [ none ↦ none | some (x, xs) ↦ some (x, e ∷ xs) ])
      behind none r = tt
      behind (some (x, xs)) r = inl (a, r)
  unlink-IsSorted (e ∷ es) (inr (a, v)) =
      sorted (unlink p (e ∷ es)) (unlink-AreIdle (e ∷ es) (a, v))
    where
      sorted : (o : Option (PollEntry × List PollEntry)) → Rest AreIdle o → Rest IsSorted o
      sorted none r = tt
      sorted (some (x, xs)) r = idle-IsSorted xs r
