-- ===== src/Inproc/Ends.antt =====
-- The two ends of a connection inside the process, in every order of sends, receptions and closings.
use proxyio.Base.{
  ℕ, ◌+◌, ◌-◌, ◌<◌, ◌≡◌, refl, sym, ap, subst, ◌∙◌, ◌⊎◌, inl, inr, Bool, true, false, Option, none,
  some, ◌==◌, if◌then◌else◌, Bool-cases, arith,
}
use proxyio.Msgbuf.{Msgbuf}
use proxyio.Socket.{has_waiters, Sockbase, Effects, Turn, waits, did, rcv_msgbuf_head_add, xclose}
use proxyio.Inproc.{
  InprocSock, Pair, swap, inproc_open, Bound, bound, inproc_connector_bind, sent_to, inproc_send,
  drop_ref, inproc_connector_close,
}

-- The ends, and which of them the program has not closed yet.
pub record Ends : Type 0 where
  pub pair : Pair
  pub near_open : Bool
  pub far_open : Bool

abbrev pub turn_round : Ends → Ends
turn_round e = record { pair = swap e.pair; near_open = e.far_open; far_open = e.near_open }

abbrev one : Bool → ℕ
one b = if b then 1 else 0

abbrev pub opened : Ends → ℕ
opened e = one e.near_open + one e.far_open

-- A connection as `inproc_connector_bind` makes it; sends; receptions, which change a socket's queue;
-- and closings, each by an end that is open.
pub data Reachable : Ends → Type 0 where
  binds :
      {p : Pair} (listener : Sockbase) (fd new_fd : ℕ) (turn : Turn (Unit {0}))
      → inproc_connector_bind (some listener) (some new_fd) (inproc_open fd) ≡ bound p turn
      → Reachable (record { pair = p; near_open = true; far_open = true })
  sends :
      {e : Ends} {p : Pair} (msg : Msgbuf) (eff : Effects)
      → Reachable e
      → e.near_open ≡ true
      → inproc_send e.pair msg ≡ some (p, eff)
      → Reachable (record e { pair = p })
  receives :
      {e : Ends} (s : InprocSock) (sb : Sockbase)
      → Reachable e
      → e.near_open ≡ true
      → e.pair.near ≡ some s
      → Reachable (record e { pair = record e.pair { near = some (record s { base = sb }) } })
  closes :
      {e : Ends} {p : Pair} (woken : Bool)
      → Reachable e
      → e.near_open ≡ true
      → inproc_connector_close e.pair ≡ some (p, woken)
      → Reachable (record { pair = p; near_open = false; far_open = e.far_open })
  turns : {e : Ends} → Reachable e → Reachable (turn_round e)

-- A socket is there as long as an end is open, and its references are the open ends.
abbrev pub Held : ℕ → Option InprocSock → Type 0
Held n none = n ≡ 0
Held n (some s) = (s.ref ≡ n) × (0 < n)

pub record IsHeld (e : Ends) : Type 0 where
  pub near_held : Held (opened e) e.pair.near
  pub far_held : Held (opened e) e.pair.far

drop_ref-Held : (s : InprocSock) (n : ℕ) → s.ref ≡ n + 1 → Held n (drop_ref s)
unfolding drop_ref
drop_ref-Held s n e = elim (Bool-cases (s.ref == 1)) [
  | inl last ↦
      subst (λ b. Held n (if b then none else some (record s { ref = s.ref - 1 }))) (sym last)
        (ground (arith, last, e))
  | inr more ↦
      subst (λ b. Held n (if b then none else some (record s { ref = s.ref - 1 }))) (sym more)
        (omega (arith, e), ground (arith, more, e))
]

-- What an operation leaves, if it returns.
abbrev Leaves {ℓ} : {A : Type ℓ} → ℕ → Option (Pair × A) → Type 0
Leaves n none = Unit {0}
Leaves n (some (p, a)) = Held n p.near × Held n p.far

sent_to-Leaves :
    (n : ℕ) (p : Pair) (peer : InprocSock) (t : Turn (Unit {0}))
    → Held n p.near
    → Held n (some peer)
    → Leaves n (sent_to p peer t)
unfolding sent_to
sent_to-Leaves n p peer (did sb x eff) h k = (h, k)
sent_to-Leaves n p peer (waits sb) h k = tt
sent_to-Leaves n p peer Turn.bug h k = tt

inproc_send-Leaves :
    (n : ℕ) (p : Pair) (msg : Msgbuf) → Held n p.near → Held n p.far → Leaves n (inproc_send p msg)
unfolding inproc_send
inproc_send-Leaves n p msg h k = go p.far k
  where
    go :
        (o : Option InprocSock)
        → Held n o
        → Leaves n (elim o [
          | none ↦ none
          | some peer ↦ sent_to p peer (rcv_msgbuf_head_add peer.base msg)
        ])
    go none k = tt
    go (some peer) k = sent_to-Leaves n p peer (rcv_msgbuf_head_add peer.base msg) h k

close-Leaves :
    (n : ℕ) (p : Pair)
    → Held (n + 1) p.near
    → Held (n + 1) p.far
    → Leaves n (inproc_connector_close p)
unfolding inproc_connector_close
close-Leaves n p h k = go p.near h
  where
    both :
        (self : InprocSock)
        → self.ref ≡ n + 1
        → (o : Option InprocSock) → Held (n + 1) o
        → Leaves n (elim o [
          | none ↦ none
          | some peer ↦
              let marked : InprocSock = record self { base = (xclose self.base).0 } in
              some (record { near = drop_ref marked; far = drop_ref peer }, has_waiters peer.base)
        ])
    both self e none k = tt
    both self e (some peer) k =
        (drop_ref-Held (record self { base = (xclose self.base).0 }) n e, drop_ref-Held peer n k.0)

    go :
        (o : Option InprocSock)
        → Held (n + 1) o
        → Leaves n (elim o [
          | none ↦ none
          | some self ↦ elim p.far [
            | none ↦ none
            | some peer ↦
                let marked : InprocSock = record self { base = (xclose self.base).0 } in
                some (record { near = drop_ref marked; far = drop_ref peer }, has_waiters peer.base)
          ]
        ])
    go none h = tt
    go (some self) h = both self h.0 p.far k

abbrev BindHeld : Bound → Type 0
BindHeld (bound p turn) = Held 2 p.near × Held 2 p.far
BindHeld _ = Unit {0}

bind-Held :
    (listener : Sockbase) (fd new_fd : ℕ)
    → BindHeld (inproc_connector_bind (some listener) (some new_fd) (inproc_open fd))
unfolding inproc_connector_bind inproc_open
bind-Held listener fd new_fd = ((refl, omega arith), (refl, omega arith))

turn_count : (e : Ends) → opened e ≡ opened (turn_round e)
turn_count e = omega arith

Reachable-IsHeld : {e : Ends} → Reachable e → IsHeld e
Reachable-IsHeld (binds {p} listener fd new_fd turn x) =
    let h : Held 2 p.near × Held 2 p.far = subst BindHeld x (bind-Held listener fd new_fd) in
    record { near_held = h.0; far_held = h.1 }
Reachable-IsHeld (sends {e} {p} msg eff r o x) =
    let v = Reachable-IsHeld r in
    let h : Held (opened e) p.near × Held (opened e) p.far =
      subst (Leaves (opened e)) x
        (inproc_send-Leaves (opened e) e.pair msg v.near_held v.far_held) in
    record { near_held = h.0; far_held = h.1 }
Reachable-IsHeld (receives {e} s sb r o x) =
    let v = Reachable-IsHeld r in
    record { near_held = subst (Held (opened e)) x v.near_held; far_held = v.far_held }
Reachable-IsHeld (closes {e} {p} woken r o x) =
    let v = Reachable-IsHeld r in
    let n : ℕ = one false + one e.far_open in
    let count : opened e ≡ n + 1 = ap (λ b. one b + one e.far_open) o ∙ omega arith in
    let h : Held n p.near × Held n p.far = subst (Leaves n) x (
      close-Leaves n e.pair (subst (λ k. Held k e.pair.near) count v.near_held)
        (subst (λ k. Held k e.pair.far) count v.far_held)) in
    record { near_held = h.0; far_held = h.1 }
Reachable-IsHeld (turns {e} r) =
    let v = Reachable-IsHeld r in
    record {
      near_held = subst (λ n. Held n e.pair.far) (turn_count e) v.far_held;
      far_held = subst (λ n. Held n e.pair.near) (turn_count e) v.near_held;
    }

-- In every order of sends, receptions and closings of the two ends, both sockets are there as long as
-- one end is open, so that an end never uses the freed memory of the other, and both are freed when
-- the last end is closed.
pub opened-Reachable :
    {e : Ends}
    → Reachable e
    → ((opened e ≡ 0) × (e.pair.near ≡ none) × (e.pair.far ≡ none))
      ⊎ ((0 < opened e)
          × (s s' : InprocSock) × (e.pair.near ≡ some s)
          × (e.pair.far ≡ some s')
          × (s.ref ≡ opened e)
          × (s'.ref ≡ opened e))
opened-Reachable {e} r =
    let v = Reachable-IsHeld r in go e.pair.near e.pair.far v.near_held v.far_held
  where
    go :
        (a b : Option InprocSock)
        → Held (opened e) a
        → Held (opened e) b
        → ((opened e ≡ 0) × (a ≡ none) × (b ≡ none))
          ⊎ ((0 < opened e)
              × (s s' : InprocSock) × (a ≡ some s)
              × (b ≡ some s')
              × (s.ref ≡ opened e)
              × (s'.ref ≡ opened e))
    go none none h k = inl (h, refl, refl)
    go none (some s) h k = absurd (omega (arith, h, k.1))
    go (some s) none h k = absurd (omega (arith, k, h.1))
    go (some s) (some s') h k = inr (h.1, s, s', refl, refl, h.0, k.0)
