-- ===== src/Sp/Endpoint/Removal.antt =====
-- Sockets that leave an endpoint, and the reader of an endpoint.
use proxyio.Base.{
  ℕ, zero, suc, ◌<◌, ◌≡◌, inl, inr, refl, sym, ap, ap₂, subst, ◌∙◌, false, List, [], ◌∷◌, ◌++◌,
  Option, none, some, ◌==◌, if◌then◌else◌, length, arith, Bool-cases, append-nil, append_assoc,
}
use proxyio.Msgbuf.{Msgbuf}
use proxyio.MsgbufHead.{MsgbufHead, msgbuf_head_out}
use proxyio.MsgbufHead.Order.{IsHead, msgbuf_head_out_lem}
use proxyio.Sp.Endpoint.{
  Tgtd, Epbase, mark, put_in_front, take_first, term_loop, sp_generic_term_by_fd, message,
  sp_recv_out, sp_recv,
}

-- The targets with other sockets, and those with the socket, marked.
abbrev pub others : ℕ → List Tgtd → List Tgtd
others fd [] = []
others fd (t ∷ ts) = if t.fd == fd then others fd ts else t ∷ others fd ts

abbrev pub marked : ℕ → List Tgtd → List Tgtd
marked fd [] = []
marked fd (t ∷ ts) = if t.fd == fd then mark t ∷ marked fd ts else marked fd ts

-- What `take_first` says of the two lists.
abbrev Splits : ℕ → List Tgtd → Option (Tgtd × List Tgtd) → Type 0
Splits fd ts none = (others fd ts ≡ ts) × (marked fd ts ≡ [])
Splits fd ts (some (t, us)) =
    (others fd ts ≡ others fd us)
    × (marked fd ts ≡ mark t ∷ marked fd us)
    × (length ts ≡ suc (length us))

Splits-front :
    (fd : ℕ) (t : Tgtd) (ts : List Tgtd) (r : Option (Tgtd × List Tgtd))
    → (t.fd == fd) ≡ false
    → Splits fd ts r
    → Splits fd (t ∷ ts) (put_in_front t r)
Splits-front fd t ts none e s = (rw e (ap (λ x. t ∷ x) s.0), rw e s.1)
Splits-front fd t ts (some (u, us)) e s = (rw e (ap (λ x. t ∷ x) s.0), rw e s.1, omega (arith, s.2))

take_first-Splits : (fd : ℕ) (ts : List Tgtd) → Splits fd ts (take_first fd ts)
unfolding take_first
take_first-Splits fd [] = (refl, refl)
take_first-Splits fd (t ∷ ts) = elim (Bool-cases (t.fd == fd)) [
  | inl e ↦
      subst (λ x. Splits fd (t ∷ ts) x)
        (ap (λ b. if b then some (t, ts) else put_in_front t (take_first fd ts)) (sym e))
        (rw e refl, rw e refl, refl)
  | inr e ↦
      subst (λ x. Splits fd (t ∷ ts) x)
        (ap (λ b. if b then some (t, ts) else put_in_front t (take_first fd ts)) (sym e))
        (Splits-front fd t ts (take_first fd ts) e (take_first-Splits fd ts))
]

term_loop_lem :
    (fuel fd : ℕ) (ts bads : List Tgtd)
    → length ts < fuel
    → term_loop fuel fd ts bads ≡ (others fd ts, bads ++ marked fd ts)
unfolding term_loop
term_loop_lem zero fd ts bads h = absurd (omega (arith, h))
term_loop_lem (suc fuel) fd ts bads h =
    go (take_first fd ts) (take_first-Splits fd ts) (term_loop_lem fuel fd)
  where
    go :
        (r : Option (Tgtd × List Tgtd))
        → Splits fd ts r
        → ((us cs : List Tgtd)
            → length us < fuel
            → term_loop fuel fd us cs ≡ (others fd us, cs ++ marked fd us))
        → ◌≡◌ {A = List Tgtd × List Tgtd}
            (elim r [
              | none ↦ (ts, bads)
              | some (t, us) ↦ term_loop fuel fd us (bads ++ mark t ∷ [])
            ])
            (others fd ts, bads ++ marked fd ts)
    go none s ih =
        ap₂ (λ a b. (a, b)) (sym s.0) (sym (append-nil bads) ∙ ap (λ x. bads ++ x) (sym s.1))
    go (some (t, us)) s ih =
        ih us (bads ++ mark t ∷ []) (omega (arith, s.2, h))
        ∙ ap₂ (λ a b. (a, b)) (sym s.0)
            (append_assoc bads (mark t ∷ []) (marked fd us) ∙ ap (λ x. bads ++ x) (sym s.1))

-- Removing a socket moves all targets with it, connectors first, behind the bad sockets, marked, and
-- leaves all the others in their order. The loops end.
pub sp_generic_term_by_fd_lem :
    (ep : Epbase) (fd : ℕ)
    → let ep' = sp_generic_term_by_fd ep fd in
      (ep'.connectors ≡ others fd ep.connectors)
      × (ep'.listeners ≡ others fd ep.listeners)
      × (ep'.bad_socks ≡ ep.bad_socks ++ (marked fd ep.connectors ++ marked fd ep.listeners))
unfolding sp_generic_term_by_fd
sp_generic_term_by_fd_lem ep fd = (
  ap (λ r. r.0) c,
  ap (λ r. r.0) l,
  ap (λ r. r.1) l
      ∙ ap (λ r. r.1 ++ marked fd ep.listeners) c
      ∙ append_assoc ep.bad_socks (marked fd ep.connectors) (marked fd ep.listeners),
)
  where
    c :
        term_loop (suc (length ep.connectors)) fd ep.connectors ep.bad_socks
        ≡ (others fd ep.connectors, ep.bad_socks ++ marked fd ep.connectors)
    c = term_loop_lem (suc (length ep.connectors)) fd ep.connectors ep.bad_socks (omega arith)

    bads : List Tgtd
    bads = (term_loop (suc (length ep.connectors)) fd ep.connectors ep.bad_socks).1

    l :
        term_loop (suc (length ep.listeners)) fd ep.listeners bads
        ≡ (others fd ep.listeners, bads ++ marked fd ep.listeners)
    l = term_loop_lem (suc (length ep.listeners)) fd ep.listeners bads (omega arith)

recv_test :
    (ep : Epbase) (m : Msgbuf) (ms : List Msgbuf)
    → ep.shutdown ≡ false
    → ep.rcv.head ≡ m ∷ ms
    → sp_recv ep ≡ sp_recv_out ep (msgbuf_head_out ep.rcv)
unfolding sp_recv
recv_test ep m ms running e = rw (running, e) refl

-- With a message there, the reader of an open endpoint gets the first one, and never waits or aborts.
pub sp_recv_lem :
    (ep : Epbase) (m : Msgbuf) (ms : List Msgbuf)
    → ep.shutdown ≡ false
    → IsHead ep.rcv
    → ep.rcv.head ≡ m ∷ ms
    → (bh : MsgbufHead) × (sp_recv ep ≡ message (record ep { rcv = bh }) m)
      × IsHead bh
      × (bh.head ≡ ms)
unfolding sp_recv_out
sp_recv_lem ep m ms running v e = elim (msgbuf_head_out_lem ep.rcv v) [
  | inl x ↦ absurd cc
  | inr (bh, n, out, first, valid, wnd, hndl) ↦
      let same : n ∷ bh.head ≡ m ∷ ms = sym first ∙ e in
      (
        bh,
        recv_test ep m ms running e
            ∙ ap (sp_recv_out ep) out
            ∙ ap (λ x. message (record ep { rcv = bh }) x) cc,
        valid,
        cc,
      )
]
