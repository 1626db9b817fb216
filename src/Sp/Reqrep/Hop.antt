-- ===== src/Sp/Reqrep/Hop.antt =====
-- What a hop does to the header of a request, and to its place.
use proxyio.Base.{
  ℕ, zero, suc, ◌+◌, ◌*◌, ◌-◌, ◌%◌, ◌<◌, ◌≡◌, ◌≢◌, ◌⊎◌, inl, inr, refl, ap, ap₂, ◌∙◌, Bool, true,
  false, ◌||◌, List, [], ◌∷◌, ◌++◌, none, some, map, arith, length, ltb, ◌==◌, get_elem?, set,
  Bool-cases, length-append, if◌then◌else◌,
}
use proxyio.Msgbuf.{Msgbuf, add_u32}
use proxyio.Msgbuf.Frame.{msghdr_size, subnummark, cmsglenmark}
use proxyio.Sp.Reqrep.Header.{
  Rrhdr, Sub, route, other, Request, sub_lens, subs_length, uctl_add, get_rrhdr, hdr_cur, hdr_prev,
  hdr_append, rt_cur, rt_prev, rt_append,
}

-- Every entry of the route is in use.
pub record IsRoute (h : Rrhdr) : Type 0 where
  pub used : h.ttl ≡ length h.rt
  pub some_hop : 0 < h.ttl
  pub fits : h.ttl < 16

set_last : (xs : List ℕ) (u : ℕ) → set (xs ++ 0 ∷ []) (length xs) u ≡ xs ++ u ∷ []
set_last [] u = refl
set_last (x ∷ xs) u = ap (λ ys. x ∷ ys) (set_last xs u)

get_last : (xs : List ℕ) (u : ℕ) → get_elem? (xs ++ u ∷ []) (length xs) ≡ some u
get_last [] u = refl
get_last (x ∷ xs) u = get_last xs u

get_before : (xs : List ℕ) (u i : ℕ) → i < length xs → get_elem? (xs ++ u ∷ []) i ≡ get_elem? xs i
get_before [] u i h = absurd (omega (arith, h))
get_before (x ∷ xs) u zero h = refl
get_before (x ∷ xs) u (suc i) h = get_before xs u i (omega (arith, h))

-- The header that a hop writes.
hdr_append_lem :
    (h : Rrhdr) (uuid : ℕ)
    → IsRoute h
    → ((h.ttl ≡ 15) × (hdr_append h uuid ≡ none))
      ⊎ ((h' : Rrhdr) × (hdr_append h uuid ≡ some h')
          × (h.ttl < 15)
          × IsRoute h'
          × (h'.rt ≡ h.rt ++ uuid ∷ [])
          × (hdr_cur h' ≡ some uuid)
          × (hdr_prev h' ≡ hdr_cur h))
unfolding hdr_append hdr_cur hdr_prev
hdr_append_lem h uuid v = elim (Bool-cases (ltb ((h.ttl + 1) % 16) 1)) [
  | inl e ↦ inl (ground (arith, e, v.fits), rw e refl)
  | inr e ↦
      let less : h.ttl < 15 = ground (arith, e, v.fits) in
      let ttl : (h.ttl + 1) % 16 ≡ h.ttl + 1 = omega (arith, less) in
      let rt : set (h.rt ++ 0 ∷ []) ((h.ttl + 1) % 16 - 1) uuid ≡ h.rt ++ uuid ∷ [] =
        ap (λ k. set (h.rt ++ 0 ∷ []) k uuid) (omega (arith, ttl, v.used)) ∙ set_last h.rt uuid in
      let h' : Rrhdr = record h {
        ttl = (h.ttl + 1) % 16;
        rt = set (h.rt ++ 0 ∷ []) ((h.ttl + 1) % 16 - 1) uuid;
      } in
      let two : ltb ((h.ttl + 1) % 16) 2 ≡ false = ground (arith, ttl, v.some_hop) in
      let one : ltb h.ttl 1 ≡ false = ground (arith, v.some_hop) in
      inr (
        h',
        rw e refl,
        less,
        record {
          used = omega (arith, ttl, v.used, ap length rt, length-append h.rt (uuid ∷ []));
          some_hop = omega (arith, ttl);
          fits = omega (arith, ttl, less);
        },
        rt,
        rw e (ap₂ get_elem? rt (omega (arith, ttl, v.used)) ∙ get_last h.rt uuid),
        rw (two, one)
            (ap₂ get_elem? rt (omega (arith, ttl))
              ∙ get_before h.rt uuid (h.ttl - 1) (omega (arith, v.used, v.some_hop))),
      )
]

append_step :
    (r : Request) (h h' : Rrhdr) (others : List Sub) (uuid : ℕ)
    → r.subs ≡ route h ∷ others
    → hdr_append h uuid ≡ some h'
    → rt_append r uuid ≡ some (record r { subs = uctl_add others (route h') })
unfolding rt_append
append_step r h h' others uuid e f = rw (e, rt_append) (rw (f, rt_append) refl)

append_abort :
    (r : Request) (h : Rrhdr) (others : List Sub) (uuid : ℕ)
    → r.subs ≡ route h ∷ others
    → hdr_append h uuid ≡ none
    → rt_append r uuid ≡ none
unfolding rt_append
append_abort r h others uuid e f = rw (e, rt_append) (rw (f, rt_append) refl)

-- A header always fits as the only control message.
alone : (h : Rrhdr) → IsRoute h → uctl_add [] (route h) ≡ route h ∷ []
unfolding uctl_add sub_lens
alone h v = rw fits refl
  where
    fits :
        (0 == subnummark || ltb cmsglenmark (add_u32 0 (msghdr_size + 24 + 34 * length h.rt)))
        ≡ false
    fits = ground (arith, v.used, v.fits)

-- Behind another control message the header is not the first any more.
behind :
    (r : Request) (m : Msgbuf) (others : List Sub) (s : Sub)
    → get_rrhdr (record r { subs = uctl_add (other m ∷ others) s }) ≡ none
unfolding uctl_add get_rrhdr
behind r m others s = go refused
  where
    refused : Bool
    refused =
        length (other m ∷ others) == subnummark
        || ltb cmsglenmark (add_u32 (subs_length (other m ∷ others)) (sub_lens s))

    go :
        (b : Bool)
        → get_rrhdr (record r { subs = if b then other m ∷ others else other m ∷ others ++ s ∷ [] })
          ≡ none
    go true = refl
    go false = refl

-- A hop on the header of a request, which is the first of its control messages. The sixteenth hop
-- meets the BUG_ON. When the header is the only one, its name comes at the end of the route, as the
-- current entry, and the entry that was current is the one before. When the user's control messages
-- follow the header, the hop leaves a request whose first control message is no header.
pub rt_append_lem :
    (r : Request) (h : Rrhdr) (others : List Msgbuf) (uuid : ℕ)
    → r.subs ≡ route h ∷ map other others
    → IsRoute h
    → ((h.ttl ≡ 15) × (rt_append r uuid ≡ none))
      ⊎ ((r' : Request) × (rt_append r uuid ≡ some r')
          × (h.ttl < 15)
          × (((others ≡ [])
                × (h' : Rrhdr) × (r'.subs ≡ route h' ∷ [])
                × IsRoute h'
                × (h'.rt ≡ h.rt ++ uuid ∷ [])
                × (rt_cur r' ≡ some uuid)
                × (rt_prev r' ≡ rt_cur r))
              ⊎ ((others ≢ []) × (get_rrhdr r' ≡ none))))
unfolding rt_cur rt_prev get_rrhdr
rt_append_lem r h others uuid e v = elim (hdr_append_lem h uuid v) [
  | inl (full, f) ↦ inl (full, append_abort r h (map other others) uuid e f)
  | inr (h', f, less, w, rt, cur, prev) ↦
      inr (_, append_step r h h' (map other others) uuid e f, less, kinds h' w rt cur prev others)
]
  where
    kinds :
        (h' : Rrhdr)
        → IsRoute h'
        → h'.rt ≡ h.rt ++ uuid ∷ []
        → hdr_cur h' ≡ some uuid
        → hdr_prev h' ≡ hdr_cur h
        → (ms : List Msgbuf)
        → let r' : Request = record r { subs = uctl_add (map other ms) (route h') } in
          ((ms ≡ [])
            × (h'' : Rrhdr) × (r'.subs ≡ route h'' ∷ [])
            × IsRoute h''
            × (h''.rt ≡ h.rt ++ uuid ∷ [])
            × (rt_cur r' ≡ some uuid)
            × (rt_prev r' ≡ rt_cur r))
          ⊎ ((ms ≢ []) × (get_rrhdr r' ≡ none))
    kinds h' w rt cur prev [] =
        inl (refl, h', alone h' w, w, rt, rw (alone h' w) cur, rw (alone h' w, e) prev)
    kinds h' w rt cur prev (m ∷ ms) = inr (λ x. absurd (cc), behind r m (map other ms) (route h'))
