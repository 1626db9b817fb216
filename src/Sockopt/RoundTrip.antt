-- ===== src/Sockopt/RoundTrip.antt =====
-- What is set is read back.
use proxyio.Base.{
  ℕ, ◌%◌, ◌≡◌, refl, sym, ap, subst, inl, inr, Bool, true, not, ◌||◌, Option, some, ◌==◌,
  if◌then◌else◌, Bool-cases, arith,
}
use proxyio.Sp.Endpoint.Options.{opt_vfptr}
use proxyio.Sockopt.{
  Optsock, RexSo, Opt, done, int_of, get_noblock, get_sndbuf, get_rcvbuf, get_verbose, set_noblock,
  set_sndbuf, set_rcvbuf, set_verbose, inproc_getopt, inproc_setopt, mix_getopt, mix_setopt,
  sio_getopt, sio_setopt, Transport, sio, inproc, mix, xgetopt, xsetopt,
}

-- XSO_SNDBUF, XSO_RCVBUF, XSO_NOBLOCK and XSO_VERBOSE, the options that rex has no part in.
abbrev pub is_plain : ℕ → Bool
is_plain opt = opt == 1 || (opt == 2 || (opt == 3 || opt == 9))

-- The value as it is kept: a truth value for XSO_NOBLOCK, four bits for XSO_VERBOSE.
abbrev pub kept : ℕ → ℕ → ℕ
kept opt val = if opt == 3 then (if val == 0 then 0 else 1) else if opt == 9 then val % 16 else val

flag : (val : ℕ) → int_of (not (val == 0)) ≡ kept 3 val
flag val = ground arith

module _ {R : Type 0} (rex_getopt : R → RexSo → Option ℕ)
    (rex_setopt : R → RexSo → ℕ → Option R) where
  abbrev Reads : Transport → ℕ → ℕ → Opt (Optsock R) → Type 0
  Reads t opt val (done sb) = xgetopt rex_getopt rex_setopt t (some sb) opt ≡ done (kept opt val)
  Reads t opt val _ = Unit {0}

  sndbuf :
      (t : Transport) (sb : Optsock R) (val : ℕ)
      → Reads t 1 val (xsetopt rex_getopt rex_setopt t (some sb) 1 val)
  unfolding xsetopt xgetopt sio_getopt sio_setopt inproc_getopt inproc_setopt mix_getopt mix_setopt
      opt_vfptr set_sndbuf get_sndbuf
  sndbuf sio sb val = refl
  sndbuf inproc sb val = refl
  sndbuf mix sb val = tt

  rcvbuf :
      (t : Transport) (sb : Optsock R) (val : ℕ)
      → Reads t 2 val (xsetopt rex_getopt rex_setopt t (some sb) 2 val)
  unfolding xsetopt xgetopt sio_getopt sio_setopt inproc_getopt inproc_setopt mix_getopt mix_setopt
      opt_vfptr set_rcvbuf get_rcvbuf
  rcvbuf sio sb val = refl
  rcvbuf inproc sb val = refl
  rcvbuf mix sb val = tt

  noblock :
      (t : Transport) (sb : Optsock R) (val : ℕ)
      → Reads t 3 val (xsetopt rex_getopt rex_setopt t (some sb) 3 val)
  unfolding xsetopt xgetopt sio_getopt sio_setopt inproc_getopt inproc_setopt mix_getopt mix_setopt
      opt_vfptr set_noblock get_noblock
  noblock sio sb val = ap done (flag val)
  noblock inproc sb val = ap done (flag val)
  noblock mix sb val = ap done (flag val)

  verbose :
      (t : Transport) (sb : Optsock R) (val : ℕ)
      → Reads t 9 val (xsetopt rex_getopt rex_setopt t (some sb) 9 val)
  unfolding xsetopt xgetopt sio_getopt sio_setopt inproc_getopt inproc_setopt mix_getopt mix_setopt
      opt_vfptr set_verbose get_verbose
  verbose sio sb val = refl
  verbose inproc sb val = refl
  verbose mix sb val = refl

  reads :
      (t : Transport) (sb : Optsock R) (opt val : ℕ)
      → is_plain opt ≡ true
      → Reads t opt val (xsetopt rex_getopt rex_setopt t (some sb) opt val)
  reads t sb opt val p = elim (Bool-cases (opt == 1)) [
    | inl a ↦ at 1 (ground (arith, a)) (sndbuf t sb val)
    | inr a ↦ elim (Bool-cases (opt == 2)) [
      | inl b ↦ at 2 (ground (arith, b)) (rcvbuf t sb val)
      | inr b ↦ elim (Bool-cases (opt == 3)) [
        | inl c ↦ at 3 (ground (arith, c)) (noblock t sb val)
        | inr c ↦ at 9 (ground (arith, p, a, b, c)) (verbose t sb val)
      ]
    ]
  ]
    where
      at :
          (n : ℕ)
          → opt ≡ n
          → Reads t n val (xsetopt rex_getopt rex_setopt t (some sb) n val)
          → Reads t opt val (xsetopt rex_getopt rex_setopt t (some sb) opt val)
      at n e r =
          subst (λ n. Reads t n val (xsetopt rex_getopt rex_setopt t (some sb) n val)) (sym e) r

  -- On every transport: an option of the library's own that was set is read back as it is kept.
  pub xgetopt-xsetopt :
      (t : Transport) (sb sb' : Optsock R) (opt val : ℕ)
      → is_plain opt ≡ true
      → xsetopt rex_getopt rex_setopt t (some sb) opt val ≡ done sb'
      → xgetopt rex_getopt rex_setopt t (some sb') opt ≡ done (kept opt val)
  xgetopt-xsetopt t sb sb' opt val p e = subst (Reads t opt val) e (reads t sb opt val p)
