-- ===== src/Sockopt.antt =====
-- The options of a socket: getsockopt.c, setsockopt.c and the tables of sio_getsetor.c,
-- inproc_getsetor.c and mix_getsetor.c. The socket below a stream is rex's, a parameter. A value is the
-- `int` at `optval`, as a bit pattern.
pub mod RoundTrip
use proxyio.Base.{
  ℕ, ◌%◌, ◌^◌, Bool, true, false, not, ◌||◌, List, [], ◌∷◌, Option, none, some, ◌==◌, if◌then◌else◌,
}
use proxyio.Socket.{Socktype, xlistener, xconnector, Sockbase}
use proxyio.Sp.Endpoint.Options.{opt_vfptr}

-- A socket with what its options read and write besides the `sockbase`; `s` is the rex socket.
pub record Optsock (R : Type 0) : Type 0 where
  pub base : Sockbase
  pub pf : ℕ
  pub verbose : ℕ
  pub s : R

pub data RexSo : Type 0 where
  rex_so_linger rex_so_nodelay : RexSo

-- The end of a call: an `errno` of its own, or -1 and no more, or 0 and a result.
pub data Opt {ℓ} (A : Type ℓ) : Type ℓ where
  einval : Opt A
  ebadf : Opt A
  fails : Opt A
  done : A → Opt A

abbrev pub of_rex {ℓ} : {A : Type ℓ} → Option A → Opt A
of_rex none = fails
of_rex (some a) = done a

abbrev pub int_of : Bool → ℕ
int_of b = if b then 1 else 0

abbrev type_int : Socktype → ℕ
type_int xlistener = 1
type_int xconnector = 2

unfoldable pub get_noblock : {R : Type 0} → Optsock R → Opt ℕ
get_noblock sb = done (int_of sb.base.non_block)

unfoldable pub get_sndbuf : {R : Type 0} → Optsock R → Opt ℕ
get_sndbuf sb = done sb.base.snd.wnd

unfoldable pub get_rcvbuf : {R : Type 0} → Optsock R → Opt ℕ
get_rcvbuf sb = done sb.base.rcv.wnd

unfoldable pub get_socktype : {R : Type 0} → Optsock R → Opt ℕ
get_socktype sb = done (type_int sb.base.type)

unfoldable pub get_sockpf : {R : Type 0} → Optsock R → Opt ℕ
get_sockpf sb = done sb.pf

unfoldable pub get_verbose : {R : Type 0} → Optsock R → Opt ℕ
get_verbose sb = done sb.verbose

-- `get_sndtimeo`, `get_rcvtimeo`, and `get_linger` inside the process.
unfoldable pub get_none : {R : Type 0} → Optsock R → Opt ℕ
get_none sb = fails

unfoldable pub set_noblock : {R : Type 0} → Optsock R → ℕ → Opt (Optsock R)
set_noblock sb val = done (record sb { base = record sb.base { non_block = not (val == 0) } })

unfoldable pub set_sndbuf : {R : Type 0} → Optsock R → ℕ → Opt (Optsock R)
set_sndbuf sb val =
    done (record sb { base = record sb.base { snd = record sb.base.snd { wnd = val } } })

unfoldable pub set_rcvbuf : {R : Type 0} → Optsock R → ℕ → Opt (Optsock R)
set_rcvbuf sb val =
    done (record sb { base = record sb.base { rcv = record sb.base.rcv { wnd = val } } })

unfoldable pub set_verbose : {R : Type 0} → Optsock R → ℕ → Opt (Optsock R)
set_verbose sb val = done (record sb { verbose = val % 16 })

-- `set_sndtimeo`, `set_rcvtimeo`, and `set_linger` inside the process.
unfoldable pub set_none : {R : Type 0} → Optsock R → ℕ → Opt (Optsock R)
set_none sb val = fails

abbrev get_from : {R : Type 0} → Option (Optsock R → Opt ℕ) → Optsock R → Opt ℕ
get_from none sb = einval
get_from (some f) sb = f sb

abbrev set_by :
    {R : Type 0} → Option (Optsock R → ℕ → Opt (Optsock R)) → Optsock R → ℕ → Opt (Optsock R)
set_by none sb val = einval
set_by (some f) sb val = f sb val

unfoldable pub inproc_getopt : {R : Type 0} → Optsock R → ℕ → Opt ℕ
inproc_getopt sb opt =
    get_from
      (opt_vfptr
        (some get_none
          ∷ some get_sndbuf
          ∷ some get_rcvbuf
          ∷ some get_noblock
          ∷ none
          ∷ some get_none
          ∷ some get_none
          ∷ some get_socktype
          ∷ some get_sockpf
          ∷ some get_verbose
          ∷ [])
        opt)
      sb

unfoldable pub inproc_setopt : {R : Type 0} → Optsock R → ℕ → ℕ → Opt (Optsock R)
inproc_setopt sb opt val =
    set_by
      (opt_vfptr
        (some set_none
          ∷ some set_sndbuf
          ∷ some set_rcvbuf
          ∷ some set_noblock
          ∷ none
          ∷ some set_none
          ∷ some set_none
          ∷ none
          ∷ none
          ∷ some set_verbose
          ∷ [])
        opt)
      sb val

unfoldable pub mix_getopt : {R : Type 0} → Optsock R → ℕ → Opt ℕ
mix_getopt sb opt =
    get_from
      (opt_vfptr
        (none
          ∷ none
          ∷ none
          ∷ some get_noblock
          ∷ none
          ∷ none
          ∷ none
          ∷ some get_socktype
          ∷ some get_sockpf
          ∷ some get_verbose
          ∷ [])
        opt)
      sb

unfoldable pub mix_setopt : {R : Type 0} → Optsock R → ℕ → ℕ → Opt (Optsock R)
mix_setopt sb opt val =
    set_by
      (opt_vfptr
        (none
          ∷ none
          ∷ none
          ∷ some set_noblock
          ∷ none
          ∷ none
          ∷ none
          ∷ none
          ∷ none
          ∷ some set_verbose
          ∷ [])
        opt)
      sb val

-- Which operations `sb->vfptr` leads to.
pub data Transport : Type 0 where
  sio inproc mix : Transport

module _ {R : Type 0} (rex_getopt : R → RexSo → Option ℕ)
    (rex_setopt : R → RexSo → ℕ → Option R) where
  unfoldable pub get_rex : RexSo → Optsock R → Opt ℕ
  get_rex so sb = of_rex (rex_getopt sb.s so)

  unfoldable pub set_rex : RexSo → Optsock R → ℕ → Opt (Optsock R)
  set_rex so sb val = elim (rex_setopt sb.s so val) [
    | none ↦ fails
    | some s ↦ done (record sb { s = s })
  ]

  unfoldable pub sio_getopt : Optsock R → ℕ → Opt ℕ
  sio_getopt sb opt =
      get_from
        (opt_vfptr
          (some (get_rex rex_so_linger)
            ∷ some get_sndbuf
            ∷ some get_rcvbuf
            ∷ some get_noblock
            ∷ some (get_rex rex_so_nodelay)
            ∷ some get_none
            ∷ some get_none
            ∷ some get_socktype
            ∷ some get_sockpf
            ∷ some get_verbose
            ∷ [])
          opt)
        sb

  unfoldable pub sio_setopt : Optsock R → ℕ → ℕ → Opt (Optsock R)
  sio_setopt sb opt val =
      set_by
        (opt_vfptr
          (some (set_rex rex_so_linger)
            ∷ some set_sndbuf
            ∷ some set_rcvbuf
            ∷ some set_noblock
            ∷ some (set_rex rex_so_nodelay)
            ∷ some set_none
            ∷ some set_none
            ∷ none
            ∷ none
            ∷ some set_verbose
            ∷ [])
          opt)
        sb val

  -- `xget` gives the socket, or none.
  unfoldable pub xgetopt : Transport → Option (Optsock R) → ℕ → Opt ℕ
  xgetopt t none opt = ebadf
  xgetopt sio (some sb) opt = sio_getopt sb opt
  xgetopt inproc (some sb) opt = inproc_getopt sb opt
  xgetopt mix (some sb) opt = mix_getopt sb opt

  unfoldable pub xsetopt : Transport → Option (Optsock R) → ℕ → ℕ → Opt (Optsock R)
  xsetopt t none opt val = ebadf
  xsetopt sio (some sb) opt val = sio_setopt sb opt val
  xsetopt inproc (some sb) opt val = inproc_setopt sb opt val
  xsetopt mix (some sb) opt val = mix_setopt sb opt val
