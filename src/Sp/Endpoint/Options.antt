-- ===== src/Sp/Endpoint/Options.antt =====
-- The `setopt` and `getopt` of the endpoints: tables of functions in which an entry can be null. The
-- number of the option is an `int`, as a bit pattern.
use proxyio.Base.{
  ℕ, ◌^◌, ◌&&◌, List, [], ◌∷◌, Option, none, some, ltb, length, get_elem?, if◌then◌else◌,
}

pub data ReqSetopt : Type 0 where
  set_proxyto set_lbs set_weight : ReqSetopt

abbrev pub entry {ℓ} : {A : Type ℓ} → Option (Option A) → Option A
entry none = none
entry (some e) = e

-- `none` is EINVAL.
unfoldable pub opt_vfptr {ℓ} : {A : Type ℓ} → List (Option A) → ℕ → Option A
opt_vfptr vfptr opt =
    if ltb opt (2 ^ 31) && ltb opt (length vfptr) then entry (get_elem? vfptr opt) else none

unfoldable pub reqep_setopt : ℕ → Option ReqSetopt
reqep_setopt opt = opt_vfptr (some set_proxyto ∷ some set_lbs ∷ some set_weight ∷ []) opt

unfoldable pub reqep_getopt : ℕ → Option ReqSetopt
reqep_getopt opt = opt_vfptr (none ∷ none ∷ none ∷ []) opt

unfoldable pub repep_setopt : ℕ → Option ReqSetopt
repep_setopt opt = opt_vfptr (some set_proxyto ∷ []) opt

unfoldable pub repep_getopt : ℕ → Option ReqSetopt
repep_getopt opt = opt_vfptr (none ∷ []) opt

unfoldable pub pub_ep_setopt : ℕ → Option ReqSetopt
pub_ep_setopt opt = opt_vfptr (none ∷ []) opt

unfoldable pub pub_ep_getopt : ℕ → Option ReqSetopt
pub_ep_getopt opt = opt_vfptr (none ∷ []) opt

unfoldable pub sub_ep_setopt : ℕ → Option ReqSetopt
sub_ep_setopt opt = opt_vfptr (none ∷ []) opt

unfoldable pub sub_ep_getopt : ℕ → Option ReqSetopt
sub_ep_getopt opt = opt_vfptr (none ∷ []) opt

unfoldable pub bus_ep_setopt : ℕ → Option ReqSetopt
bus_ep_setopt opt = opt_vfptr (none ∷ []) opt

unfoldable pub bus_ep_getopt : ℕ → Option ReqSetopt
bus_ep_getopt opt = opt_vfptr (none ∷ []) opt
