-- ===== src/Sp/Reqrep/Header.antt =====
-- src/sp/reqrep/rr.h: the header of a request, with the entries of its route, and its place among the
-- control messages of the request. An entry is the `uuid` of a target, as a number; its other fields
-- are never set.
use proxyio.Base.{
  ℕ, ◌+◌, ◌*◌, ◌-◌, ◌%◌, Bool, true, ◌||◌, List, [], ◌∷◌, ◌++◌, Option, none, some, ltb, ◌==◌,
  if◌then◌else◌, get_elem?, set, length,
}
use proxyio.Msgbuf.Frame.{msghdr_size, subnummark, cmsglenmark}
use proxyio.Msgbuf.{Msgbuf, Msgs, nil, cons, msgbuf_lens, add_u32}

-- `ttl` and `end_ttl` are bit fields of four bits.
pub record Rrhdr : Type 0 where
  pub ttl : ℕ
  pub end_ttl : ℕ
  pub go : Bool
  pub rt : List ℕ

-- A control message of a request: a header, or one that the user added.
pub data Sub : Type 0 where
  route : Rrhdr → Sub
  other : Msgbuf → Sub

-- `subs` are the control messages of `ubuf` as they are now, in place of its children.
pub record Request : Type 0 where
  pub subs : List Sub
  pub ubuf : Msgbuf

-- The children of a message that has no header yet.
abbrev pub subs_of : Msgs → List Sub
subs_of nil = []
subs_of (cons c cs) = other c ∷ subs_of cs

-- The header has 24 bytes and an entry 34, behind the frame of the control message.
unfoldable pub sub_lens : Sub → ℕ
sub_lens (route h) = msghdr_size + 24 + 34 * length h.rt
sub_lens (other m) = msgbuf_lens m

abbrev pub subs_length : List Sub → ℕ
subs_length [] = 0
subs_length (s ∷ subs) = sub_lens s + subs_length subs

-- `SADD`: the control message is added at the tail. When it does not fit that is refused with EFBIG,
-- which no caller looks at.
unfoldable pub uctl_add : List Sub → Sub → List Sub
uctl_add subs s =
    if length subs == subnummark || ltb cmsglenmark (add_u32 (subs_length subs) (sub_lens s))
    then subs
    else subs ++ s ∷ []

-- `SFIRST`. `none` is a null pointer, or the bytes of another control message, read as a header.
unfoldable pub get_rrhdr : Request → Option Rrhdr
get_rrhdr r = elim r.subs [ [] ↦ none | s ∷ subs ↦ elim s [ route h ↦ some h | other m ↦ none ] ]

-- A change of the fields of the header.
unfoldable pub change_hdr : (Rrhdr → Rrhdr) → Request → Request
change_hdr change r = elim r.subs [
  | [] ↦ r
  | s ∷ subs ↦ elim s [ route h ↦ record r { subs = route (change h) ∷ subs } | other m ↦ r ]
]

unfoldable pub new_rrhdr : ℕ → Rrhdr
new_rrhdr uuid = record { ttl = 1; end_ttl = 0; go = true; rt = uuid ∷ [] }

-- `none` is the BUG_ON, or an entry that lies behind the header.
unfoldable pub hdr_cur : Rrhdr → Option ℕ
hdr_cur h = if ltb h.ttl 1 then none else get_elem? h.rt (h.ttl - 1)

unfoldable pub hdr_prev : Rrhdr → Option ℕ
hdr_prev h = if ltb h.ttl 2 then none else get_elem? h.rt (h.ttl - 2)

unfoldable pub rt_cur : Request → Option ℕ
rt_cur r = elim (get_rrhdr r) [ none ↦ none | some h ↦ hdr_cur h ]

unfoldable pub rt_prev : Request → Option ℕ
rt_prev r = elim (get_rrhdr r) [ none ↦ none | some h ↦ hdr_prev h ]

-- The entry is written at the place that `ttl` says, in a header with room for one more.
unfoldable pub hdr_append : Rrhdr → ℕ → Option Rrhdr
hdr_append h uuid =
    let ttl' = (h.ttl + 1) % 16 in
    if ltb ttl' 1
    then none
    else some (record h { ttl = ttl'; rt = set (h.rt ++ 0 ∷ []) (ttl' - 1) uuid })

-- The header is taken out of the control messages, and the new one is added behind the others.
unfoldable pub rt_append : Request → ℕ → Option Request
rt_append r uuid = elim r.subs [
  | [] ↦ none
  | s ∷ subs ↦ elim s [
    | other m ↦ none
    | route h ↦ elim (hdr_append h uuid) [
      | none ↦ none
      | some h' ↦ some (record r { subs = uctl_add subs (route h') })
    ]
  ]
]
