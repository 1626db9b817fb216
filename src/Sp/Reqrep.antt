-- ===== src/Sp/Reqrep.antt =====
-- src/sp/reqrep: rr.h, req_ep.c, rep_ep.c and the proxy of pipeline.c. A request carries the route
-- that it has come: the identities of the sockets that it left by, with `ttl` of them in use. At this
-- level a `msgbuf_head` is the list of its messages. The callers hold the endpoints' locks.
pub mod Header
pub mod Hop
pub mod Routing
pub mod Replying
use proxyio.Base.{
  ℕ, suc, ◌+◌, ◌-◌, ◌%◌, Bool, true, false, List, [], ◌∷◌, ◌++◌, Option, none, some, ◌==◌,
  if◌then◌else◌,
}
use proxyio.Msgbuf.{Msgbuf, cmsg_head, ubase}
use proxyio.Sp.RoundRobin.{RrbinEntry, weight_rrbin_select, weight_rrbin_add, weight_rrbin_rm}
use proxyio.Sp.Ulhash.{UlhashLbs, ulhash_add, ulhash_rm, ulhash_select}
use proxyio.Socket.{Socktype}
use proxyio.Sp.Endpoint.{generic_tgtd_init}
use Header.{
  Rrhdr, route, Request, subs_of, uctl_add, get_rrhdr, change_hdr, new_rrhdr, rt_cur, rt_prev,
  rt_append,
}

-- The balance that an endpoint was made with, over a state of its own. A target is named by its
-- socket. `none` of `rm` is memory outside the balance's.
pub record LoadbalanceVfptr (L : Type 0) : Type 0 where
  pub add : L → ℕ → L
  pub rm : L → ℕ → Option L
  pub select : L → Msgbuf → L × Option ℕ

unfoldable pub weight_rrbin_ops : LoadbalanceVfptr (List RrbinEntry)
weight_rrbin_ops = record {
  add = weight_rrbin_add;
  rm = λ lbs tg. some (weight_rrbin_rm lbs tg);
  select = λ lbs ubuf. weight_rrbin_select lbs;
}

-- `hash` is the user's.
unfoldable pub ulhash_ops : (List ℕ → ℕ) → LoadbalanceVfptr UlhashLbs
ulhash_ops hash = record {
  add = ulhash_add;
  rm = ulhash_rm;
  select = λ lbs ubuf. (lbs, ulhash_select lbs (hash (ubase ubuf)));
}

-- `struct req_tgtd` and `struct rep_tgtd`; `pollout` is the bit XPOLLOUT of `pollfd.events`.
pub record Target : Type 0 where
  pub fd : ℕ
  pub uuid : ℕ
  pub ls_head : List Request
  pub pollout : Bool

-- The live targets, those in `bad_socks` included: the balance points to them until `reqep_term`.
pub record Reqep (L : Type 0) : Type 0 where
  pub targets : List Target
  pub lbs : L
  pub rcv : List Request

pub record Repep : Type 0 where
  pub connectors : List Target
  pub rcv : List Request

-- `get_tgtd_if`: the first target that passes the test.
unfoldable pub get_tgtd_if : (Target → Bool) → List Target → Option Target
get_tgtd_if test [] = none
get_tgtd_if test (t ∷ ts) = let rest = get_tgtd_if test ts in if test t then some t else rest

-- A change of the target that `get_tgtd_if` finds.
unfoldable pub change_tgtd_if :
    (Target → Bool) → (Target → Target) → List Target → Option (List Target)
change_tgtd_if test change [] = none
change_tgtd_if test change (t ∷ ts) =
    let rest = change_tgtd_if test change ts in
    if test t then some (change t ∷ ts) else elim rest [ none ↦ none | some us ↦ some (t ∷ us) ]

-- The targets without the first that passes the test.
unfoldable pub del_tgtd_if : (Target → Bool) → List Target → List Target
del_tgtd_if test [] = []
del_tgtd_if test (t ∷ ts) = let rest = del_tgtd_if test ts in if test t then ts else t ∷ rest

abbrev pub by_fd : ℕ → Target → Bool
by_fd fd t = t.fd == fd

abbrev pub by_uuid : ℕ → Target → Bool
by_uuid uuid t = t.uuid == uuid

-- `uuid_copy`, where it differs.
abbrev pub learn : ℕ → Target → Target
learn uuid t = record t { uuid = uuid }

-- `msgbuf_head_in` and `tgtd_try_enable_out`.
abbrev pub enqueue : Request → Target → Target
enqueue r t = record t { ls_head = t.ls_head ++ r ∷ []; pollout = true }

abbrev pub disable_out : Target → Target
disable_out t = record t { pollout = false }

-- `pg->ttl--` on four bits.
unfoldable pub ttl_dec : Request → Request
ttl_dec r = change_hdr (λ h. record h { ttl = (h.ttl + 15) % 16 }) r

abbrev pub changed : Option (List Target) → List Target → List Target
changed none ts = ts
changed (some us) ts = us

module _ {L : Type 0} (vf : LoadbalanceVfptr L) where
  -- The socket to send to and the request, or `none`, the result -1.
  unfoldable pub reqep_send : Reqep L → Msgbuf → Reqep L × Option (ℕ × Request)
  reqep_send ep ubuf =
      let (lbs', selected) = vf.select ep.lbs ubuf in
      elim selected [
        | none ↦ (record ep { lbs = lbs' }, none)
        | some fd ↦ elim (get_tgtd_if (by_fd fd) ep.targets) [
          | none ↦ (record ep { lbs = lbs' }, none)
          | some go ↦ (
            record ep { lbs = lbs' },
            some (
              fd,
              record {
                subs = uctl_add (subs_of (cmsg_head ubuf)) (route (new_rrhdr go.uuid));
                ubuf = ubuf;
              },
            ),
          )
        ]
      ]

  -- A connector takes part in the balance from here on.
  unfoldable pub reqep_join : Reqep L → Target → Reqep L
  reqep_join ep t = record ep { targets = ep.targets ++ t ∷ []; lbs = vf.add ep.lbs t.fd }

  unfoldable pub reqep_term : Reqep L → ℕ → Option (Reqep L)
  reqep_term ep fd = elim (vf.rm ep.lbs fd) [
    | none ↦ none
    | some lbs' ↦ some (record ep { targets = del_tgtd_if (by_fd fd) ep.targets; lbs = lbs' })
  ]

-- `false` is -1: there is no header.
unfoldable pub reqep_add : {L : Type 0} → Reqep L → Request → Reqep L × Bool
reqep_add ep r = elim (get_rrhdr r) [
  | none ↦ (ep, false)
  | some h ↦ (record ep { rcv = ep.rcv ++ ttl_dec r ∷ [] }, true)
]

-- `none` is a BUG_ON, here and below. The target learns where the request comes from.
unfoldable pub repep_add : Repep → ℕ → Request → Option Repep
repep_add ep fd r = elim (rt_cur r) [
  | none ↦ none
  | some uuid ↦ some (record ep {
    connectors = changed (change_tgtd_if (by_fd fd) (learn uuid) ep.connectors) ep.connectors;
    rcv = ep.rcv ++ r ∷ [];
  })
]

-- A reply says that it goes back, and from where.
unfoldable pub turn_back : Request → Request
turn_back r = change_hdr (λ h. record h { go = false; end_ttl = h.ttl }) r

-- The reply, and the socket to send it to, or -1 when the target is gone.
unfoldable pub repep_send : Repep → Request → Option (Repep × Request × Option ℕ)
repep_send ep r = elim (rt_cur r) [
  | none ↦ none
  | some uuid ↦ elim (get_tgtd_if (by_uuid uuid) ep.connectors) [
    | none ↦ some (ep, turn_back r, none)
    | some t ↦ some (
      record ep { connectors = t ∷ del_tgtd_if (by_uuid uuid) ep.connectors },
      turn_back r,
      some t.fd,
    )
  ]
]

-- A request comes in at the proxy's front and waits at a target of its back. `false` is -1.
unfoldable pub receiver_add :
    {L : Type 0}
    → LoadbalanceVfptr L
    → Repep
    → Reqep L
    → ℕ
    → Request
    → Option (Repep × Reqep L × Bool)
receiver_add vf ep peer fd r = elim (rt_cur r) [
  | none ↦ none
  | some uuid ↦
      let (lbs', selected) = vf.select peer.lbs r.ubuf in
      elim selected [
        | none ↦ some (ep, record peer { lbs = lbs' }, false)
        | some go ↦ some (
          record ep {
            connectors =
                changed (change_tgtd_if (by_fd fd) (learn uuid) ep.connectors) ep.connectors;
          },
          record peer {
            targets = changed (change_tgtd_if (by_fd go) (enqueue r) peer.targets) peer.targets;
            lbs = lbs';
          },
          true,
        )
      ]
]

-- The target before `rt_append`, with its queue; the request has the target's name appended.
unfoldable pub dispatcher_rm : Target → Option (Target × Option Request)
dispatcher_rm t = elim t.ls_head [
  | [] ↦ some (disable_out t, none)
  | r ∷ rs ↦ elim (rt_append r t.uuid) [
    | none ↦ none
    | some r' ↦ some (record t { ls_head = rs }, some r')
  ]
]

-- A reply comes in at the proxy's back and waits at the target that the request came by.
unfoldable pub dispatcher_add : Repep → Request → Option (Repep × Bool)
dispatcher_add peer r = elim (rt_prev r) [
  | none ↦ none
  | some uuid ↦ elim (change_tgtd_if (by_uuid uuid) (enqueue (ttl_dec r)) peer.connectors) [
    | none ↦ some (peer, false)
    | some ts ↦ some (record peer { connectors = ts }, true)
  ]
]

unfoldable pub receiver_rm : Target → Target × Option Request
receiver_rm t = elim t.ls_head [
  | [] ↦ (disable_out t, none)
  | r ∷ rs ↦ (record t { ls_head = rs }, some r)
]

-- An endpoint that is no proxy has nothing to send on its own; the result is always -1.
unfoldable pub reqep_rm : Target → Target
reqep_rm t = if t.pollout then disable_out t else t

unfoldable pub repep_rm : Target → Target
repep_rm t = if t.pollout then disable_out t else t

-- The target's name is unknown until a request comes by it.
unfoldable pub repep_join : ℕ → Socktype → Target
repep_join fd socktype =
    let tg = generic_tgtd_init fd socktype in
    record { fd = tg.fd; uuid = 0; ls_head = []; pollout = tg.pollout }
