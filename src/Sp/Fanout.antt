-- ===== src/Sp/Fanout.antt =====
-- src/sp/pubsub/pub.c, sub.c and src/sp/bus/bus.c: endpoints that give a message to all their
-- connectors. The queues of the targets have no callbacks. The callers hold the endpoint's lock.
pub mod Delivery
use proxyio.Base.{ℕ, Bool, true, false, List, [], ◌∷◌, Option, none, some, ◌==◌, if◌then◌else◌}
use proxyio.Msgbuf.{Msgbuf}
use proxyio.Msgbuf.Ctl.{clone_ubuf}
use proxyio.MsgbufHead.{
  MsgbufHead, msgbuf_head_init, Popped, popped, fail, bug, msgbuf_head_empty, msgbuf_head_in,
  msgbuf_head_out,
}
use proxyio.Socket.{Socktype}
use proxyio.Sp.Endpoint.{generic_tgtd_init, sp_wnd}

-- `struct pubsub_tgtd` and `struct bus_tgtd`; `pollout` is the bit XPOLLOUT of `pollfd.events`.
pub record FanTarget : Type 0 where
  pub fd : ℕ
  pub ls_head : MsgbufHead
  pub pollout : Bool

pub record FanEp : Type 0 where
  pub connectors : List FanTarget
  pub rcv : MsgbufHead

-- `msgbuf_head_in` and `tgtd_try_enable_out`. `none` is a BUG_ON, here and below.
unfoldable pub give : FanTarget → Msgbuf → Option FanTarget
give t m = elim (msgbuf_head_in t.ls_head m) [
  | none ↦ none
  | some (bh, evs) ↦ some (record t { ls_head = bh; pollout = true })
]

abbrev pub cons_both : Option FanTarget → Option (List FanTarget) → Option (List FanTarget)
cons_both none ts = none
cons_both (some t) none = none
cons_both (some t) (some ts) = some (t ∷ ts)

module _ (crc16 : List ℕ → ℕ) where
  -- All but the last target get a clone.
  unfoldable pub send_walk : List FanTarget → Msgbuf → Option (List FanTarget)
  send_walk [] ubuf = some []
  send_walk (t ∷ []) ubuf = cons_both (give t ubuf) (some [])
  send_walk (t ∷ u ∷ ts) ubuf = cons_both (give t (clone_ubuf crc16 ubuf)) (send_walk (u ∷ ts) ubuf)

  unfoldable pub pub_ep_send : FanEp → Msgbuf → Option FanEp
  pub_ep_send ep ubuf = elim (send_walk ep.connectors ubuf) [
    | none ↦ none
    | some ts ↦ some (record ep { connectors = ts })
  ]

  unfoldable pub bus_ep_send : FanEp → Msgbuf → Option FanEp
  bus_ep_send ep ubuf = elim (send_walk ep.connectors ubuf) [
    | none ↦ none
    | some ts ↦ some (record ep { connectors = ts })
  ]

  -- The target that the message came from is passed over.
  unfoldable pub dispatch_walk : ℕ → List FanTarget → Msgbuf → Option (List FanTarget)
  dispatch_walk src [] ubuf = some []
  dispatch_walk src (t ∷ ts) ubuf =
      let rest = dispatch_walk src ts ubuf in
      cons_both (if t.fd == src then some t else give t (clone_ubuf crc16 ubuf)) rest

  unfoldable pub bus_ep_add : FanEp → ℕ → Msgbuf → Option FanEp
  bus_ep_add ep src ubuf = elim (dispatch_walk src ep.connectors ubuf) [
    | none ↦ none
    | some ts ↦ elim (msgbuf_head_in ep.rcv ubuf) [
      | none ↦ none
      | some (bh, evs) ↦ some (record ep { connectors = ts; rcv = bh })
    ]
  ]

unfoldable pub sub_ep_add : FanEp → Msgbuf → Option FanEp
sub_ep_add ep ubuf = elim (msgbuf_head_in ep.rcv ubuf) [
  | none ↦ none
  | some (bh, evs) ↦ some (record ep { rcv = bh })
]

-- The next message for the network; without one the target stops asking.
unfoldable pub pub_ep_rm : FanTarget → Option (FanTarget × Option Msgbuf)
pub_ep_rm t = elim (msgbuf_head_empty t.ls_head) [
  | none ↦ none
  | some true ↦ some (record t { pollout = false }, none)
  | some false ↦ elim (msgbuf_head_out t.ls_head) [
    | popped bh m evs ↦ some (record t { ls_head = bh }, some m)
    | fail ↦ none
    | bug ↦ none
  ]
]

unfoldable pub bus_ep_rm : FanTarget → Option (FanTarget × Option Msgbuf)
bus_ep_rm t = elim (msgbuf_head_empty t.ls_head) [
  | none ↦ none
  | some true ↦ some (record t { pollout = false }, none)
  | some false ↦ elim (msgbuf_head_out t.ls_head) [
    | popped bh m evs ↦ some (record t { ls_head = bh }, some m)
    | fail ↦ none
    | bug ↦ none
  ]
]

-- A subscriber never sends; the result is always -1.
unfoldable pub sub_ep_rm : FanTarget → FanTarget
sub_ep_rm t = record t { pollout = false }

-- The allocation succeeds.
unfoldable pub pub_ep_join : ℕ → Socktype → FanTarget
pub_ep_join fd socktype =
    let tg = generic_tgtd_init fd socktype in
    record { fd = tg.fd; ls_head = msgbuf_head_init sp_wnd; pollout = tg.pollout }

unfoldable pub sub_ep_join : ℕ → Socktype → FanTarget
sub_ep_join fd socktype =
    let tg = generic_tgtd_init fd socktype in
    record { fd = tg.fd; ls_head = msgbuf_head_init sp_wnd; pollout = tg.pollout }

unfoldable pub bus_ep_join : ℕ → Socktype → FanTarget
bus_ep_join fd socktype =
    let tg = generic_tgtd_init fd socktype in
    record { fd = tg.fd; ls_head = msgbuf_head_init sp_wnd; pollout = tg.pollout }
