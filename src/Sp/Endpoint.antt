-- ===== src/Sp/Endpoint.antt =====
-- src/sp/sp_module.c, sp_add.c, sp_rm.c and sp_recv.c: the sockets of an endpoint. A socket is in one
-- of three lists. What `get_socktype` says of a socket stands with it. Each operation runs under
-- the endpoint's lock, and `xpoll_ctl` succeeds.
pub mod Removal
pub mod Options
pub mod Handling
use proxyio.Base.{
  ℕ, zero, suc, ◌+◌, Bool, true, false, not, ◌&&◌, ◌||◌, List, [], ◌∷◌, ◌++◌, Option, none, some,
  ◌==◌, if◌then◌else◌, length, map,
}
use proxyio.Socket.{Socktype, xlistener, xconnector}
use proxyio.Msgbuf.{Msgbuf}
use proxyio.MsgbufHead.{
  MsgbufHead, msgbuf_head_init, Popped, popped, fail, bug, is_empty, msgbuf_head_out, add_int,
  sub_int,
}

-- `pollout` is the bit XPOLLOUT of `pollfd.events`; XPOLLIN and XPOLLERR are always set.
pub record Tgtd : Type 0 where
  pub fd : ℕ
  pub socktype : Socktype
  pub pollout : Bool
  pub bad_status : Bool

pub record Epbase : Type 0 where
  pub shutdown : Bool
  pub rcv : MsgbufHead
  pub snd : MsgbufHead
  pub listeners : List Tgtd
  pub nlisteners : ℕ
  pub connectors : List Tgtd
  pub nconnectors : ℕ
  pub bad_socks : List Tgtd

abbrev pub sp_wnd : ℕ
sp_wnd = 1048576000

unfoldable pub epbase_init : Epbase
epbase_init = record {
  shutdown = false;
  rcv = msgbuf_head_init sp_wnd;
  snd = msgbuf_head_init sp_wnd;
  listeners = [];
  nlisteners = 0;
  connectors = [];
  nconnectors = 0;
  bad_socks = [];
}

unfoldable pub generic_tgtd_init : ℕ → Socktype → Tgtd
generic_tgtd_init fd xlistener = record {
  fd = fd;
  socktype = xlistener;
  pollout = false;
  bad_status = false;
}
generic_tgtd_init fd xconnector = record {
  fd = fd;
  socktype = xconnector;
  pollout = true;
  bad_status = false;
}

unfoldable pub add_by_type : Epbase → Tgtd → Socktype → Epbase
add_by_type ep tg xlistener = record ep {
  listeners = ep.listeners ++ tg ∷ [];
  nlisteners = ep.nlisteners + 1;
}
add_by_type ep tg xconnector = record ep {
  connectors = ep.connectors ++ tg ∷ [];
  nconnectors = ep.nconnectors + 1;
}

-- `none` is -1: the endpoint is closed.
unfoldable pub epbase_add_tgtd : Epbase → Tgtd → Option Epbase
epbase_add_tgtd ep tg = if ep.shutdown then none else some (add_by_type ep tg tg.socktype)

-- `sp_add` behind `eid_get`; a target that is refused is freed by `term`.
unfoldable pub sp_add : Epbase → ℕ → Socktype → Option Epbase
sp_add ep fd socktype = epbase_add_tgtd ep (generic_tgtd_init fd socktype)

abbrev pub mark : Tgtd → Tgtd
mark t = record t { bad_status = true }

abbrev pub put_in_front : Tgtd → Option (Tgtd × List Tgtd) → Option (Tgtd × List Tgtd)
put_in_front t none = none
put_in_front t (some (u, us)) = some (u, t ∷ us)

-- The first target with the socket, and the others.
unfoldable pub take_first : ℕ → List Tgtd → Option (Tgtd × List Tgtd)
take_first fd [] = none
take_first fd (t ∷ ts) =
    let rest = take_first fd ts in if t.fd == fd then some (t, ts) else put_in_front t rest

-- `while ((tg = get_tgtd_if (…)))`, which moves the target to the tail of `bads`.
unfoldable pub term_loop : ℕ → ℕ → List Tgtd → List Tgtd → List Tgtd × List Tgtd
term_loop zero fd ts bads = (ts, bads)
term_loop (suc fuel) fd ts bads = elim (take_first fd ts) [
  | none ↦ (ts, bads)
  | some (t, us) ↦ term_loop fuel fd us (bads ++ mark t ∷ [])
]

-- Each round takes a target away.
unfoldable pub sp_generic_term_by_fd : Epbase → ℕ → Epbase
sp_generic_term_by_fd ep fd =
    let (connectors', bads) =
      term_loop (suc (length ep.connectors)) fd ep.connectors ep.bad_socks in
    let (listeners', bads') = term_loop (suc (length ep.listeners)) fd ep.listeners bads in
    record ep { connectors = connectors'; listeners = listeners'; bad_socks = bads' }

-- The endpoint without its bad sockets, and the sockets that are closed, in order.
unfoldable pub epbase_close_bad_tgtds : Epbase → Epbase × List ℕ
epbase_close_bad_tgtds ep = (record ep { bad_socks = [] }, map (λ t. t.fd) ep.bad_socks)

-- `list_splice` puts the listeners in front of the bad sockets, and the connectors in front of both.
unfoldable pub shutdown_epbase : Epbase → Epbase × List ℕ
shutdown_epbase ep = epbase_close_bad_tgtds (record ep {
  listeners = [];
  connectors = [];
  bad_socks = ep.connectors ++ (ep.listeners ++ ep.bad_socks);
})

-- One test of `sp_recv` with the lock held: it waits, fails with EBADF, or has a message. A wait
-- counts the reader among the waiters until it is woken.
pub data Received : Type 0 where
  wait : Epbase → Received
  ebadf : Received
  message : Epbase → Msgbuf → Received
  abort : Received

unfoldable pub sp_recv_out : Epbase → Popped → Received
sp_recv_out ep (popped bh m evs) = message (record ep { rcv = bh }) m
sp_recv_out ep fail = abort
sp_recv_out ep bug = abort

unfoldable pub sp_recv : Epbase → Received
sp_recv ep =
    if not ep.shutdown && is_empty ep.rcv.head
    then wait (record ep { rcv = record ep.rcv { waiters = add_int ep.rcv.waiters 1 } })
    else if ep.shutdown
    then ebadf
    else sp_recv_out ep (msgbuf_head_out ep.rcv)

-- `condition_wait` returns.
unfoldable pub sp_recv_woken : Epbase → Epbase
sp_recv_woken ep = record ep { rcv = record ep.rcv { waiters = sub_int ep.rcv.waiters 1 } }

-- The functions that an endpoint adds and removes messages by: its pattern's, or one end of a proxy.
pub data Vfptr : Type 0 where
  own receiver dispatcher : Vfptr

abbrev no_tgtds : List Tgtd → Bool
no_tgtds [] = true
no_tgtds (t ∷ ts) = false

-- The ends of a proxy, or `none` for EINVAL: both endpoints must be without connectors.
unfoldable pub epbase_proxyto : Epbase → Epbase → Option (Vfptr × Vfptr)
epbase_proxyto repep reqep =
    if not (no_tgtds repep.connectors) || not (no_tgtds repep.bad_socks)
    then none
    else if not (no_tgtds reqep.connectors) || not (no_tgtds reqep.bad_socks)
    then none
    else some (receiver, dispatcher)
