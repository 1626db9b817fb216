-- ===== src/Sio.antt =====
-- src/socket/sio/sio.c and sio.h: a connection over a stream socket, and from src/rex/rex_posix.c the
-- functions `rex_gen_send` and `rex_gen_recv` that it calls. The system calls are not part of the
-- program: what a `sendmsg` answers is a parameter, and what the reads deliver is a list. `ev_signal`
-- and `__ev_fdset_ctl` belong to the event loop: the signals are returned, and the events that the
-- loop is asked to watch are the fields `ev_read` and `ev_write`. The statistics are left out.
pub mod Flush
pub mod Sending
pub mod Delivery
pub mod Arrival
pub mod Handler
pub mod Transfer
pub mod Schedule
pub mod Turns
pub mod Alert
use proxyio.Base.{
  ℕ, zero, suc, ◌+◌, Bool, true, false, not, ◌&&◌, ◌||◌, List, [], ◌∷◌, ◌++◌, Option, none, some,
  map, take, length, concat, ◌==◌, ltb, if◌then◌else◌,
}
use proxyio.Bufio.{Bio, bio_init}
use proxyio.Bufio.Io.{bio_prefetch}
use proxyio.Msgbuf.{Msgbuf}
use proxyio.Msgbuf.Parse.{Outcome, done, again, msgbuf_deserialize}
use proxyio.Msgbuf.Send.{RexIov}
use proxyio.Msgbuf.Fragments.{all_bytes}
use proxyio.MsgbufHead.{
  Event, add, full, nonfull, MsgbufVfptr, msgbuf_head_ev_hndl, no_callbacks, is_empty,
  msgbuf_head_empty, msgbuf_head_preinstall_iovs, msgbuf_head_install_iovs,
}
use proxyio.Socket.{
  xconnector, Events, Sockbase, sockbase_init, emit_pollevents, Effects, Turn, waits, did,
  snd_msgbuf_head_add, snd_msgbuf_head_rm, rcv_msgbuf_head_add,
}

-- `errno` as far as the program looks at it.
pub data Errno : Type 0 where
  eagain ewouldblock eintr epipe other : Errno

-- What a system call returns: a count, or -1 with an errno.
pub data Answer : Type 0 where
  moved : ℕ → Answer
  failed : Errno → Answer

abbrev pub is_eagain : Errno → Bool
is_eagain eagain = true
is_eagain _ = false

abbrev pub can_retry : Errno → Bool
can_retry eagain = true
can_retry ewouldblock = true
can_retry eintr = true
can_retry _ = false

-- No more than 100 entries go to `sendmsg`.
unfoldable pub rex_gen_send : (List RexIov → Answer) → List RexIov → Answer
rex_gen_send sendmsg iovs = elim (sendmsg (take 100 iovs)) [
  | moved rc ↦ moved rc
  | failed e ↦ failed (if can_retry e then eagain else epipe)
]

unfoldable pub rex_gen_recv : Answer → Answer
rex_gen_recv (moved rc) = if rc == 0 then failed epipe else moved rc
rex_gen_recv (failed e) = failed (if can_retry e then eagain else e)

pub record Sio : Type 0 where
  pub base : Sockbase
  pub ev_read : Bool
  pub ev_write : Bool
  pub binded : Bool
  pub send_lock : Bool
  pub rbuf : Bio

pub data Signal : Type 0 where
  ev_sndbuf_add ev_rcvbuf_full ev_rcvbuf_nonfull : Signal

abbrev pub tcps_sndhead_vfptr : MsgbufVfptr
tcps_sndhead_vfptr = record no_callbacks { has_add = true }

abbrev pub tcps_rcvhead_vfptr : MsgbufVfptr
tcps_rcvhead_vfptr = record no_callbacks { has_full = true; has_nonfull = true }

-- The callbacks of the two queues, and the signals that they raise.
unfoldable pub sndhead_add_ev_usignal : Sio → Event → List Signal
sndhead_add_ev_usignal tcps add =
    if not tcps.send_lock && not tcps.ev_write then ev_sndbuf_add ∷ [] else []
sndhead_add_ev_usignal tcps _ = []

unfoldable pub rcvhead_ev_usignal : Event → List Signal
rcvhead_ev_usignal full = ev_rcvbuf_full ∷ []
rcvhead_ev_usignal nonfull = ev_rcvbuf_nonfull ∷ []
rcvhead_ev_usignal _ = []

unfoldable pub salloc : ℕ → Sio
salloc fd =
    let sb = sockbase_init xconnector fd in
    record {
      base = record sb {
        rcv = msgbuf_head_ev_hndl sb.rcv tcps_rcvhead_vfptr;
        snd = msgbuf_head_ev_hndl sb.snd tcps_sndhead_vfptr;
      };
      ev_read = false;
      ev_write = false;
      binded = false;
      send_lock = false;
      rbuf = bio_init;
    }

-- `sio_init` and, after the connection is made, the rest of `sio_connector_bind`.
unfoldable pub sio_init : Sio → Sio
sio_init tcps = record tcps { ev_read = true; ev_write = false; binded = false }

unfoldable pub sio_connector_bind : Sio → Bool → Option Sio
sio_connector_bind tcps connected =
    if connected then some (record (sio_init tcps) { binded = true }) else none

-- `none` where the lock is taken.
unfoldable pub sio_lock_send : Sio → Option Sio
sio_lock_send tcps = if tcps.send_lock then none else some (record tcps { send_lock = true })

-- `while (n--)` around `__snd_msgbuf_head_rm`. `none` is a BUG_ON.
unfoldable pub rm_times : ℕ → Sockbase → Option (Sockbase × List Effects)
rm_times zero sb = some (sb, [])
rm_times (suc n) sb = elim (snd_msgbuf_head_rm sb) [
  | did sb' (some msg) eff ↦ elim (rm_times n sb') [
    | none ↦ none
    | some (sb'', effs) ↦ some (sb'', eff ∷ effs)
  ]
  | _ ↦ none
]

unfoldable pub sndhead_install_iovs : Sockbase → ℕ → Option (Sockbase × List Effects)
sndhead_install_iovs sb nbytes =
    let (bh, n) = msgbuf_head_install_iovs sb.snd nbytes in rm_times n (record sb { snd = bh })

unfoldable pub sndhead_preinstall_iovs : Sockbase → List RexIov
sndhead_preinstall_iovs sb = msgbuf_head_preinstall_iovs sb.snd 100

-- The result 0, with the bytes that the network took; -1 with `errno`; or a BUG_ON.
pub data Sent : Type 0 where
  sent : List ℕ → Sockbase → List Effects → Sent
  stopped : Errno → Sent
  bug : Sent

unfoldable pub installed : List ℕ → Sockbase → ℕ → Sent
installed bytes sb nbytes = elim (sndhead_install_iovs sb nbytes) [
  | none ↦ bug
  | some (sb', effs) ↦ sent bytes sb' effs
]

-- A count of 0 leaves `errno` as it was.
unfoldable pub simple_send : (List RexIov → Answer) → Errno → Sockbase → Sent
simple_send sendmsg errno sb =
    let iovs = sndhead_preinstall_iovs sb in
    if length iovs == 0 then stopped eagain else elim (rex_gen_send sendmsg iovs) [
      | failed e ↦ stopped e
      | moved nbytes ↦
          if nbytes == 0 then stopped errno else installed (take nbytes (all_bytes iovs)) sb nbytes
    ]

-- What a flush leaves: the bytes in order, the socket, the effects, and `errno`; the result is -1.
pub data Flushed : Type 0 where
  flushed : List ℕ → Sockbase → List Effects → Errno → Flushed
  bug spent : Flushed

abbrev pub after_send : List ℕ → List Effects → Flushed → Flushed
after_send bytes effs (flushed later sb more e) = flushed (bytes ++ later) sb (effs ++ more) e
after_send bytes effs Flushed.bug = Flushed.bug
after_send bytes effs spent = spent

-- `sendmsg t` is the answer to the call number t.
unfoldable pub flush_snd_msgbuf : (ℕ → List RexIov → Answer) → ℕ → ℕ → Errno → Sockbase → Flushed
flush_snd_msgbuf sendmsg zero t errno sb = spent
flush_snd_msgbuf sendmsg (suc fuel) t errno sb = elim (simple_send (sendmsg t) errno sb) [
  | sent bytes sb' effs ↦ after_send bytes effs (flush_snd_msgbuf sendmsg fuel (suc t) errno sb')
  | stopped e ↦ flushed [] sb [] e
  | bug ↦ Flushed.bug
]

-- The callbacks of the receive queue, and those of the send queue, as the signals that they raise.
unfoldable pub rcv_signals : List Effects → List Signal
rcv_signals [] = []
rcv_signals (eff ∷ effs) = concat (map rcvhead_ev_usignal eff.calls) ++ rcv_signals effs

-- What the loop of `sio_connector_rcv` leaves, or what `sio_connector_rcv` itself does.
pub data Arrived : Type 0 where
  arrived : Sockbase → Bio → List Effects → Arrived
  lost bug spent : Arrived

abbrev pub after_add : Effects → Arrived → Arrived
after_add eff (arrived sb b effs) = arrived sb b (eff ∷ effs)
after_add eff lost = lost
after_add eff Arrived.bug = Arrived.bug
after_add eff Arrived.spent = Arrived.spent

-- Each round takes a message off the buffer. A message in the buffer is no deeper than it is long.
unfoldable pub rcv_loop : (List ℕ → ℕ) → ℕ → Sockbase → Bio → Arrived
rcv_loop crc16 zero sb b = Arrived.spent
rcv_loop crc16 (suc fuel) sb b = elim (msgbuf_deserialize crc16 (suc b.bsize) b) [
  | done msg b' ↦ elim (rcv_msgbuf_head_add sb msg) [
    | did sb' x eff ↦ after_add eff (rcv_loop crc16 fuel sb' b')
    | _ ↦ Arrived.bug
  ]
  | again ↦ arrived sb b []
  | Outcome.bug ↦ Arrived.bug
  | Outcome.spent ↦ Arrived.spent
]

-- `lost` is the result -1.
unfoldable pub sio_connector_rcv :
    (List ℕ → ℕ) → ℕ → Sockbase → Bio → List (List ℕ) → Bool → Arrived
sio_connector_rcv crc16 budget sb b reads no_more =
    let (budget', b', result) = bio_prefetch budget b reads no_more in
    elim result [ none ↦ lost | some nbytes ↦ rcv_loop crc16 (suc b'.bsize) sb b' ]
