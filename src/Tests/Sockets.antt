-- ===== src/Tests/Sockets.antt =====
-- Connections and pollers at concrete inputs.
use proxyio.Base.{
  ℕ, ◌+◌, ◌≤◌, ◌<◌, ◌≡◌, min, refl, sym, ap, ◌∙◌, inr, Bool, true, false, not, ◌&&◌, List, [], ◌∷◌,
  take, drop, some, length, concat, arith, ltb, if◌then◌else◌,
}
use proxyio.Bufio.{
  Bio, bio_last, list_empty, is_time_to_expand, write_last, make_room, write_loop, bio_write,
}
use proxyio.Bufio.Pages.{bio_page_full, room, bio_page_write}
use proxyio.Bufio.Io.{prefetch_loop, bio_prefetch}
use proxyio.Msgbuf.Frame.{msghdr_bytes}
use proxyio.Msgbuf.Fragments.{all_bytes}
use proxyio.Msgbuf.Send.{
  RexIov, own_iov, msgbuf_serialize, serialize_children, install, install_children,
  msgbuf_install_iovs,
}
use proxyio.MsgbufHead.{
  msgbuf_head_preinstall_iovs, preinstall_walk, install_walk, msgbuf_head_install_iovs,
  msgbuf_head_out, out_from, out_first, msgbuf_head_empty,
}
use proxyio.MsgbufHead.Sending.{stream, AreSending}
use proxyio.Socket.{
  xconnector, Sockbase, all_events, check_pollevents, check_pollin, emit_pollevents, finish,
  snd_popped, snd_msgbuf_head_rm,
}
use proxyio.Socket.Readiness.{IsConnector}
use proxyio.Sio.{
  Answer, moved, failed, eagain, ewouldblock, flush_snd_msgbuf, simple_send,
  sndhead_preinstall_iovs, rex_gen_send, installed, sndhead_install_iovs, rm_times,
}
use proxyio.Sio.Sending.{IsSendmsg}
use proxyio.Sio.Transfer.{flushed_bytes}
use proxyio.MsgbufHead.{MsgbufHead}
use proxyio.Msgbuf.Tree.{wire}
use proxyio.Socket.{Events, Effects, rcv_sleeps, snd_sleeps}
use proxyio.Socket.Readiness.{check_pollevents-sleeps}
use proxyio.Sio.{Sio, Errno, flushed, arrived, sio_connector_rcv}
use proxyio.Sio.Flush.{with_snd}
use proxyio.Sio.Sending.{Written, Ends}
use proxyio.Sio.Delivery.{flush_snd_msgbuf_lem}
use proxyio.Sio.Arrival.{with_rcv, Queued, sio_connector_rcv_lem}
use proxyio.Sio.Handler.{write_event, handled, Wrote, write_event_lem}
use proxyio.Sio.Transfer.{Transferred, transfer}
use proxyio.Tests.Samples.{
  crc, bio_of, bio_of-IsBio, leaf, tree, leaf-IsMessage, tree-IsMessage, leaf-IsOrdered,
  tree-IsOrdered, queue, queue-IsHead,
}

abbrev connection : Sockbase
connection = record {
  type = xconnector;
  fd = 5;
  epipe = false;
  non_block = false;
  rcv = queue;
  snd = queue;
  acceptq_waiters = 0;
  acceptq_head = [];
  poll_entries = record { id = 1; events = all_events } ∷ [];
}

connection-IsConnector : IsConnector connection
connection-IsConnector = record {
  connector = refl;
  rcv_head = queue-IsHead;
  snd_head = queue-IsHead;
}

-- A network that takes twelve bytes at a time, and refuses the third call.
abbrev slow : ℕ → List RexIov → Answer
slow t iovs = if ltb t 2 then moved (min 12 (length (all_bytes iovs))) else failed ewouldblock

abbrev count : Answer → ℕ
count (moved n) = n
count (failed e) = 0

slow-IsSendmsg : (t : ℕ) → IsSendmsg (slow t)
slow-IsSendmsg t = record { takes = λ iovs n pos e. go iovs n pos (ltb t 2) e }
  where
    go :
        (iovs : List RexIov) (n : ℕ)
        → 0 < length (all_bytes iovs)
        → (b : Bool)
        → (if b then moved (min 12 (length (all_bytes iovs))) else failed ewouldblock) ≡ moved n
        → (0 < n) × (n ≤ length (all_bytes iovs))
    go iovs n pos true e = let c = ap count e in (omega (arith, c, pos), omega (arith, c, pos))
    go iovs n pos false e = absurd (cc)

abbrev arriving : List (List ℕ)
arriving = take 10 (stream queue.head) ∷ take 14 (drop 10 (stream queue.head)) ∷ []

-- The third call is refused, and 24 bytes have gone.
arriving-flushed : concat arriving ≡ flushed_bytes (flush_snd_msgbuf slow 32 0 eagain connection)
unfolding flush_snd_msgbuf simple_send sndhead_preinstall_iovs rex_gen_send installed
    sndhead_install_iovs rm_times snd_msgbuf_head_rm snd_popped finish emit_pollevents
    check_pollevents check_pollin msgbuf_head_preinstall_iovs preinstall_walk install_walk
    msgbuf_head_install_iovs msgbuf_head_out out_from out_first msgbuf_head_empty own_iov
    msgbuf_serialize serialize_children install install_children msgbuf_install_iovs msghdr_bytes
arriving-flushed = refl

arriving_budget : (bio_prefetch 3 (bio_of []) arriving true).0 ≡ 3
unfolding msghdr_bytes bio_prefetch prefetch_loop bio_write write_loop make_room is_time_to_expand
    list_empty bio_last bio_page_full write_last bio_page_write room
arriving_budget = refl

connection-AreSending : AreSending queue.head
unfolding msghdr_bytes
connection-AreSending =
    (tree-IsMessage, tree-IsOrdered, omega arith, (leaf-IsMessage, leaf-IsOrdered, omega arith, tt))

-- The tree arrives whole, and the front of the leaf.
transfer_example :
    (bh bh' : MsgbufHead) × (b' : Bio) × (effs effs' : List Effects) × (e : Errno)
    × (flush_snd_msgbuf slow 32 0 eagain connection
        ≡ flushed (concat arriving) (with_snd connection bh) effs e)
    × (sio_connector_rcv crc 3 connection (bio_of []) arriving true
        ≡ arrived (with_rcv connection bh') b' effs')
    × Transferred connection connection (tree ∷ leaf ∷ []) bh bh' b'
unfolding msghdr_bytes
transfer_example =
    transfer slow eagain 32 0 connection connection crc 3 (bio_of []) arriving (tree ∷ leaf ∷ [])
      connection-IsConnector connection-AreSending slow-IsSendmsg (omega arith)
      connection-IsConnector (bio_of-IsBio [] (omega arith)) (tree-IsMessage, (leaf-IsMessage, tt))
      refl (omega arith) (omega arith) arriving-flushed
      (λ e. omega (arith, sym arriving_budget ∙ e))

flush_snd_msgbuf_lem_example :
    (bytes : List ℕ) × (bh : MsgbufHead) × (effs : List Effects) × (e : Errno) × (flush_snd_msgbuf
        slow 32 0 eagain connection
      ≡ flushed bytes (with_snd connection bh) effs e)
    × Written connection bytes bh
    × ((i : ℕ) × (i ≤ 0 + length bytes) × Ends (slow i) (with_snd connection bh))
unfolding msghdr_bytes
flush_snd_msgbuf_lem_example =
    flush_snd_msgbuf_lem slow eagain 32 0 connection connection-IsConnector connection-AreSending
      slow-IsSendmsg (omega arith)

sio_connector_rcv_lem_example :
    (bh : MsgbufHead) × (b' : Bio) × (effs : List Effects) × (sio_connector_rcv crc 3 connection
        (bio_of [])
        arriving
        true
      ≡ arrived (with_rcv connection bh) b' effs)
    × Queued connection (tree ∷ []) (take 3 (wire leaf)) bh b'
unfolding msghdr_bytes
sio_connector_rcv_lem_example =
    sio_connector_rcv_lem crc 3 connection (bio_of []) arriving true (tree ∷ [])
      (take 3 (wire leaf)) connection-IsConnector (bio_of-IsBio [] (omega arith))
      (tree-IsMessage, tt) (inr (leaf, drop 3 (wire leaf), leaf-IsMessage, refl, omega arith)) refl
      (omega arith) (omega arith) (λ e. omega (arith, sym arriving_budget ∙ e)) refl

abbrev tcps : Sio
tcps = record {
  base = connection;
  ev_read = true;
  ev_write = true;
  binded = true;
  send_lock = false;
  rbuf = bio_of [];
}

write_event_lem_example :
    (bytes : List ℕ) × (bh : MsgbufHead) × (tcps' : Sio) × (e : Errno) × (effs : List Effects)
    × (write_event slow 32 0 eagain tcps ≡ handled tcps' true e effs)
    × Wrote tcps bytes bh tcps'
    × ((i : ℕ) × (i ≤ 0 + length bytes) × Ends (slow i) tcps'.base)
unfolding msghdr_bytes
write_event_lem_example =
    write_event_lem slow 32 0 eagain tcps connection-IsConnector connection-AreSending
      slow-IsSendmsg (omega arith) refl

check_pollevents-sleeps_example :
    (happened : Events) × (check_pollevents connection all_events ≡ some happened)
    × (rcv_sleeps connection ≡ some (not happened.pollin && (not happened.pollerr && not false)))
    × (snd_sleeps connection ≡ (not happened.pollout && (not happened.pollerr && not false)))
check_pollevents-sleeps_example = check_pollevents-sleeps connection connection-IsConnector
