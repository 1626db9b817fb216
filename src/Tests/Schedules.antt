-- ===== src/Tests/Schedules.antt =====
-- Schedules of a connection and of the table of sockets at concrete inputs.
use proxyio.Base.{◌≡◌, true, false, ◌||◌, [], ◌∷◌, arith}
use proxyio.Descriptors.{Descriptors, numbers}
use proxyio.Descriptors.Threads.{Sockets}
use proxyio.Msgbuf.Frame.{msghdr_bytes}
use proxyio.MsgbufHead.{is_empty, msgbuf_head_init, msgbuf_head_ev_hndl}
use proxyio.MsgbufHead.Sending.{AreSending}
use proxyio.Socket.{sockbase_init, snd_msgbuf_head_add}
use proxyio.Socket.Readiness.{IsConnector}
use proxyio.Sio.{salloc, sio_init}
use proxyio.Sio.Schedule.{Loop, Reachable, after_turn, sends, bound, goes, alert}
use proxyio.Sio.Alert.{alert-Reachable}
use proxyio.Tests.Samples.{leaf, leaf-IsMessage, leaf-IsOrdered}

abbrev start : Loop
start = record { tcps = record (sio_init (salloc 3)) { binded = true }; pending = [] }

abbrev busy : Loop
busy = after_turn start (snd_msgbuf_head_add start.tcps.base leaf)

busy-Reachable : Reachable busy
unfolding salloc sio_init sockbase_init msgbuf_head_init msgbuf_head_ev_hndl msghdr_bytes
busy-Reachable =
    goes (bound 3) (sends leaf leaf-IsMessage leaf-IsOrdered (omega arith) (omega arith))

alert-Reachable_example :
    IsConnector busy.tcps.base
    × AreSending busy.tcps.base.snd.head
    × ((is_empty busy.tcps.base.snd.head || alert busy) ≡ true)
alert-Reachable_example = alert-Reachable busy-Reachable

-- The socket 0, whose last reference is taken and which is still in the table.
abbrev half_closed : Sockets
half_closed = record {
  xgb = record {
    nused = 1;
    unused = numbers 1 10239;
    table = (0, record { ref = 0; freed = false }) ∷ [];
    shutdown_head = [];
  };
  closing = 0 ∷ [];
}
