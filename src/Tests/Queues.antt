-- ===== src/Tests/Queues.antt =====
-- Queues at concrete inputs.
use proxyio.Base.{◌≡◌, ◌⊎◌, [], ◌∷◌, ◌++◌, some, take, drop, arith}
use proxyio.Msgbuf.{Msgbuf}
use proxyio.Msgbuf.Frame.{msghdr_bytes}
use proxyio.Msgbuf.Ctl.{usize}
use proxyio.MsgbufHead.{
  MsgbufHead, popped, fail, msgbuf_head_in, msgbuf_head_out, msgbuf_head_install_iovs,
}
use proxyio.MsgbufHead.Order.{
  IsHead, pushed_events, popped_events, msgbuf_head_in_lem, msgbuf_head_out_lem,
}
use proxyio.MsgbufHead.Sending.{stream, AreSending, msgbuf_head_install_iovs_lem}
use proxyio.Tests.Samples.{
  leaf, leaf-IsMessage, tree-IsMessage, leaf-IsOrdered, tree-IsOrdered, queue, queue-IsHead,
}

msgbuf_head_in_lem_example :
    (bh' : MsgbufHead) × (msgbuf_head_in queue leaf ≡ some (bh', pushed_events queue (usize leaf)))
    × IsHead bh'
    × (bh'.head ≡ queue.head ++ leaf ∷ [])
    × (bh'.wnd ≡ queue.wnd)
    × (bh'.ev_hndl ≡ queue.ev_hndl)
msgbuf_head_in_lem_example = msgbuf_head_in_lem queue leaf queue-IsHead (omega arith)

msgbuf_head_out_lem_example :
    ((queue.head ≡ []) × (msgbuf_head_out queue ≡ fail))
    ⊎ ((bh' : MsgbufHead) × (m : Msgbuf) × (msgbuf_head_out queue
          ≡ popped bh' m (popped_events queue bh'.head))
        × (queue.head ≡ m ∷ bh'.head)
        × IsHead bh'
        × (bh'.wnd ≡ queue.wnd)
        × (bh'.ev_hndl ≡ queue.ev_hndl))
msgbuf_head_out_lem_example = msgbuf_head_out_lem queue queue-IsHead

queue-AreSending : AreSending queue.head
unfolding msghdr_bytes
queue-AreSending =
    (tree-IsMessage, tree-IsOrdered, omega arith, (leaf-IsMessage, leaf-IsOrdered, omega arith, tt))

msgbuf_head_install_iovs_lem_example :
    let (bh', n) = msgbuf_head_install_iovs queue 23 in
    (stream bh'.head ≡ drop 23 (stream queue.head))
    × (stream (take n bh'.head) ≡ [])
    × AreSending (drop n bh'.head)
msgbuf_head_install_iovs_lem_example =
    msgbuf_head_install_iovs_lem queue 23 queue-AreSending (omega arith)
