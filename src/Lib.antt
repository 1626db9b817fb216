-- ===== src/Lib.antt =====
-- proxyio: a messaging library in C, with sockets, message queues and scalability protocols. This
-- development models its core in layers, each over the one before.
--
-- * Bufio (src/utils/bufio.c, bufio.h): the byte queue over pages that a stream socket reads into
--   and writes from. `Bio` is `struct bio`; a page is its offsets and its memory. Stream says which
--   bytes a buffer holds, and Reading, Writing and Io what the operations do to them.
-- * Msgbuf (src/msgbuf/msgbuf.c, msgbuf.h): a message with the control messages below it. `Msgbuf` is
--   `struct msgbuf`. Frame is the header in memory, Tree the well-formed messages and their bytes on
--   the wire, Ctl what `uctl` dispatches to, Send the vectors for the network, Parse the way back from
--   a byte queue.
-- * MsgbufHead (src/msgbuf/msgbuf_head.c, msgbuf_head.h): the queue of messages with its window. The
--   callbacks of its owner are the list of events that an operation returns.
-- * Sp (src/sp): RoundRobin is the balance of requests over targets (reqrep/lbs_rrbin.c), Reqrep the
--   request and reply endpoints and the proxy between them (reqrep/rr.h, req_ep.c, rep_ep.c,
--   pipeline.c), Fanout the publisher, the subscriber and the bus (pubsub/pub.c, sub.c, bus/bus.c).
--   In Reqrep a queue of messages is the list of them, a request has its control messages with
--   the header among them, and the balance is any of the kind LoadbalanceVfptr; Hop is what a
--   proxy does to the header, Routing and Replying the way of a request and back. In Fanout the
--   queues are those of MsgbufHead and the clones those of Msgbuf. Targets are named by their
--   sockets, and sending to a socket is a result. Endpoint is what an endpoint knows of its
--   sockets, and its reader (sp_module.c, sp_add.c, sp_rm.c, sp_recv.c); Handling is what its
--   runner does for a connector.
-- * Socket (src/socket: sockbase.h, send.c, recv.c, listen.c, close.c, eventnotify.c): the part of a
--   socket that all transports share. An operation runs with the lock held, up to its end or to the
--   `condition_wait` that it sleeps in. Readiness sets what pollers are told against what a send and
--   a receive do.
-- * Sio (src/socket/sio/sio.c, and of src/rex/rex_posix.c what it calls): a connection over a stream
--   socket, between the queues of Socket and the network. Flush, Sending and Delivery are the sending
--   side, Arrival the receiving side, which reads through Bufio and Msgbuf, Transfer the two together,
--   and Handler what the event loop calls. `sendmsg` is a parameter that answers each call by its
--   number. Schedule lets senders and the event loop take turns; Turns and Alert are what holds in
--   every schedule.
-- * Poll (src/poll: eventpoll.c, poll_struct.c, select.c): a poller and its entries. Ready is their
--   order, Emission and Adding the operations, Waiting the states that a sequence of them leads to.
-- * Inproc (src/socket/inproc/inproc.c): a connection inside the process. Ends is what holds in every
--   order of what its two ends do.
--   Listening is inproc/inproc_listener.c: the listeners by their addresses, in a StrRb.
-- * StrRb (src/utils/str_rb.c, str_rb.h): a search tree of entries by strings of bytes. Keys is their
--   order, Lookup, Inserting and Erasing the operations against the list of the entries in order.
-- * Sp also has Ulhash (reqrep/lbs_ulhash.c, utils/unorder_p_array.c), the balance by a hash that the
--   user gives, and Conhash (reqrep/lbs_conhash.c, utils/consistent_hash.c), the balance by a ring
--   whose places stand in a StrRb.
-- * Ev (src/ev/ev.c, ev_epoll.c): the event loops. Ev itself is a loop's set of descriptors and the
--   tasks that change it; Watching and Tasks are what holds of them. Efd (src/utils/efd.c) is the pipe
--   that wakes a loop and Signal the `struct ev_sig` over it: each taking of its lock is a step of
--   Interleaved, Wakeup says what a step does, Awake what holds in every order of them, Handling what
--   the handler does alone. Choosing is `ev_get_loop` and `ev_get_loop_lla`.
-- * Sockopt (src/socket/getsockopt.c, setsockopt.c, sio/sio_getsetor.c, inproc/inproc_getsetor.c,
--   mix/mix_getsetor.c): the options of a socket.
-- * Taskpool (src/utils/taskpool.c, taskpool.h): a queue of tasks; Workers is the pool with its workers
--   in every order of what they do.
-- * Mstats (src/utils/mstats_base.c, mstats_base.h): the counters of the periods, and their Totals.
-- * StrArray (src/utils/str_array.c, str_array.h): an array of strings, and cutting one at a separator.
-- * Descriptors (src/socket/sockbase.c, src/poll/poll_struct.c, src/sp/sp_module.c): the tables of
--   sockets, pollers and endpoints with their counts of references. Threads are the steps of the
--   threads on the table of sockets: `xput` counts down without the lock, in a step of its own.
-- * Waitgroup (src/utils/waitgroup.c): the count of workers that are not done.
--
-- Integers keep their widths: `u32`, `int` and `uint64_t` wrap where the code lets them, and
-- the bit fields of a header are four and twelve bits wide. Loops that end for a reason other than
-- the shape of their data run on fuel: in `bio_read` each round empties a page, so one round more
-- than there are pages is enough; in `bio_write` each round stores a byte; `msgbuf_deserialize` needs
-- one unit for each level of nesting. Allocation can fail in `bio_write`, where a budget of pages
-- stands for it; elsewhere the source does not test it, and it is taken to succeed.
--
-- The flush of a connection needs a unit for each byte and one more, since each call of `sendmsg`
-- takes a byte at least; the loop over what has arrived a unit for each byte in the buffer.
--
-- The pipe of a loop has fuel for each word that it holds and two more, since each read takes one; its
-- handler has a round for each signal and one more. What the kernel does is a parameter: `epoll_ctl`,
-- and a pipe by its count of bytes, with the laws of IsEpollCtl and IsPipe.
--
-- A proxy's header has at most fifteen entries, since `ttl` has four bits.
--
-- Not modelled: the listeners of sio and mix, the events of an endpoint's listeners, the events that
-- `eventpoll_wait` reports, system calls, locks and threads, and copies of other projects' code. Of
-- the latter `crc16`, MD5, and the recolouring and erasing of a red-black tree are parameters; only
-- the range of the first is relied on, and of the last two that they keep the order of the entries.
pub mod Base
pub mod Bufio
pub mod Descriptors
pub mod Ev
pub mod Inproc
pub mod Msgbuf
pub mod MsgbufHead
pub mod Mstats
pub mod Poll
pub mod Sio
pub mod Socket
pub mod Sockopt
pub mod Sp
pub mod StrArray
pub mod StrRb
pub mod Taskpool
pub mod Tests
pub mod Waitgroup
