-- ===== src/Sio/Arrival.antt =====
-- What a connection makes of the bytes that arrive: the messages in them, whole and in order.
use proxyio.Base.{
  ℕ, zero, suc, ◌+◌, ◌^◌, ◌≤◌, ◌<◌, ◌≡◌, ◌≢◌, refl, sym, ap, ◌∙◌, ◌⊎◌, inl, inr, Bool, false, not,
  ◌&&◌, List, [], ◌∷◌, ◌++◌, none, some, map, length, concat, arith, ◌==◌, if◌then◌else◌,
  length-append, append_assoc, append-nil, subst,
}
use proxyio.Bufio.{Bio}
use proxyio.Bufio.Stream.{contents, IsBio}
use proxyio.Bufio.Io.{bio_prefetch, bio_prefetch_lem}
use proxyio.Msgbuf.Ctl.{usize}
use proxyio.Msgbuf.Frame.{msghdr_bytes, length-msghdr_bytes}
use proxyio.Msgbuf.{Msgbuf, msgbuf, Msgs, nil, cons}
use proxyio.Msgbuf.Tree.{IsMessage, wire, wires}
use proxyio.Msgbuf.Parse.{done, again, msgbuf_deserialize}
use proxyio.Msgbuf.RoundTrip.{rewind, height, heights, msgbuf_deserialize-wire}
use proxyio.Msgbuf.Malformed.{recv_finish_short, deserialize_again, msgbuf_deserialize-prefix}
use proxyio.MsgbufHead.{MsgbufHead, is_positive, msgbuf_head_in}
use proxyio.MsgbufHead.Order.{total, pushed_events, msgbuf_head_in_lem}
use proxyio.Socket.{Sockbase, Effects, did, rcv_msgbuf_head_add}
use proxyio.Socket.Readiness.{IsConnector, told, finish_lem}
use proxyio.Sio.{Arrived, arrived, after_add, rcv_loop, sio_connector_rcv}

-- The connection with another receive queue.
abbrev pub with_rcv : Sockbase → MsgbufHead → Sockbase
with_rcv sb bh = record sb { rcv = bh }

abbrev pub AreWhole : List Msgbuf → Type 0
AreWhole [] = Unit {0}
AreWhole (m ∷ ms) = IsMessage m × AreWhole ms

-- The bytes of messages one behind the other.
abbrev pub list_wire : List Msgbuf → List ℕ
list_wire [] = []
list_wire (m ∷ ms) = wire m ++ list_wire ms

-- Nothing, or the front of a message that goes on.
abbrev pub IsPartial : List ℕ → Type 0
IsPartial part =
    (part ≡ [])
    ⊎ ((m : Msgbuf) × (more : List ℕ) × IsMessage m × (part ++ more ≡ wire m) × (0 < length more))

mutual
  height-wire : (m : Msgbuf) → height m ≤ length (wire m)
  height-wire (msgbuf s h u cs) = omega (
    arith,
    length-append (msghdr_bytes h ++ u) (wires cs),
    length-append (msghdr_bytes h) u,
    length-msghdr_bytes h,
    heights-wires cs,
  )

  heights-wires : (cs : Msgs) → heights cs ≤ length (wires cs)
  heights-wires nil = omega arith
  heights-wires (cons c cs) =
      omega (arith, length-append (wire c) (wires cs), height-wire c, heights-wires cs)

wire_positive : (m : Msgbuf) → 0 < length (wire m)
wire_positive (msgbuf s h u cs) = omega (
  arith,
  length-append (msghdr_bytes h ++ u) (wires cs),
  length-append (msghdr_bytes h) u,
  length-msghdr_bytes h,
)

total-both : (ms ns : List Msgbuf) → total (ms ++ ns) ≡ total ms + total ns
total-both [] ns = omega arith
total-both (m ∷ ms) ns = omega (arith, total-both ms ns)

rcv_add_step :
    (sb : Sockbase) (m : Msgbuf) (bh : MsgbufHead) (v : IsConnector (with_rcv sb bh))
    → msgbuf_head_in sb.rcv m ≡ some (bh, pushed_events sb.rcv (usize m))
    → rcv_msgbuf_head_add sb m
      ≡ did (with_rcv sb bh) tt (record {
        calls = pushed_events sb.rcv (usize m);
        emits = told (with_rcv sb bh);
        woken = is_positive bh.waiters;
      })
unfolding rcv_msgbuf_head_add
rcv_add_step sb m bh v e =
    rw (e, rcv_msgbuf_head_add)
      (finish_lem (with_rcv sb bh) tt (pushed_events sb.rcv (usize m)) (is_positive bh.waiters) v)

rcv_add_lem :
    (sb : Sockbase) (m : Msgbuf)
    → IsConnector sb
    → total sb.rcv.head + usize m < 2 ^ 31
    → (bh : MsgbufHead) × (eff : Effects) × (rcv_msgbuf_head_add sb m ≡ did (with_rcv sb bh) tt eff)
      × IsConnector (with_rcv sb bh)
      × (bh.head ≡ sb.rcv.head ++ m ∷ [])
rcv_add_lem sb m v room =
    let (bh, e, valid, front, wnd, hndl) = msgbuf_head_in_lem sb.rcv m v.rcv_head room in
    let w : IsConnector (with_rcv sb bh) = record {
      connector = v.connector;
      rcv_head = valid;
      snd_head = v.snd_head;
    } in
    (bh, _, rcv_add_step sb m bh w e, w, front)

nothing_whole :
    (crc16 : List ℕ → ℕ) (b : Bio)
    → IsBio b
    → IsPartial (contents b)
    → msgbuf_deserialize crc16 (suc b.bsize) b ≡ again
nothing_whole crc16 b bio (inl e) =
    deserialize_again crc16 b.bsize b
      (recv_finish_short b (omega (arith, bio.counted, ap (length {A = ℕ}) e)))
nothing_whole crc16 b bio (inr (m, more, v, e, pos)) =
    msgbuf_deserialize-prefix crc16 m b.bsize b more v bio e pos

module _ (crc16 : List ℕ → ℕ) (fuel : ℕ) (sb : Sockbase) (b : Bio) where
  loop_again :
      msgbuf_deserialize crc16 (suc b.bsize) b ≡ again
      → rcv_loop crc16 (suc fuel) sb b ≡ arrived sb b []
  unfolding rcv_loop
  loop_again e = rw (e, rcv_loop) refl

  loop_done :
      (m : Msgbuf) (b' : Bio) (sb' : Sockbase) (eff : Effects) (r : Arrived)
      → msgbuf_deserialize crc16 (suc b.bsize) b ≡ done m b'
      → rcv_msgbuf_head_add sb m ≡ did sb' tt eff
      → rcv_loop crc16 fuel sb' b' ≡ r
      → rcv_loop crc16 (suc fuel) sb b ≡ after_add eff r
  unfolding rcv_loop
  loop_done m b' sb' eff r e f g = rw (e, rcv_loop, f, g) refl

-- What the receive queue and the buffer hold afterwards.
pub record Queued (sb : Sockbase) (ms : List Msgbuf) (part : List ℕ) (bh : MsgbufHead) (b : Bio)
    : Type 0 where
  pub connector : IsConnector (with_rcv sb bh)
  pub queue : bh.head ≡ sb.rcv.head ++ map rewind ms
  pub bio : IsBio b
  pub left : contents b ≡ part

rcv_loop_lem :
    (crc16 : List ℕ → ℕ) (fuel : ℕ) (sb : Sockbase) (b : Bio) (ms : List Msgbuf) (part : List ℕ)
    → IsConnector sb
    → IsBio b
    → AreWhole ms
    → IsPartial part
    → contents b ≡ list_wire ms ++ part
    → total sb.rcv.head + total (map rewind ms) < 2 ^ 31
    → length (list_wire ms) < fuel
    → (bh : MsgbufHead) × (b' : Bio) × (effs : List Effects) × (rcv_loop crc16 fuel sb b
        ≡ arrived (with_rcv sb bh) b' effs)
      × Queued sb ms part bh b'
rcv_loop_lem crc16 zero sb b ms part v bio w p e room h = absurd (omega (arith, h))
rcv_loop_lem crc16 (suc fuel) sb b [] part v bio w p e room h = (
  sb.rcv,
  b,
  [],
  loop_again crc16 fuel sb b (nothing_whole crc16 b bio (subst IsPartial (sym e) p)),
  record { connector = v; queue = sym (append-nil sb.rcv.head); bio = bio; left = e },
)
rcv_loop_lem crc16 (suc fuel) sb b (m ∷ ms) part v bio w p e room h =
    let front : contents b ≡ wire m ++ (list_wire ms ++ part) =
      e ∙ append_assoc (wire m) (list_wire ms) part in
    let deep : height m ≤ suc b.bsize = omega (
      arith,
      height-wire m,
      bio.counted,
      ap (length {A = ℕ}) front,
      length-append (wire m) (list_wire ms ++ part),
    ) in
    let (b', got, bio', rest) =
      msgbuf_deserialize-wire crc16 m (suc b.bsize) b (list_wire ms ++ part) w.0 deep bio front in
    let (bh, eff, added, v', queue) = rcv_add_lem sb (rewind m) v (omega (arith, room)) in
    let size : total bh.head ≡ total sb.rcv.head + (usize (rewind m) + 0) =
      ap total queue ∙ total-both sb.rcv.head (rewind m ∷ []) in
    let (bh', b'', effs, out, q) =
      rcv_loop_lem crc16 fuel (with_rcv sb bh) b' ms part v' bio' w.1 p rest
        (omega (arith, room, size))
        (omega (arith, h, wire_positive m, length-append (wire m) (list_wire ms))) in
    (
      bh',
      b'',
      eff ∷ effs,
      loop_done crc16 fuel sb b (rewind m) b' (with_rcv sb bh) eff
          (arrived (with_rcv sb bh') b'' effs) got added out,
      record {
        connector = q.connector;
        queue =
            q.queue
            ∙ ap (λ x. x ++ map rewind ms) queue
            ∙ append_assoc sb.rcv.head (rewind m ∷ []) (map rewind ms);
        bio = q.bio;
        left = q.left;
      },
    )

connector_rcv_step :
    (crc16 : List ℕ → ℕ) (budget : ℕ) (sb : Sockbase) (b : Bio) (reads : List (List ℕ))
    (no_more : Bool) (n : ℕ) (r : Arrived)
    → (bio_prefetch budget b reads no_more).2 ≡ some n
    → (let b' = (bio_prefetch budget b reads no_more).1 in rcv_loop crc16 (suc b'.bsize) sb b') ≡ r
    → sio_connector_rcv crc16 budget sb b reads no_more ≡ r
unfolding sio_connector_rcv
connector_rcv_step crc16 budget sb b reads no_more n r e f = rw (e, sio_connector_rcv) f

-- The messages whose last byte has arrived are queued, in the order in which they arrived, each once,
-- and the bytes of the next one wait in the buffer.
pub sio_connector_rcv_lem :
    (crc16 : List ℕ → ℕ) (budget : ℕ) (sb : Sockbase) (b : Bio) (reads : List (List ℕ))
    (no_more : Bool) (ms : List Msgbuf) (part : List ℕ)
    → IsConnector sb
    → IsBio b
    → AreWhole ms
    → IsPartial part
    → contents b ++ concat reads ≡ list_wire ms ++ part
    → total sb.rcv.head + total (map rewind ms) < 2 ^ 31
    → b.bsize + length (concat reads) < 2 ^ 63
    → (bio_prefetch budget b reads no_more).0 ≢ 0
    → (not no_more && length (concat reads) == 0) ≡ false
    → (bh : MsgbufHead) × (b' : Bio) × (effs : List Effects) × (sio_connector_rcv crc16 budget sb b
          reads no_more
        ≡ arrived (with_rcv sb bh) b' effs)
      × Queued sb ms part bh b'
sio_connector_rcv_lem crc16 budget sb b reads no_more ms part v bio w p e room small pages
      some_read =
    let (budget', b', result) = bio_prefetch budget b reads no_more in
    let (bio', held, r) = bio_prefetch_lem budget b reads no_more bio small pages in
    let r' : result ≡ some (length (concat reads)) =
      r ∙ ap (λ t. if t then none else some (length (concat reads))) some_read in
    let (bh, b'', effs, out, q) =
      rcv_loop_lem crc16 (suc b'.bsize) sb b' ms part v bio' w p (held ∙ e) room (
        omega (
          arith,
          bio'.counted,
          ap (length {A = ℕ}) (held ∙ e),
          length-append (list_wire ms) part,
        )) in
    (
      bh,
      b'',
      effs,
      connector_rcv_step crc16 budget sb b reads no_more (length (concat reads))
          (arrived (with_rcv sb bh) b'' effs) r' out,
      q,
    )
