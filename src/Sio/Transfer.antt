-- ===== src/Sio/Transfer.antt =====
-- A connection that sends and one that receives: what the second one makes of a flush of the first.
use proxyio.Base.{
  ℕ, zero, suc, ◌+◌, ◌^◌, ◌≤◌, ◌<◌, ◌≡◌, ◌≢◌, refl, sym, ap, ◌∙◌, inl, inr, true, List, [], ◌∷◌,
  ◌++◌, map, take, drop, length, concat, arith, leb, Bool-cases, length-append, length-drop,
  append_assoc, take-append-drop, take-append_left, drop-append_left, take-append_length,
  drop-append_length,
}
use proxyio.Bufio.{Bio}
use proxyio.Bufio.Stream.{contents, IsBio}
use proxyio.Bufio.Io.{bio_prefetch}
use proxyio.Msgbuf.{Msgbuf}
use proxyio.Msgbuf.Tree.{wire}
use proxyio.Msgbuf.RoundTrip.{rewind}
use proxyio.MsgbufHead.{MsgbufHead}
use proxyio.MsgbufHead.Order.{total}
use proxyio.MsgbufHead.Sending.{stream, AreSending}
use proxyio.Socket.{Sockbase, Effects}
use proxyio.Socket.Readiness.{IsConnector}
use proxyio.Sio.{Errno, Answer, Flushed, flushed, flush_snd_msgbuf, arrived, sio_connector_rcv}
use proxyio.Sio.Flush.{with_snd}
use proxyio.Sio.Sending.{IsSendmsg}
use proxyio.Sio.Delivery.{flush_snd_msgbuf_lem}
use proxyio.Sio.Arrival.{with_rcv, AreWhole, list_wire, IsPartial, sio_connector_rcv_lem}
use proxyio.Msgbuf.Send.{RexIov}

append_empty : (xs ys : List ℕ) → xs ++ ys ≡ [] → (xs ≡ []) × (ys ≡ [])
append_empty [] ys e = (refl, e)
append_empty (x ∷ xs) ys e = absurd (cc)

-- Where two texts are equal, a front of the one that is long enough is a front of the other.
part_front :
    (xs ys zs ws : List ℕ)
    → xs ++ ys ≡ zs ++ ws
    → length xs < length zs
    → xs ++ drop (length xs) zs ≡ zs
part_front xs ys zs ws e h =
    ap (λ x. x ++ drop (length xs) zs)
      (sym (take-append_length xs ys)
        ∙ ap (take (length xs)) e
        ∙ take-append_left (length xs) zs ws (omega arith))
    ∙ take-append-drop (length xs) zs

part_split :
    (xs ys zs ws : List ℕ)
    → xs ++ ys ≡ zs ++ ws
    → length zs ≤ length xs
    → (xs ≡ zs ++ drop (length zs) xs) × (drop (length zs) xs ++ ys ≡ ws)
part_split xs ys zs ws e h = (
  sym (take-append-drop (length zs) xs)
      ∙ ap (λ x. x ++ drop (length zs) xs)
          (sym (take-append_left (length zs) xs ys h)
            ∙ ap (take (length zs)) e
            ∙ take-append_length zs ws),
  sym (drop-append_left (length zs) xs ys h) ∙ ap (drop (length zs)) e ∙ drop-append_length zs ws,
)

-- Some of the messages, and the front of the next one.
record Front (ms : List Msgbuf) (bytes rest : List ℕ) : Type 0 where
  number : ℕ
  part : List ℕ
  front : bytes ≡ list_wire (take number ms) ++ part
  partial : IsPartial part
  back : part ++ rest ≡ list_wire (drop number ms)
  whole : AreWhole (take number ms)

-- The front of the bytes of a list of messages is the first messages and the front of the next.
split_wire :
    (ms : List Msgbuf) (bytes rest : List ℕ)
    → AreWhole ms
    → bytes ++ rest ≡ list_wire ms
    → Front ms bytes rest
split_wire [] bytes rest w e =
    let none_left = append_empty bytes rest e in
    record {
      number = 0;
      part = [];
      front = none_left.0;
      partial = inl refl;
      back = none_left.1;
      whole = tt;
    }
split_wire (m ∷ ms) bytes rest w e = elim (Bool-cases (leb (length (wire m)) (length bytes))) [
  | inl long ↦
      let (front, back) = part_split bytes rest (wire m) (list_wire ms) e (ground (arith, long)) in
      let f = split_wire ms (drop (length (wire m)) bytes) rest w.1 back in
      record {
        number = suc f.number;
        part = f.part;
        front =
            front
            ∙ ap (λ x. wire m ++ x) f.front
            ∙ sym (append_assoc (wire m) (list_wire (take f.number ms)) f.part);
        partial = f.partial;
        back = f.back;
        whole = (w.0, f.whole);
      }
  | inr short ↦
      let h : length bytes < length (wire m) = ground (arith, short) in
      record {
        number = 0;
        part = bytes;
        front = refl;
        partial = inr (
          m,
          drop (length bytes) (wire m),
          w.0,
          part_front bytes rest (wire m) (list_wire ms) e h,
          omega (arith, h, length-drop (length bytes) (wire m)),
        );
        back = e;
        whole = tt;
      }
]

total-take : (n : ℕ) (ms : List Msgbuf) → total (map rewind (take n ms)) ≤ total (map rewind ms)
total-take zero ms = omega arith
total-take (suc n) [] = omega arith
total-take (suc n) (m ∷ ms) = omega (arith, total-take n ms)

-- How a flush at the one end and a reception at the other fit together.
pub record Transferred (snd rcv : Sockbase) (ms : List Msgbuf) (bh bh' : MsgbufHead) (b : Bio)
    : Type 0 where
  pub sender : IsConnector (with_snd snd bh)
  pub receiver : IsConnector (with_rcv rcv bh')
  pub number : ℕ
  pub queued : bh'.head ≡ rcv.rcv.head ++ map rewind (take number ms)
  pub under_way : contents b ++ stream bh.head ≡ list_wire (drop number ms)

abbrev pub flushed_bytes : Flushed → List ℕ
flushed_bytes (flushed bytes sb effs e) = bytes
flushed_bytes _ = []

-- While the bytes in the receiver's buffer and those in the sender's queue are together the bytes of
-- `ms`, a flush and the reception of what it sent queue the first of these messages at the receiver,
-- in order and each once, and the same holds of the rest of them.
pub transfer :
    (sendmsg : ℕ → List RexIov → Answer) (errno : Errno) (fuel t : ℕ) (snd rcv : Sockbase)
    (crc16 : List ℕ → ℕ) (budget : ℕ) (b : Bio) (reads : List (List ℕ)) (ms : List Msgbuf)
    → IsConnector snd
    → AreSending snd.snd.head
    → ((i : ℕ) → IsSendmsg (sendmsg i))
    → length (stream snd.snd.head) < fuel
    → IsConnector rcv
    → IsBio b
    → AreWhole ms
    → contents b ++ stream snd.snd.head ≡ list_wire ms
    → total rcv.rcv.head + total (map rewind ms) < 2 ^ 31
    → b.bsize + length (stream snd.snd.head) < 2 ^ 63
    → concat reads ≡ flushed_bytes (flush_snd_msgbuf sendmsg fuel t errno snd)
    → (bio_prefetch budget b reads true).0 ≢ 0
    → (bh bh' : MsgbufHead) × (b' : Bio) × (effs effs' : List Effects) × (e : Errno)
      × (flush_snd_msgbuf sendmsg fuel t errno snd
          ≡ flushed (concat reads) (with_snd snd bh) effs e)
      × (sio_connector_rcv crc16 budget rcv b reads true ≡ arrived (with_rcv rcv bh') b' effs')
      × Transferred snd rcv ms bh bh' b'
transfer sendmsg errno fuel t snd rcv crc16 budget b reads ms v s net h v' bio w same room small got
      pages =
    let (bytes, bh, effs, e, out, written, end) =
      flush_snd_msgbuf_lem sendmsg errno fuel t snd v s net h in
    let all : concat reads ≡ bytes = got ∙ ap flushed_bytes out in
    let split : concat reads ++ stream bh.head ≡ stream snd.snd.head =
      ap (λ x. x ++ stream bh.head) all ∙ written.split in
    let f : Front ms (contents b ++ concat reads) (stream bh.head) =
      split_wire ms (contents b ++ concat reads) (stream bh.head) w (
        append_assoc (contents b) (concat reads) (stream bh.head)
        ∙ ap (λ x. contents b ++ x) split
        ∙ same) in
    let (bh', b', effs', out', q) =
      sio_connector_rcv_lem crc16 budget rcv b reads true (take f.number ms) f.part v' bio f.whole
        f.partial f.front (omega (arith, room, total-take f.number ms))
        (omega
          (arith, small, ap (length {A = ℕ}) split, length-append (concat reads) (stream bh.head)))
        pages refl in
    (
      bh,
      bh',
      b',
      effs,
      effs',
      e,
      out ∙ ap (λ x. flushed x (with_snd snd bh) effs e) (sym all),
      out',
      record {
        sender = written.connector;
        receiver = q.connector;
        number = f.number;
        queued = q.queue;
        under_way = ap (λ x. x ++ stream bh.head) q.left ∙ f.back;
      },
    )
