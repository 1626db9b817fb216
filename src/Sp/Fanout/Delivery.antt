-- ===== src/Sp/Fanout/Delivery.antt =====
-- Every target of a publisher or of a bus gets the message, and gets it last.
use proxyio.Base.{
  ℕ, ◌+◌, ◌^◌, ◌<◌, ◌≡◌, refl, ap, ap₂, ◌∙◌, inl, inr, true, List, [], ◌∷◌, ◌++◌, some, length,
  arith, ◌==◌, if◌then◌else◌, Bool-cases,
}
use proxyio.Msgbuf.{Msgbuf, msgbuf, Msgs, nil, cons, ubase, cmsg_head}
use proxyio.Msgbuf.Tree.{IsMessage, AreMessages}
use proxyio.Msgbuf.Ctl.{usize, clone_ubuf}
use proxyio.Msgbuf.Copy.{dups, ubufdup_lem, clone_ubuf_lem}
use proxyio.MsgbufHead.Order.{IsHead, total, msgbuf_head_in_lem}
use proxyio.Sp.Fanout.{
  FanTarget, FanEp, give, cons_both, send_walk, pub_ep_send, dispatch_walk, bus_ep_add,
}

-- The queues are well formed and have room for so many bytes.
abbrev pub AreReady : ℕ → List FanTarget → Type 0
AreReady len [] = Unit {0}
AreReady len (t ∷ ts) = IsHead t.ls_head × (total t.ls_head.head + len < 2 ^ 31) × AreReady len ts

abbrev pub bodies : Msgs → List (List ℕ)
bodies nil = []
bodies (cons c cs) = ubase c ∷ bodies cs

-- A well-formed message with the same body and with control messages of the same bodies, in order, is
-- last in the queue, and the target asks to send.
pub record Received (m : Msgbuf) (t t' : FanTarget) : Type 0 where
  pub message : Msgbuf
  pub is_message : IsMessage message
  pub same_body : ubase message ≡ ubase m
  pub same_controls : bodies (cmsg_head message) ≡ bodies (cmsg_head m)
  pub last : t'.ls_head.head ≡ t.ls_head.head ++ message ∷ []
  pub head : IsHead t'.ls_head
  pub asks : t'.pollout ≡ true
  pub same_fd : t'.fd ≡ t.fd

abbrev pub AllReceived : Msgbuf → List FanTarget → List FanTarget → Type 0
AllReceived m [] [] = Unit {0}
AllReceived m [] (u ∷ us) = ⊥
AllReceived m (t ∷ ts) [] = ⊥
AllReceived m (t ∷ ts) (u ∷ us) = Received m t u × AllReceived m ts us

-- All but the one of a socket, which stays as it is.
abbrev pub OthersReceived : ℕ → Msgbuf → List FanTarget → List FanTarget → Type 0
OthersReceived src m [] [] = Unit {0}
OthersReceived src m [] (u ∷ us) = ⊥
OthersReceived src m (t ∷ ts) [] = ⊥
OthersReceived src m (t ∷ ts) (u ∷ us) =
    (if t.fd == src then (t ≡ u) else Received m t u) × OthersReceived src m ts us

usize-length : (m : Msgbuf) → IsMessage m → usize m ≡ length (ubase m)
usize-length (msgbuf s h u cs) v = v.1

give-Received :
    (t : FanTarget) (m : Msgbuf)
    → IsMessage m
    → IsHead t.ls_head
    → total t.ls_head.head + length (ubase m) < 2 ^ 31
    → (t' : FanTarget) × (give t m ≡ some t') × Received m t t'
unfolding give
give-Received t m v h room =
    let p = msgbuf_head_in_lem t.ls_head m h (omega (arith, usize-length m v, room)) in
    (
      record t { ls_head = p.0; pollout = true },
      rw (p.1, give) refl,
      record {
        message = m;
        is_message = v;
        same_body = refl;
        same_controls = refl;
        last = p.3;
        head = p.2;
        asks = refl;
        same_fd = refl;
      },
    )

module _ (crc16 : List ℕ → ℕ) (crc16_fits : (bytes : List ℕ) → crc16 bytes < 2 ^ 16) where
  bodies-dups : (cs : Msgs) → AreMessages cs → bodies (dups crc16 crc16_fits cs) ≡ bodies cs
  bodies-dups nil v = refl
  bodies-dups (cons c cs) v =
      ap₂ (λ b bs. b ∷ bs) ((ubufdup_lem crc16 crc16_fits c v.0).1) (bodies-dups cs v.1)

  bodies-children :
      (m : Msgbuf)
      → IsMessage m
      → bodies (dups crc16 crc16_fits (cmsg_head m)) ≡ bodies (cmsg_head m)
  bodies-children (msgbuf s h u cs) v = bodies-dups cs v.6

  clone-Received :
      (t : FanTarget) (m : Msgbuf)
      → IsMessage m
      → IsHead t.ls_head
      → total t.ls_head.head + length (ubase m) < 2 ^ 31
      → (t' : FanTarget) × (give t (clone_ubuf crc16 m) ≡ some t') × Received m t t'
  clone-Received t m v h room =
      let c = clone_ubuf_lem crc16 crc16_fits m v in
      let body : ubase (clone_ubuf crc16 m) ≡ ubase m = c.2 in
      let controls = ap bodies c.1 ∙ bodies-children m v in
      let g =
        give-Received t (clone_ubuf crc16 m) c.0 h
          (omega (arith, ap (length {A = ℕ}) body, room)) in
      let got = g.2 in
      (
        g.0,
        g.1,
        record {
          message = got.message;
          is_message = got.is_message;
          same_body = got.same_body ∙ body;
          same_controls = got.same_controls ∙ controls;
          last = got.last;
          head = got.head;
          asks = got.asks;
          same_fd = got.same_fd;
        },
      )

  send_walk-AllReceived :
      (ts : List FanTarget) (m : Msgbuf)
      → IsMessage m
      → AreReady (length (ubase m)) ts
      → (us : List FanTarget) × (send_walk crc16 ts m ≡ some us) × AllReceived m ts us
  unfolding send_walk
  send_walk-AllReceived [] m v r = ([], refl, tt)
  send_walk-AllReceived (t ∷ []) m v r =
      let g = give-Received t m v r.0 r.1 in (g.0 ∷ [], rw g.1 refl, (g.2, tt))
  send_walk-AllReceived (t ∷ u ∷ ts) m v r =
      let g = clone-Received t m v r.0 r.1 in
      let ih = send_walk-AllReceived (u ∷ ts) m v r.2 in
      (g.0 ∷ ih.0, rw g.1 (ap (cons_both (some g.0)) ih.1), (g.2, ih.2))

  -- A publisher gives every connector a message with the body of this one, and with control messages
  -- of the same bodies in the same order, behind what the connector has to send already. All
  -- the queues are well formed, with room for the message.
  pub pub_ep_send_lem :
      (ep : FanEp) (m : Msgbuf)
      → IsMessage m
      → AreReady (length (ubase m)) ep.connectors
      → (ep' : FanEp) × (pub_ep_send crc16 ep m ≡ some ep')
        × AllReceived m ep.connectors ep'.connectors
        × (ep'.rcv ≡ ep.rcv)
  unfolding pub_ep_send
  pub_ep_send_lem ep m v r =
      let w = send_walk-AllReceived ep.connectors m v r in
      (record ep { connectors = w.0 }, rw (w.1, pub_ep_send) refl, w.2, refl)

  dispatch_walk-OthersReceived :
      (src : ℕ) (ts : List FanTarget) (m : Msgbuf)
      → IsMessage m
      → AreReady (length (ubase m)) ts
      → (us : List FanTarget) × (dispatch_walk crc16 src ts m ≡ some us)
        × OthersReceived src m ts us
  unfolding dispatch_walk
  dispatch_walk-OthersReceived src [] m v r = ([], refl, tt)
  dispatch_walk-OthersReceived src (t ∷ ts) m v r =
      let ih = dispatch_walk-OthersReceived src ts m v r.2 in
      let g = clone-Received t m v r.0 r.1 in
      elim (Bool-cases (t.fd == src)) [
        | inl here ↦ (t ∷ ih.0, rw here (ap (cons_both (some t)) ih.1), (rw here refl, ih.2))
        | inr there ↦
            (g.0 ∷ ih.0, rw (there, g.1) (ap (cons_both (some g.0)) ih.1), (rw there g.2, ih.2))
      ]

  -- A bus gives a message that came from one socket to all its other connectors and to its own
  -- reader, and never back.
  pub bus_ep_add_lem :
      (ep : FanEp) (src : ℕ) (m : Msgbuf)
      → IsMessage m
      → AreReady (length (ubase m)) ep.connectors
      → IsHead ep.rcv
      → total ep.rcv.head + length (ubase m) < 2 ^ 31
      → (ep' : FanEp) × (bus_ep_add crc16 ep src m ≡ some ep')
        × OthersReceived src m ep.connectors ep'.connectors
        × (ep'.rcv.head ≡ ep.rcv.head ++ m ∷ [])
        × IsHead ep'.rcv
  unfolding bus_ep_add
  bus_ep_add_lem ep src m v r h room =
      let w = dispatch_walk-OthersReceived src ep.connectors m v r in
      let p = msgbuf_head_in_lem ep.rcv m h (omega (arith, usize-length m v, room)) in
      (
        record ep { connectors = w.0; rcv = p.0 },
        rw (w.1, bus_ep_add) (rw (p.1, bus_ep_add) refl),
        w.2,
        p.3,
        p.2,
      )
