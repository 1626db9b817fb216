-- ===== src/Sio/Flush.antt =====
-- A flush of the send queue: what goes to the network, and that it ends.
use proxyio.Base.{
  ℕ, zero, suc, ◌≤◌, ◌<◌, ◌≡◌, refl, sym, ap, ◌∙◌, inl, inr, List, [], ◌∷◌, ◌++◌, some, take, drop,
  length, arith, subst, take-append-drop,
}
use proxyio.Msgbuf.{Msgbuf}
use proxyio.MsgbufHead.{MsgbufHead, is_positive, msgbuf_head_install_iovs}
use proxyio.MsgbufHead.Order.{IsHead, popped_events, msgbuf_head_out_lem}
use proxyio.MsgbufHead.Sending.{stream, AreSending, msgbuf_head_install_iovs_lem}
use proxyio.MsgbufHead.Installed.{stream-append, msgbuf_head_install_iovs-IsHead}
use proxyio.Socket.{Sockbase, Effects, did, snd_popped, snd_msgbuf_head_rm}
use proxyio.Socket.Readiness.{IsConnector, told, finish_lem}
use proxyio.Sio.{rm_times, sndhead_install_iovs}

-- The connection with another send queue.
abbrev pub with_snd : Sockbase → MsgbufHead → Sockbase
with_snd sb bh = record sb { snd = bh }

with_snd-IsConnector :
    (sb : Sockbase) (bh : MsgbufHead) → IsConnector sb → IsHead bh → IsConnector (with_snd sb bh)
with_snd-IsConnector sb bh v h = record {
  connector = v.connector;
  rcv_head = v.rcv_head;
  snd_head = h;
}

-- What a removal of messages at the front of the send queue leaves.
Removed : Sockbase → List Msgbuf → MsgbufHead → Type 0
Removed sb ms bh = IsConnector (with_snd sb bh) × (bh.head ≡ ms)

snd_rm_lem :
    (sb : Sockbase) (m : Msgbuf) (ms : List Msgbuf)
    → IsConnector sb
    → sb.snd.head ≡ m ∷ ms
    → (bh : MsgbufHead) × (eff : Effects) × (snd_msgbuf_head_rm sb
        ≡ did (with_snd sb bh) (some m) eff)
      × IsConnector (with_snd sb bh)
      × (bh.head ≡ ms)
      × (bh.ev_hndl ≡ sb.snd.ev_hndl)
unfolding snd_msgbuf_head_rm snd_popped
snd_rm_lem sb m ms v e = elim (msgbuf_head_out_lem sb.snd v.snd_head) [
  | inl x ↦ absurd (cc)
  | inr (bh, n, out, first, valid, wnd, hndl) ↦
      let same : n ∷ bh.head ≡ m ∷ ms = sym first ∙ e in
      let w : IsConnector (with_snd sb bh) = with_snd-IsConnector sb bh v valid in
      let n_m : n ≡ m = cc in
      let eff : Effects = record {
        calls = popped_events sb.snd bh.head;
        emits = told (with_snd sb bh);
        woken = is_positive bh.waiters;
      } in
      (
        bh,
        eff,
        ap (snd_popped sb) out
            ∙ finish_lem (with_snd sb bh) (some n) eff.calls eff.woken w
            ∙ ap (λ x. did (with_snd sb bh) (some x) eff) n_m,
        w,
        cc,
        hndl,
      )
]

rm_times_step :
    (n : ℕ) (sb sb' : Sockbase) (m : Msgbuf) (eff : Effects) (r : Sockbase × List Effects)
    → snd_msgbuf_head_rm sb ≡ did sb' (some m) eff
    → rm_times n sb' ≡ some r
    → rm_times (suc n) sb ≡ some (r.0, eff ∷ r.1)
unfolding rm_times
rm_times_step n sb sb' m eff r e f = rw (e, rm_times, f) refl

rm_times_lem :
    (n : ℕ) (sb : Sockbase) (ms : List Msgbuf)
    → IsConnector sb
    → sb.snd.head ≡ ms
    → n ≤ length ms
    → (bh : MsgbufHead) × (effs : List Effects) × (rm_times n sb ≡ some (with_snd sb bh, effs))
      × IsConnector (with_snd sb bh)
      × (bh.head ≡ drop n ms)
      × (bh.ev_hndl ≡ sb.snd.ev_hndl)
unfolding rm_times
rm_times_lem zero sb ms v e h = (sb.snd, [], refl, v, e, refl)
rm_times_lem (suc n) sb [] v e h = absurd (omega (arith, h))
rm_times_lem (suc n) sb (m ∷ ms) v e h =
    let (bh, eff, out, w, rest, hndl) = snd_rm_lem sb m ms v e in
    let (bh', effs, outs, w', rest', hndl') =
      rm_times_lem n (with_snd sb bh) ms w rest (omega (arith, h)) in
    (
      bh',
      eff ∷ effs,
      rm_times_step n sb (with_snd sb bh) m eff (with_snd sb bh', effs) out outs,
      w',
      rest',
      hndl' ∙ hndl,
    )

-- What `len` sent bytes do to the connection.
pub record Gone (sb : Sockbase) (len : ℕ) (bh : MsgbufHead) : Type 0 where
  pub connector : IsConnector (with_snd sb bh)
  pub bytes : stream bh.head ≡ drop len (stream sb.snd.head)
  pub sending : AreSending bh.head
  pub hndl : bh.ev_hndl ≡ sb.snd.ev_hndl

sndhead_install_iovs_step :
    (sb : Sockbase) (len : ℕ) (bh : MsgbufHead) (n : ℕ) (r : Sockbase × List Effects)
    → msgbuf_head_install_iovs sb.snd len ≡ (bh, n)
    → rm_times n (with_snd sb bh) ≡ some r
    → sndhead_install_iovs sb len ≡ some r
unfolding sndhead_install_iovs
sndhead_install_iovs_step sb len bh n r e f = rw (e) f

pub sndhead_install_iovs_lem :
    (sb : Sockbase) (len : ℕ)
    → IsConnector sb
    → AreSending sb.snd.head
    → 0 < len
    → (bh : MsgbufHead) × (effs : List Effects) × (sndhead_install_iovs sb len
        ≡ some (with_snd sb bh, effs))
      × Gone sb len bh
sndhead_install_iovs_lem sb len v s pos =
    let r : MsgbufHead × ℕ = msgbuf_head_install_iovs sb.snd len in
    let (head, count, same) = msgbuf_head_install_iovs-IsHead sb.snd len v.snd_head in
    let (bytes, none_left, rest) = msgbuf_head_install_iovs_lem sb.snd len s pos in
    let (bh, effs, out, w, front, hndl) =
      rm_times_lem r.1 (with_snd sb r.0) r.0.head (with_snd-IsConnector sb r.0 v head) refl count in
    let kept : stream (drop r.1 r.0.head) ≡ stream r.0.head =
      ap (λ x. x ++ stream (drop r.1 r.0.head)) (sym none_left)
      ∙ sym (stream-append (take r.1 r.0.head) (drop r.1 r.0.head))
      ∙ ap stream (take-append-drop r.1 r.0.head) in
    (
      bh,
      effs,
      sndhead_install_iovs_step sb len r.0 r.1 (with_snd sb bh, effs) refl out,
      record {
        connector = w;
        bytes = ap stream front ∙ kept ∙ bytes;
        sending = subst AreSending (sym front) rest;
        hndl = hndl ∙ same;
      },
    )
