-- ===== src/Socket/Readiness.antt =====
-- What a poller is told of a connection, against what a send and a receive on it then do.
use proxyio.Base.{
  ℕ, ◌≡◌, refl, sym, ap, ◌∙◌, inl, inr, Bool, true, false, not, ◌&&◌, List, ◌∷◌, Option, some, map,
  if◌then◌else◌,
}
use proxyio.Msgbuf.{Msgbuf}
use proxyio.MsgbufHead.{
  Event, MsgbufHead, is_empty, msgbuf_head_empty, msgbuf_head_out, msgbuf_can_in,
}
use proxyio.MsgbufHead.Order.{IsHead, popped_events, head_empty_lem, msgbuf_head_out_lem}
use proxyio.Socket.{
  xconnector, Events, all_events, meet, Sockbase, check_pollin, check_pollevents, emit_pollevents,
  Effects, did, finish, snd_sleeps, rcv_sleeps, rcv_popped, rcv_msgbuf_head_rm, received,
  xgeneric_recv,
}

-- The queues of a connection are well formed.
pub record IsConnector (sb : Sockbase) : Type 0 where
  pub connector : sb.type ≡ xconnector
  pub rcv_head : IsHead sb.rcv
  pub snd_head : IsHead sb.snd

abbrev pub happens : Sockbase → Events
happens sb = record {
  pollin = not (is_empty sb.rcv.head);
  pollout = msgbuf_can_in sb.snd;
  pollerr = sb.epipe;
}

check_pollin_lem :
    (sb : Sockbase) → IsConnector sb → check_pollin sb sb.type ≡ some (not (is_empty sb.rcv.head))
unfolding check_pollin
check_pollin_lem sb v =
    ap (λ t. check_pollin sb t) v.connector
    ∙ rw (head_empty_lem sb.rcv v.rcv_head, check_pollin) refl

pub check_pollevents_lem :
    (sb : Sockbase) → IsConnector sb → check_pollevents sb all_events ≡ some (happens sb)
unfolding check_pollevents
check_pollevents_lem sb v = rw (check_pollin_lem sb v, check_pollevents) refl

-- What the pollers of a connection are told.
abbrev pub told : Sockbase → List (ℕ × Events)
told sb = map (λ pb. (pb.id, meet (happens sb) pb.events)) sb.poll_entries

pub emit_lem : (sb : Sockbase) → IsConnector sb → emit_pollevents sb ≡ some (told sb)
unfolding emit_pollevents
emit_lem sb v = rw (check_pollevents_lem sb v, emit_pollevents) refl

pub finish_lem {ℓ} :
    {A : Type ℓ} (sb : Sockbase) (a : A) (calls : List Event) (woken : Bool)
    → IsConnector sb
    → finish sb a calls woken ≡ did sb a (record { calls = calls; emits = told sb; woken = woken })
unfolding finish
finish_lem sb a calls woken v = rw (emit_lem sb v, finish) refl

-- A reader and a writer fall asleep exactly if nothing that they wait for is reported, nor an error,
-- and the socket blocks.
pub check_pollevents-sleeps :
    (sb : Sockbase)
    → IsConnector sb
    → (happened : Events) × (check_pollevents sb all_events ≡ some happened)
      × (rcv_sleeps sb ≡ some (not happened.pollin && (not happened.pollerr && not sb.non_block)))
      × (snd_sleeps sb ≡ (not happened.pollout && (not happened.pollerr && not sb.non_block)))
unfolding rcv_sleeps snd_sleeps
check_pollevents-sleeps sb v = (
  happens sb,
  check_pollevents_lem sb v,
  reader (is_empty sb.rcv.head) (head_empty_lem sb.rcv v.rcv_head),
  writer sb.epipe (msgbuf_can_in sb.snd) (not sb.non_block),
)
  where
    tests : Bool → Bool → Bool → Option Bool
    tests epipe e blocks = some (not (not e) && (not epipe && blocks))

    reader :
        (e : Bool)
        → msgbuf_head_empty sb.rcv ≡ some e
        → rcv_sleeps sb ≡ tests sb.epipe e (not sb.non_block)
    reader e p = rw (p, rcv_sleeps) (both sb.epipe e (not sb.non_block))
      where
        both :
            (epipe e blocks : Bool)
            → (if epipe then some false else some (e && blocks)) ≡ tests epipe e blocks
        both true true blocks = refl
        both true false blocks = refl
        both false true blocks = refl
        both false false blocks = refl

    writer :
        (epipe can blocks : Bool)
        → (not epipe && (not can && blocks)) ≡ (not can && (not epipe && blocks))
    writer true true blocks = refl
    writer true false blocks = refl
    writer false true blocks = refl
    writer false false blocks = refl

awake :
    (sb : Sockbase) (m : Msgbuf) (ms : List Msgbuf)
    → IsHead sb.rcv
    → sb.rcv.head ≡ m ∷ ms
    → rcv_sleeps sb ≡ some false
unfolding rcv_sleeps
awake sb m ms v e =
    rw (head_empty_lem sb.rcv v ∙ ap (λ l. some (is_empty l)) e, rcv_sleeps) (either sb.epipe)
  where
    either : (epipe : Bool) → (if epipe then some false else some false) ≡ some false
    either true = refl
    either false = refl

rcv_rm_step :
    (sb : Sockbase) (m : Msgbuf) (ms : List Msgbuf)
    → IsHead sb.rcv
    → sb.rcv.head ≡ m ∷ ms
    → rcv_msgbuf_head_rm sb ≡ rcv_popped sb (msgbuf_head_out sb.rcv)
unfolding rcv_msgbuf_head_rm
rcv_rm_step sb m ms v e = rw (awake sb m ms v e, rcv_msgbuf_head_rm) refl

rcv_rm_lem :
    (sb : Sockbase) (m : Msgbuf) (ms : List Msgbuf)
    → IsConnector sb
    → sb.rcv.head ≡ m ∷ ms
    → (bh : MsgbufHead) × (eff : Effects) × (rcv_msgbuf_head_rm sb
        ≡ did (record sb { rcv = bh }) (some m) eff)
      × IsConnector (record sb { rcv = bh })
      × (bh.head ≡ ms)
unfolding rcv_popped
rcv_rm_lem sb m ms v e = elim (msgbuf_head_out_lem sb.rcv v.rcv_head) [
  | inl x ↦ absurd (cc)
  | inr (bh, n, out, first, valid, wnd, hndl) ↦
      let same : n ∷ bh.head ≡ m ∷ ms = sym first ∙ e in
      let w : IsConnector (record sb { rcv = bh }) = record {
        connector = v.connector;
        rcv_head = valid;
        snd_head = v.snd_head;
      } in
      let n_m : n ≡ m = cc in
      let eff : Effects = record {
        calls = popped_events sb.rcv bh.head;
        emits = told (record sb { rcv = bh });
        woken = false;
      } in
      (
        bh,
        eff,
        rcv_rm_step sb m ms v.rcv_head e
            ∙ ap (rcv_popped sb) out
            ∙ finish_lem (record sb { rcv = bh }) (some n) eff.calls false w
            ∙ ap (λ x. did (record sb { rcv = bh }) (some x) eff) n_m,
        w,
        cc,
      )
]

-- A message that has arrived is received, first come first served, also if the connection is lost.
pub xgeneric_recv_lem :
    (sb : Sockbase) (m : Msgbuf) (ms : List Msgbuf)
    → IsConnector sb
    → sb.rcv.head ≡ m ∷ ms
    → (bh : MsgbufHead) × (eff : Effects) × (xgeneric_recv sb
        ≡ did (record sb { rcv = bh }) (received m) eff)
      × IsConnector (record sb { rcv = bh })
      × (bh.head ≡ ms)
unfolding xgeneric_recv
xgeneric_recv_lem sb m ms v e =
    let r = rcv_rm_lem sb m ms v e in (r.0, r.1, rw (r.2, xgeneric_recv) refl, r.3, r.4)
