-- ===== src/MsgbufHead/Order.antt =====
-- A queue of messages keeps its size and its order, and calls the callbacks that the window asks for.
use proxyio.Base.{
  ℕ, ◌+◌, ◌^◌, ◌<◌, ◌≡◌, refl, sym, ap, ◌∙◌, ◌⊎◌, inl, inr, Bool, true, false, ◌&&◌, List, [], ◌∷◌,
  ◌++◌, Option, none, some, ltb, leb, ◌==◌, if◌then◌else◌, arith, append-nil,
}
use proxyio.Msgbuf.{Msgbuf}
use proxyio.Msgbuf.Ctl.{usize}
use proxyio.MsgbufHead.{
  Event, add, rm, empty, nonempty, full, nonfull, MsgbufHead, add_int, sub_int, is_positive,
  is_empty, call, msgbuf_head_empty, out_first, popped, fail, out_from, msgbuf_head_out,
  msgbuf_head_in,
}

abbrev pub total : List Msgbuf → ℕ
total [] = 0
total (m ∷ ms) = usize m + total ms

-- The size is the sum of the bodies, and the sums stay inside `int`.
pub record IsHead (bh : MsgbufHead) : Type 0 where
  pub counted : bh.size ≡ total bh.head
  pub small : total bh.head < 2 ^ 31
  pub window : bh.wnd < 2 ^ 31

total-append : (ms : List Msgbuf) (m : Msgbuf) → total (ms ++ m ∷ []) ≡ total ms + usize m
total-append [] m = omega arith
total-append (n ∷ ms) m = omega (arith, total-append ms m)

pub head_empty_lem : (bh : MsgbufHead) → IsHead bh → msgbuf_head_empty bh ≡ some (is_empty bh.head)
unfolding msgbuf_head_empty
head_empty_lem bh v = go bh.head bh.size v.counted
  where
    go :
        (ms : List Msgbuf) (n : ℕ)
        → n ≡ total ms
        → (if is_empty ms then (if n == 0 then some true else none) else some false)
          ≡ some (is_empty ms)
    go [] n e = ground arith
    go (m ∷ ms) n e = refl

-- The callbacks of a push: `nonempty` if the queue was empty, `add`, and `full` whenever the window
-- is used up afterwards.
abbrev pub pushed_events : MsgbufHead → ℕ → List Event
pushed_events bh len =
    call (bh.ev_hndl.has_nonempty && is_empty bh.head) nonempty
    ++ (call bh.ev_hndl.has_add add
        ++ call (bh.ev_hndl.has_full && leb bh.wnd (total bh.head + len)) full)

-- The callbacks of a pop that leaves `ms`: `rm`, `nonfull` whenever there is room in the window, and
-- `empty` if nothing is left.
abbrev pub popped_events : MsgbufHead → List Msgbuf → List Event
popped_events bh ms =
    (call bh.ev_hndl.has_rm rm ++ call (bh.ev_hndl.has_nonfull && ltb (total ms) bh.wnd) nonfull)
    ++ call (bh.ev_hndl.has_empty && is_empty ms) empty

-- The difference of two small numbers, taken on 32 bits, is positive as the numbers say.
positive_sub : (w s : ℕ) → w < 2 ^ 31 → s < 2 ^ 31 → is_positive (sub_int w s) ≡ ltb s w
positive_sub w s hw hs = ground arith

not_positive_sub :
    (w s : ℕ)
    → w < 2 ^ 31
    → s < 2 ^ 31
    → (if is_positive (sub_int w s) then false else true) ≡ leb w s
not_positive_sub w s hw hs = ground arith

-- The optional callback before the others, and after them.
call_before :
    (b e : Bool) (bh : MsgbufHead) (ev : Event) (calls : List Event)
    → if◌then◌else◌ {A = Option (MsgbufHead × List Event)} b
        (some (bh, call e ev ++ calls))
        (some (bh, calls))
      ≡ some (bh, call (b && e) ev ++ calls)
call_before true e bh ev calls = refl
call_before false e bh ev calls = refl

call_after :
    (b e : Bool) (bh : MsgbufHead) (m : Msgbuf) (ev : Event) (calls : List Event)
    → if◌then◌else◌ {A = Option (MsgbufHead × Msgbuf × List Event)} b
        (some (bh, m, calls ++ call e ev))
        (some (bh, m, calls))
      ≡ some (bh, m, calls ++ call (b && e) ev)
call_after true e bh m ev calls = refl
call_after false e bh m ev calls = ap (λ x. some (bh, m, x)) (sym (append-nil calls))

-- A push always succeeds, puts the message last, keeps the size, and makes just these callbacks.
pub msgbuf_head_in_lem :
    (bh : MsgbufHead) (m : Msgbuf)
    → IsHead bh
    → total bh.head + usize m < 2 ^ 31
    → (bh' : MsgbufHead) × (msgbuf_head_in bh m ≡ some (bh', pushed_events bh (usize m)))
      × IsHead bh'
      × (bh'.head ≡ bh.head ++ m ∷ [])
      × (bh'.wnd ≡ bh.wnd)
      × (bh'.ev_hndl ≡ bh.ev_hndl)
unfolding msgbuf_head_in
msgbuf_head_in_lem bh m v room = (
  bh',
  rw (head_empty_lem bh v, fulls)
      (call_before bh.ev_hndl.has_nonempty (is_empty bh.head) bh' nonempty _),
  record {
    counted = omega (arith, size', total-append bh.head m);
    small = omega (arith, total-append bh.head m);
    window = v.window;
  },
  refl,
  refl,
  refl,
)
  where
    bh' : MsgbufHead
    bh' = record bh { size = add_int bh.size (usize m); head = bh.head ++ m ∷ [] }

    size' : add_int bh.size (usize m) ≡ total bh.head + usize m
    size' = omega (arith, v.counted)

    fulls :
        (if is_positive (sub_int bh.wnd (add_int bh.size (usize m))) then false else true)
        ≡ leb bh.wnd (total bh.head + usize m)
    fulls =
        not_positive_sub bh.wnd (add_int bh.size (usize m)) v.window (omega (arith, size'))
        ∙ ap (leb bh.wnd) size'

out_first_lem :
    (bh : MsgbufHead) (m : Msgbuf) (ms : List Msgbuf)
    → IsHead bh
    → bh.head ≡ m ∷ ms
    → let bh' = record bh { size = sub_int bh.size (usize m); head = ms } in
      (out_first bh m ms ≡ some (bh', m, popped_events bh ms)) × IsHead bh'
unfolding out_first
out_first_lem bh m ms v e = (
  rw (head_empty_lem bh' v', nonfulls)
      (call_after bh.ev_hndl.has_empty (is_empty ms) bh' m empty _),
  v',
)
  where
    bh' : MsgbufHead
    bh' = record bh { size = sub_int bh.size (usize m); head = ms }

    sum : total bh.head ≡ usize m + total ms
    sum = ap total e

    size' : sub_int bh.size (usize m) ≡ total ms
    size' = omega (arith, v.counted, v.small, sum)

    v' : IsHead bh'
    v' = record { counted = size'; small = omega (arith, v.small, sum); window = v.window }

    nonfulls : is_positive (sub_int bh.wnd (sub_int bh.size (usize m))) ≡ ltb (total ms) bh.wnd
    nonfulls =
        positive_sub bh.wnd (sub_int bh.size (usize m)) v.window
          (omega (arith, size', v.small, sum))
        ∙ ap (λ k. ltb k bh.wnd) size'

out_empty : (bh : MsgbufHead) → bh.size ≡ 0 → out_from bh [] ≡ fail
unfolding out_from
out_empty bh e = ground arith

out_some :
    (bh : MsgbufHead) (m : Msgbuf) (ms : List Msgbuf) (r : MsgbufHead × Msgbuf × List Event)
    → out_first bh m ms ≡ some r
    → out_from bh (m ∷ ms) ≡ popped r.0 r.1 r.2
unfolding out_from
out_some bh m ms r f = rw (f, out_from) refl

-- A pop fails exactly on the empty queue; else it takes the first message, keeps the size, and makes
-- just these callbacks. It never meets the BUG_ON.
pub msgbuf_head_out_lem :
    (bh : MsgbufHead)
    → IsHead bh
    → ((bh.head ≡ []) × (msgbuf_head_out bh ≡ fail))
      ⊎ ((bh' : MsgbufHead) × (m : Msgbuf) × (msgbuf_head_out bh
            ≡ popped bh' m (popped_events bh bh'.head))
          × (bh.head ≡ m ∷ bh'.head)
          × IsHead bh'
          × (bh'.wnd ≡ bh.wnd)
          × (bh'.ev_hndl ≡ bh.ev_hndl))
unfolding msgbuf_head_out
msgbuf_head_out_lem bh v = go bh.head refl
  where
    Result : List Msgbuf → Type 0
    Result ms =
        ((bh.head ≡ []) × (msgbuf_head_out bh ≡ fail))
        ⊎ ((bh' : MsgbufHead) × (m : Msgbuf) × (msgbuf_head_out bh
              ≡ popped bh' m (popped_events bh bh'.head))
            × (bh.head ≡ m ∷ bh'.head)
            × IsHead bh'
            × (bh'.wnd ≡ bh.wnd)
            × (bh'.ev_hndl ≡ bh.ev_hndl))

    go : (ms : List Msgbuf) → bh.head ≡ ms → Result ms
    go [] e = inl (e, ap (out_from bh) e ∙ out_empty bh (v.counted ∙ ap total e))
    go (m ∷ ms) e =
        let l = out_first_lem bh m ms v e in
        inr (_, m, ap (out_from bh) e ∙ out_some bh m ms _ l.0, e, l.1, refl, refl)
