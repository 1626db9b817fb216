-- ===== src/MsgbufHead/Installed.antt =====
-- A queue after `msgbuf_head_install_iovs`: its size stands, and the messages counted can be popped.
use proxyio.Base.{
  ℕ, ◌+◌, ◌-◌, ◌≤◌, ◌≡◌, refl, sym, ap, ap₂, ◌∙◌, ltb, inl, inr, List, [], ◌∷◌, ◌++◌, length, arith,
  ◌==◌, if◌then◌else◌, Bool-cases, append_assoc,
}
use proxyio.Msgbuf.Frame.{msghdr_size}
use proxyio.Msgbuf.Tree.{unsent}
use proxyio.Msgbuf.{Msgbuf, msgbuf, frame, add_u32, sub_u32}
use proxyio.Msgbuf.Ctl.{usize}
use proxyio.Msgbuf.Send.{install, msgbuf_install_iovs}
use proxyio.MsgbufHead.{MsgbufHead, install_walk, msgbuf_head_install_iovs}
use proxyio.MsgbufHead.Order.{total, IsHead}
use proxyio.MsgbufHead.Sending.{stream}

install-frame : (m : Msgbuf) (len : ℕ) → frame (msgbuf_install_iovs m len).0 ≡ frame m
unfolding msgbuf_install_iovs install
install-frame (msgbuf s h u cs) len = elim (Bool-cases (len - diff == 0)) [
  | inl e ↦ rw e refl
  | inr e ↦ rw e refl
]
  where
    avail : ℕ
    avail = sub_u32 (add_u32 msghdr_size h.ulen) s

    diff : ℕ
    diff = if ltb avail len then avail else len

install_walk-total : (ms : List Msgbuf) (len : ℕ) → total (install_walk ms len).0 ≡ total ms
unfolding install_walk
install_walk-total [] len = refl
install_walk-total (m ∷ ms) len =
    let f : usize (msgbuf_install_iovs m len).0 ≡ usize m =
      ap (λ h. h.ulen) (install-frame m len) in
    let ih = install_walk-total ms (msgbuf_install_iovs m len).1 in
    elim (Bool-cases ((msgbuf_install_iovs m len).1 == 0)) [
      | inl e ↦ rw e (ap (λ n. n + total ms) f)
      | inr e ↦ rw e (ap₂ (λ n k. n + k) f ih)
    ]

install_walk-count :
    (ms : List Msgbuf) (len : ℕ) → (install_walk ms len).1 ≤ length (install_walk ms len).0
unfolding install_walk
install_walk-count [] len = omega arith
install_walk-count (m ∷ ms) len =
    ground (arith, install_walk-count ms (msgbuf_install_iovs m len).1)

pub stream-append : (ms ns : List Msgbuf) → stream (ms ++ ns) ≡ stream ms ++ stream ns
stream-append [] ns = refl
stream-append (m ∷ ms) ns =
    ap (λ x. unsent m ++ x) (stream-append ms ns)
    ∙ sym (append_assoc (unsent m) (stream ms) (stream ns))

-- The queue keeps its size and its window, and what is counted is in it.
pub msgbuf_head_install_iovs-IsHead :
    (bh : MsgbufHead) (len : ℕ)
    → IsHead bh
    → let (bh', n) = msgbuf_head_install_iovs bh len in
      IsHead bh' × (n ≤ length bh'.head) × (bh'.ev_hndl ≡ bh.ev_hndl)
unfolding msgbuf_head_install_iovs
msgbuf_head_install_iovs-IsHead bh len v =
    let same = install_walk-total bh.head len in
    (
      record {
        counted = v.counted ∙ sym same;
        small = omega (arith, v.small, same);
        window = v.window;
      },
      install_walk-count bh.head len,
      refl,
    )
