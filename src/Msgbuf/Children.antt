-- ===== src/Msgbuf/Children.antt =====
-- Adding, removing, moving and copying children, on well-formed messages.
use proxyio.Base.{
  ℕ, zero, suc, ◌+◌, ◌-◌, ◌%◌, ◌^◌, ◌≤◌, ◌<◌, ◌≡◌, ◌≢◌, ◌⊎◌, inl, inr, refl, sym, ap, ◌∙◌, Bool,
  some-injective, subst, none, some, arith, ◌==◌, ltb, Bool-cases, ◌||◌,
}
use proxyio.Msgbuf.Frame.{subnummark, cmsglenmark}
use proxyio.Msgbuf.{Msgbuf, msgbuf, Msgs, nil, cons, cmsg_head, msgbuf_lens, add_u32}
use proxyio.Msgbuf.Tree.{count, size, sizes, IsMessage, AreMessages, msgbuf_lens-size, size-bound}
use proxyio.Msgbuf.Ctl.{
  append, child_at, remove_at, sub_msgbuf_add, sub_msgbuf_rm, sub_msgbuf_switch,
}

pub sizes-append : (cs ds : Msgs) → sizes (append cs ds) ≡ sizes cs + sizes ds
sizes-append nil ds = omega arith
sizes-append (cons c cs) ds = omega (arith, sizes-append cs ds)

pub count-append : (cs ds : Msgs) → count (append cs ds) ≡ count cs + count ds
count-append nil ds = omega arith
count-append (cons c cs) ds = omega (arith, count-append cs ds)

AreMessages-append : (cs ds : Msgs) → AreMessages cs → AreMessages ds → AreMessages (append cs ds)
AreMessages-append nil ds v w = w
AreMessages-append (cons c cs) ds v w = (v.0, AreMessages-append cs ds v.1 w)

-- There is room for one more child.
abbrev pub Fits : Msgbuf → Msgbuf → Type 0
Fits m new = (count (cmsg_head m) < 15) × (sizes (cmsg_head m) + size new ≤ 4095)

-- A child is added exactly when it fits; the message that results is well formed, and its
-- children are the old ones and then the new one.
pub sub_msgbuf_add_lem :
    (m new : Msgbuf)
    → IsMessage m
    → IsMessage new
    → ((sub_msgbuf_add m new ≡ none) × ¬ Fits m new)
      ⊎ ((m' : Msgbuf) × (sub_msgbuf_add m new ≡ some m')
          × Fits m new
          × IsMessage m'
          × (cmsg_head m' ≡ append (cmsg_head m) (cons new nil))
          × (size m' ≡ size m + size new))
unfolding sub_msgbuf_add
sub_msgbuf_add_lem (msgbuf s h u cs) new v w = elim (Bool-cases refused) [
  | inl e ↦ inl (rw (e, sub_msgbuf_add), λ f. ground (arith, e, l, small, f.0, f.1))
  | inr e ↦
      let fits : Fits (msgbuf s h u cs) new = ground (arith, e, l, small) in
      let num : (h.cmsg_num + 1) % 2 ^ 4 ≡ count (append cs (cons new nil)) =
        omega (arith, fits.0, count-append cs (cons new nil)) in
      let len : (h.cmsg_length + msgbuf_lens new) % 2 ^ 12 ≡ sizes (append cs (cons new nil)) =
        omega (arith, l, fits.1, sizes-append cs (cons new nil)) in
      inr (
        msgbuf s
            (record h {
              cmsg_num = (h.cmsg_num + 1) % 2 ^ 4;
              cmsg_length = (h.cmsg_length + msgbuf_lens new) % 2 ^ 12;
            })
            u (append cs (cons new nil)),
        rw (e, sub_msgbuf_add),
        fits,
        (
          record {
            checksum_fits = v.0.checksum_fits;
            cmsg_num_fits = omega arith;
            cmsg_length_fits = omega arith;
            ulen_fits = v.0.ulen_fits;
          },
          v.1,
          v.2,
          num,
          len,
          v.5,
          AreMessages-append cs (cons new nil) v.6 (w, tt),
        ),
        refl,
        omega (arith, sizes-append cs (cons new nil)),
      )
]
  where
    refused : Bool
    refused = h.cmsg_num == subnummark || ltb cmsglenmark (add_u32 h.cmsg_length (msgbuf_lens new))

    l : msgbuf_lens new ≡ size new
    l = msgbuf_lens-size new w

    small : size new < 2 ^ 31 + 2 ^ 13
    small = size-bound new w

remove_at_lem :
    (cs : Msgs) (i : ℕ) (c : Msgbuf)
    → child_at cs i ≡ some c
    → AreMessages cs
    → IsMessage c
      × AreMessages (remove_at cs i)
      × (count cs ≡ count (remove_at cs i) + 1)
      × (sizes cs ≡ sizes (remove_at cs i) + size c)
remove_at_lem nil i c e v = absurd (cc)
remove_at_lem (cons d cs) zero c e v =
    let q = some-injective _ _ e in
    (subst IsMessage q v.0, v.1, omega arith, omega (arith, ap size q))
remove_at_lem (cons d cs) (suc i) c e v =
    let ih = remove_at_lem cs i c e v.1 in
    (ih.0, (v.0, ih.1), omega (arith, ih.2), omega (arith, ih.3))

-- Removing a child gives that child, and leaves a well-formed message of the other children, in
-- their order, smaller by the child's size. The counts never wrap.
pub sub_msgbuf_rm_lem :
    (m : Msgbuf) (i : ℕ) (c : Msgbuf)
    → IsMessage m
    → child_at (cmsg_head m) i ≡ some c
    → (m' : Msgbuf) × (sub_msgbuf_rm m i ≡ some (m', c))
      × IsMessage m'
      × (cmsg_head m' ≡ remove_at (cmsg_head m) i)
      × (size m ≡ size m' + size c)
unfolding sub_msgbuf_rm
sub_msgbuf_rm_lem (msgbuf s h u cs) i c v e = (
  msgbuf s
      (record h {
        cmsg_num = (h.cmsg_num + 2 ^ 4 - 1) % 2 ^ 4;
        cmsg_length = (h.cmsg_length + 2 ^ 32 - msgbuf_lens c) % 2 ^ 12;
      })
      u (remove_at cs i),
  rw (e, sub_msgbuf_rm),
  (
    record {
      checksum_fits = v.0.checksum_fits;
      cmsg_num_fits = omega arith;
      cmsg_length_fits = omega arith;
      ulen_fits = v.0.ulen_fits;
    },
    v.1,
    v.2,
    omega (arith, r.2, v.0.cmsg_num_fits),
    omega (arith, r.3, l, v.0.cmsg_length_fits),
    v.5,
    r.1,
  ),
  refl,
  omega (arith, r.3),
)
  where
    r :
        IsMessage c
        × AreMessages (remove_at cs i)
        × (count cs ≡ count (remove_at cs i) + 1)
        × (sizes cs ≡ sizes (remove_at cs i) + size c)
    r = remove_at_lem cs i c e v.6

    l : msgbuf_lens c ≡ size c
    l = msgbuf_lens-size c r.0

pub append-nil_right : (cs : Msgs) → append cs nil ≡ cs
append-nil_right nil = refl
append-nil_right (cons c cs) = ap (cons c) (append-nil_right cs)

pub append_assoc_msgs : (cs ds es : Msgs) → append (append cs ds) es ≡ append cs (append ds es)
append_assoc_msgs nil ds es = refl
append_assoc_msgs (cons c cs) ds es = ap (cons c) (append_assoc_msgs cs ds es)

-- A switch into a message without children moves all children and leaves both well formed.
pub sub_msgbuf_switch_lem :
    (src dst : Msgbuf)
    → IsMessage src
    → IsMessage dst
    → cmsg_head dst ≡ nil
    → let (src', dst') = sub_msgbuf_switch src dst in
      IsMessage src' × IsMessage dst' × (cmsg_head src' ≡ nil) × (cmsg_head dst' ≡ cmsg_head src)
unfolding sub_msgbuf_switch
sub_msgbuf_switch_lem (msgbuf s h u cs) (msgbuf t k w ds) v x e = (
  (
    record {
      checksum_fits = v.0.checksum_fits;
      cmsg_num_fits = omega arith;
      cmsg_length_fits = omega arith;
      ulen_fits = v.0.ulen_fits;
    },
    v.1,
    v.2,
    refl,
    refl,
    v.5,
    tt,
  ),
  (
    record {
      checksum_fits = x.0.checksum_fits;
      cmsg_num_fits = v.0.cmsg_num_fits;
      cmsg_length_fits = v.0.cmsg_length_fits;
      ulen_fits = x.0.ulen_fits;
    },
    x.1,
    x.2,
    v.3 ∙ ap count (sym whole),
    v.4 ∙ ap sizes (sym whole),
    x.5,
    subst AreMessages (sym whole) v.6,
  ),
  refl,
  whole,
)
  where
    whole : append cs ds ≡ cs
    whole = ap (append cs) e ∙ append-nil_right cs

-- A switch into a message that has children already breaks it: the header then describes the
-- children that came, and not the old ones.
pub sub_msgbuf_switch-not_IsMessage :
    (src dst : Msgbuf)
    → IsMessage src
    → cmsg_head dst ≢ nil
    → ¬ IsMessage (sub_msgbuf_switch src dst).1
unfolding sub_msgbuf_switch
sub_msgbuf_switch-not_IsMessage (msgbuf s h u cs) (msgbuf t k w nil) v ne x = ne refl
sub_msgbuf_switch-not_IsMessage (msgbuf s h u cs) (msgbuf t k w (cons d ds)) v ne x =
    omega (arith, v.3, x.3, count-append cs (cons d ds))
