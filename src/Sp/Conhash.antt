-- ===== src/Sp/Conhash.antt =====
-- src/utils/consistent_hash.c and src/sp/reqrep/lbs_conhash.c: the balance of requests by places on a
-- ring, a hundred for each target. MD5 and the red-black tree are parameters.
pub mod Removal
use Prim.Native.Nat.Ordering.{lt, eq, gt}
use proxyio.Base.{
  ℕ, zero, suc, ◌+◌, Bool, true, false, ◌&&◌, List, [], ◌∷◌, ◌++◌, Option, none, some, min, take,
  length, ◌==◌, if◌then◌else◌,
}
use proxyio.Msgbuf.Frame.{u32_bytes}
use proxyio.StrRb.{StrRbe, Tree, StrRb, memcmp, str_rb_find_leaf, str_rb_insert, str_rb_delete}

-- `struct conhash_entry`; `rbe` is the `v_rbe` inside it, whose key is `md5`.
pub record Ventry : Type 0 where
  pub rbe : StrRbe
  pub owner : ℕ
  pub vsize : ℕ
  pub vno : ℕ
  pub key : List ℕ

pub record ConsistentHash : Type 0 where
  pub v_rb_tree : StrRb
  pub head : List Ventry

abbrev pub vnodes : ℕ
vnodes = 100

-- The bytes that are hashed: three `int`s and the key, as they lie in the entry.
unfoldable pub conhash_ventry_alloc :
    (List ℕ → List ℕ) → Option ℕ → List ℕ → ℕ → ℕ → ℕ → Option Ventry
conhash_ventry_alloc md5 none key vsize vno owner = none
conhash_ventry_alloc md5 (some at) key vsize vno owner = some (record {
  rbe = record {
    at = at;
    key = md5 (u32_bytes vsize ++ (u32_bytes vno ++ (u32_bytes (length key) ++ key)));
  };
  owner = owner;
  vsize = vsize;
  vno = vno;
  key = key;
})

unfoldable pub delete_all : (Tree → ℕ → Tree) → StrRb → List Ventry → StrRb
delete_all rb_erase m [] = m
delete_all rb_erase m (vce ∷ more) = delete_all rb_erase (str_rb_delete rb_erase m vce.rbe.at) more

module _ (md5 : List ℕ → List ℕ) (rb_insert_color : Tree → Tree) (rb_erase : Tree → ℕ → Tree)
    (memory : ℕ → Option ℕ) where
  -- `i` entries are in the tree and in `head`, so many more are to come; whether all were made.
  unfoldable pub add_loop : ℕ → ℕ → StrRb → List Ventry → List ℕ → ℕ → StrRb × List Ventry × Bool
  add_loop zero i m head key owner = (m, head, true)
  add_loop (suc n) i m head key owner =
      elim (conhash_ventry_alloc md5 (memory i) key vnodes i owner) [
        | none ↦ (m, head, false)
        | some vce ↦
            let r = str_rb_insert rb_insert_color m vce.rbe in
            elim (r.1) [
              | none ↦ (r.0, head, false)
              | some t ↦ add_loop n (suc i) (r.0) (head ++ vce ∷ []) key owner
            ]
      ]

  -- Whether 0 is returned; else the entries made so far are taken out again.
  unfoldable pub consistent_hash_add : ConsistentHash → List ℕ → ℕ → ConsistentHash × Bool
  consistent_hash_add ch key owner =
      let (m, head, all) = add_loop vnodes 0 ch.v_rb_tree [] key owner in
      if all
      then (record { v_rb_tree = m; head = head ++ ch.head }, true)
      else (record ch { v_rb_tree = delete_all rb_erase m head }, false)

-- The entry at an address.
unfoldable pub ventry_at : List Ventry → ℕ → Option Ventry
ventry_at [] at = none
ventry_at (vce ∷ more) at =
    let rest = ventry_at more at in if vce.rbe.at == at then some vce else rest

-- The owner of the entry found, or a null pointer, or one into memory that was freed.
pub data Owner : Type 0 where
  null : Owner
  dangling : Owner
  owned_by : ℕ → Owner

unfoldable pub owner_of : List Ventry → Option StrRbe → Owner
owner_of head none = null
owner_of head (some rbe) = elim (ventry_at head rbe.at) [
  | none ↦ dangling
  | some ce ↦ owned_by ce.owner
]

-- The hash of the key is not used: the tree is walked with the key itself.
unfoldable pub consistent_hash_get : ConsistentHash → List ℕ → Owner
consistent_hash_get ch key = owner_of ch.head (str_rb_find_leaf ch.v_rb_tree.root key)

unfoldable pub has_key : List ℕ → Ventry → Bool
has_key key vce =
    (length vce.key == length key)
    && elim (memcmp (length key) vce.key key) [ eq ↦ true | _ ↦ false ]

unfoldable pub rm_walk : (Tree → ℕ → Tree) → List ℕ → List Ventry → StrRb → List Ventry × StrRb
rm_walk rb_erase key [] m = ([], m)
rm_walk rb_erase key (vce ∷ more) m =
    let removed = rm_walk rb_erase key more (str_rb_delete rb_erase m vce.rbe.at) in
    let kept = rm_walk rb_erase key more m in
    if has_key key vce then removed else (vce ∷ kept.0, kept.1)

unfoldable pub consistent_hash_rm : (Tree → ℕ → Tree) → ConsistentHash → List ℕ → ConsistentHash
consistent_hash_rm rb_erase ch key =
    let r = rm_walk rb_erase key ch.head ch.v_rb_tree in record { v_rb_tree = r.1; head = r.0 }

-- At most sixteen bytes of the message are looked at.
unfoldable pub conhash_select : ConsistentHash → List ℕ → Owner
conhash_select ch ubuf = consistent_hash_get ch (take (min (length ubuf) 16) ubuf)

-- A target is added and removed by its uuid.
unfoldable pub conhash_rm : (Tree → ℕ → Tree) → ConsistentHash → List ℕ → ConsistentHash
conhash_rm rb_erase ch uuid = consistent_hash_rm rb_erase ch uuid
