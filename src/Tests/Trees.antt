-- ===== src/Tests/Trees.antt =====
-- The search tree, and what is kept in it, at concrete inputs.
use proxyio.Base.{ℕ, ◌+◌, ◌-◌, ◌≡◌, ◌≢◌, ◌⊎◌, refl, ap, List, [], ◌∷◌, none, some, arith}
use proxyio.Socket.{Sockbase, xlistener, sockbase_init}
use proxyio.StrRb.{StrRbe, Tree, leaf, node, StrRb, str_rb_find, str_rb_insert, key_cmp}
use proxyio.StrRb.Lookup.{inorder, AreSorted}
use proxyio.StrRb.Inserting.{IsColor, or_else, str_rb_find-str_rb_insert}
use proxyio.StrRb.Erasing.{without, IsErase}
use proxyio.Inproc.Listening.{
  Listener, seize, getlistener, eaddrinuse, listening, inproc_listener_bind, inproc_listener_close,
  getlistener-inproc_listener_bind, inproc_listener_close-inproc_listener_bind,
}
use proxyio.Sp.Conhash.{Ventry, ConsistentHash, conhash_rm, conhash_select}
use proxyio.Sp.Conhash.Removal.{IsConhash, Selects, conhash_select-conhash_rm}
use proxyio.Sp.Ulhash.{UlhashLbs, ulhash_rm, ulhash_select}
use proxyio.Sp.Ulhash.Stale.{IsArray, ulhash_rm_stale}

-- A tree that is not recoloured, and from which an entry is taken by making a list of the others.
abbrev keep : Tree → Tree
keep t = t

keep-IsColor : IsColor keep
keep-IsColor = record { colored = λ t. refl }

abbrev spine : List StrRbe → Tree
spine [] = leaf
spine (e ∷ es) = node leaf e (spine es)

abbrev erase : Tree → ℕ → Tree
erase t at = spine (without at (inorder t))

inorder-spine : (es : List StrRbe) → inorder (spine es) ≡ es
inorder-spine [] = refl
inorder-spine (e ∷ es) = ap (λ l. e ∷ l) (inorder-spine es)

erase-IsErase : IsErase erase
erase-IsErase = record { erased = λ t at. inorder-spine (without at (inorder t)) }

abbrev other : StrRbe
other = record { at = 1; key = 98 ∷ [] }

abbrev one_listener : StrRb
one_listener = record { root = node leaf other leaf; size = 1 }

-- The keys "a" and "b".
abbrev own : StrRbe
own = record { at = 2; key = 97 ∷ [] }

abbrev first : List ℕ → ℕ
first [] = 0
first (x ∷ xs) = x

abbrev key_b : List ℕ
key_b = 98 ∷ []

b_not_a : key_b ≢ own.key
b_not_a e = absurd (omega (arith, ap first e))

str_rb_find-str_rb_insert_example :
    let m' = (str_rb_insert keep one_listener own).0 in
    AreSorted (inorder m'.root)
    × (str_rb_find m'.root (98 ∷ []) ≡ str_rb_find one_listener.root (98 ∷ []))
    × (str_rb_find m'.root own.key ≡ some (or_else (str_rb_find one_listener.root own.key) own))
str_rb_find-str_rb_insert_example =
    str_rb_find-str_rb_insert keep keep-IsColor one_listener own (98 ∷ []) (tt, tt) b_not_a

abbrev socks : ℕ → Listener
socks at = record { base = sockbase_init xlistener at; ref = 1 }

getlistener-inproc_listener_bind_example :
    ((other : StrRbe) × (str_rb_find one_listener.root (97 ∷ []) ≡ some other)
      × (inproc_listener_bind keep one_listener 2 (97 ∷ []) ≡ eaddrinuse))
    ⊎ ((m' : StrRb) × (inproc_listener_bind keep one_listener 2 (97 ∷ []) ≡ listening m')
        × AreSorted (inorder m'.root)
        × (getlistener m' socks (97 ∷ []) ≡ seize socks (record { at = 2; key = 97 ∷ [] }))
        × (getlistener m' socks (98 ∷ []) ≡ getlistener one_listener socks (98 ∷ [])))
getlistener-inproc_listener_bind_example =
    getlistener-inproc_listener_bind keep keep-IsColor one_listener socks 2 (97 ∷ []) (98 ∷ [])
      (tt, tt) b_not_a

-- A listener with two connections that nobody accepted.
abbrev waited_for : Sockbase
waited_for = record (sockbase_init xlistener 2) { acceptq_head = 5 ∷ 6 ∷ [] }

a_is_free : str_rb_find one_listener.root (97 ∷ []) ≡ none
unfolding str_rb_find key_cmp
a_is_free = refl

inproc_listener_close-inproc_listener_bind_example :
    (m' m'' : StrRb) × (inproc_listener_bind keep one_listener 2 (97 ∷ []) ≡ listening m')
    × (inproc_listener_close erase 3 m' 2 waited_for
        ≡ some (m'', record waited_for { acceptq_head = [] }, waited_for.acceptq_head))
    × (getlistener m'' socks (98 ∷ []) ≡ getlistener one_listener socks (98 ∷ []))
    × (m''.size ≡ 1)
unfolding sockbase_init
inproc_listener_close-inproc_listener_bind_example =
    inproc_listener_close-inproc_listener_bind keep erase keep-IsColor erase-IsErase one_listener
      socks 2 (97 ∷ []) (98 ∷ []) waited_for (tt, tt) (refl, tt) (omega arith) a_is_free

-- Two targets, each with one place on the ring.
abbrev place : ℕ → ℕ → Ventry
place at uuid = record {
  rbe = record { at = at; key = uuid ∷ [] };
  owner = at + 10;
  vsize = 1;
  vno = 0;
  key = uuid ∷ [];
}

abbrev ring : ConsistentHash
ring = record {
  v_rb_tree = record {
    root = node leaf (Ventry.rbe (place 1 97)) (node leaf (Ventry.rbe (place 2 98)) leaf);
    size = 2;
  };
  head = place 1 97 ∷ place 2 98 ∷ [];
}

ring-IsConhash : IsConhash ring
ring-IsConhash = record { in_head = (refl, (refl, tt)); apart = (refl, (refl, tt)) }

conhash_select-conhash_rm_example :
    let ch' = conhash_rm erase ring (97 ∷ []) in
    IsConhash ch' × Selects erase erase-IsErase (97 ∷ []) ch'.head (conhash_select ch' (120 ∷ []))
conhash_select-conhash_rm_example =
    conhash_select-conhash_rm erase erase-IsErase (97 ∷ []) ring (120 ∷ []) ring-IsConhash

-- Three targets, at their places.
abbrev three : UlhashLbs
three = record { idx = λ tg. tg - 10; tgs = record { size = 3; cap = 3; at = 10 ∷ 11 ∷ 12 ∷ [] } }

three-IsArray : IsArray three.tgs
three-IsArray = record { memory = refl; within = omega arith; some_memory = omega arith }

ulhash_rm_stale_example :
    (ul' ul'' : UlhashLbs) × (ulhash_rm three 10 ≡ some ul')
    × (ulhash_rm ul' 12 ≡ some ul'')
    × (ulhash_select ul'' 0 ≡ some 12)
ulhash_rm_stale_example = ulhash_rm_stale three 10 12 three-IsArray (omega arith) refl refl
