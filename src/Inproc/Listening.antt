-- ===== src/Inproc/Listening.antt =====
-- src/socket/inproc/inproc_listener.c: the listeners inside the process, by their addresses. A listener
-- lies in the tree `xgb.inproc_listeners` by the entry inside it, whose address names the socket.
use proxyio.Base.{
  ℕ, zero, suc, ◌^◌, ◌<◌, ◌≡◌, ◌≢◌, refl, ap, ◌∙◌, ◌⊎◌, inl, inr, List, [], ◌∷◌, Option, none, some,
  if◌then◌else◌, length, Option-cases,
}
use proxyio.MsgbufHead.{add_int}
use proxyio.Socket.{Sockbase, acceptq_first, acceptq_rm_nohup}
use proxyio.StrRb.{StrRbe, Tree, StrRb, str_rb_find, str_rb_insert, str_rb_delete}
use proxyio.StrRb.Lookup.{inorder, AreSorted}
use proxyio.StrRb.Inserting.{IsColor, or_else, str_rb_find-str_rb_insert}
use proxyio.StrRb.Erasing.{IsErase, Free, str_rb_delete-str_rb_insert}

pub record Listener : Type 0 where
  pub base : Sockbase
  pub ref : ℕ

-- The socket of an entry, with one more reference, unless it is closed already.
unfoldable pub seize : (ℕ → Listener) → StrRbe → Option (ℕ × Listener)
seize socks entry =
    let l = socks entry.at in
    if l.base.epipe then none else some (entry.at, record l { ref = add_int l.ref 1 })

unfoldable pub getlistener : StrRb → (ℕ → Listener) → List ℕ → Option (ℕ × Listener)
getlistener m socks addr = elim (str_rb_find m.root addr) [
  | none ↦ none
  | some entry ↦ seize socks entry
]

-- `none` is -1.
unfoldable pub addlistener : (Tree → Tree) → StrRb → StrRbe → Option StrRb
addlistener rb_insert_color m entry = elim (str_rb_find m.root entry.key) [
  | none ↦ some (str_rb_insert rb_insert_color m entry).0
  | some other ↦ none
]

unfoldable pub rmlistener : (Tree → ℕ → Tree) → StrRb → ℕ → StrRb
rmlistener rb_erase m at = str_rb_delete rb_erase m at

pub data Bind : Type 0 where
  eaddrinuse : Bind
  listening : StrRb → Bind

unfoldable pub inproc_listener_bind : (Tree → Tree) → StrRb → ℕ → List ℕ → Bind
inproc_listener_bind rb_insert_color m at sock =
    elim (addlistener rb_insert_color m (record { at = at; key = sock })) [
      | none ↦ eaddrinuse
      | some m' ↦ listening m'
    ]

-- The connections that nobody accepted, in the order in which they are closed. `none` when the fuel is
-- used up.
unfoldable pub close_acceptq : ℕ → Sockbase → Option (Sockbase × List ℕ)
close_acceptq zero sb = none
close_acceptq (suc fuel) sb =
    let (sb', nsb) = acceptq_rm_nohup sb in
    let rest = close_acceptq fuel sb' in
    elim nsb [
      | none ↦ some (sb', [])
      | some fd ↦ elim rest [ none ↦ none | some r ↦ some (r.0, fd ∷ r.1) ]
    ]

unfoldable pub inproc_listener_close :
    (Tree → ℕ → Tree) → ℕ → StrRb → ℕ → Sockbase → Option (StrRb × Sockbase × List ℕ)
inproc_listener_close rb_erase fuel m at sb =
    let m' = rmlistener rb_erase m at in
    elim (close_acceptq fuel sb) [ none ↦ none | some r ↦ some (m', r.0, r.1) ]

-- The loop ends, and has closed all of the queue, first come first.
close_acceptq_lem :
    (fds : List ℕ) (sb : Sockbase)
    → close_acceptq (suc (length fds)) (record sb { acceptq_head = fds })
      ≡ some (record sb { acceptq_head = [] }, fds)
unfolding close_acceptq acceptq_rm_nohup acceptq_first
close_acceptq_lem [] sb = refl
close_acceptq_lem (fd ∷ fds) sb = rw (close_acceptq_lem fds sb) refl

getlistener_found :
    (m m' : StrRb) (socks : ℕ → Listener) (key : List ℕ)
    → str_rb_find m'.root key ≡ str_rb_find m.root key
    → getlistener m' socks key ≡ getlistener m socks key
unfolding getlistener
getlistener_found m m' socks key e = rw (e, getlistener) refl

getlistener_hit :
    (m : StrRb) (socks : ℕ → Listener) (key : List ℕ) (entry : StrRbe)
    → str_rb_find m.root key ≡ some entry
    → getlistener m socks key ≡ seize socks entry
unfolding getlistener
getlistener_hit m socks key entry e = rw (e, getlistener) refl

abbrev entry_of : ℕ → List ℕ → StrRbe
entry_of at sock = record { at = at; key = sock }

module _ (rb_insert_color : Tree → Tree) where
  bind_used :
      (m : StrRb) (at : ℕ) (sock : List ℕ) (other : StrRbe)
      → str_rb_find m.root sock ≡ some other
      → inproc_listener_bind rb_insert_color m at sock ≡ eaddrinuse
  unfolding inproc_listener_bind addlistener
  bind_used m at sock other e = rw (e, addlistener, inproc_listener_bind) refl

  bind_free :
      (m : StrRb) (at : ℕ) (sock : List ℕ)
      → str_rb_find m.root sock ≡ none
      → inproc_listener_bind rb_insert_color m at sock
        ≡ listening (str_rb_insert rb_insert_color m (entry_of at sock)).0
  unfolding inproc_listener_bind addlistener
  bind_free m at sock e = rw (e, addlistener, inproc_listener_bind) refl

  -- Either another listener has the address and the bind fails with EADDRINUSE, or connections by the
  -- address come to the new listener, and those by any other address where they came to before.
  pub getlistener-inproc_listener_bind :
      (c : IsColor rb_insert_color) (m : StrRb) (socks : ℕ → Listener) (at : ℕ) (sock key : List ℕ)
      → AreSorted (inorder m.root)
      → key ≢ sock
      → ((other : StrRbe) × (str_rb_find m.root sock ≡ some other)
          × (inproc_listener_bind rb_insert_color m at sock ≡ eaddrinuse))
        ⊎ ((m' : StrRb) × (inproc_listener_bind rb_insert_color m at sock ≡ listening m')
            × AreSorted (inorder m'.root)
            × (getlistener m' socks sock ≡ seize socks (record { at = at; key = sock }))
            × (getlistener m' socks key ≡ getlistener m socks key))
  getlistener-inproc_listener_bind c m socks at sock key v n =
      elim (Option-cases (str_rb_find m.root sock)) [
        | inr (other, e) ↦ inl (other, e, bind_used m at sock other e)
        | inl e ↦
            let m' : StrRb = (str_rb_insert rb_insert_color m (entry_of at sock)).0 in
            let (sorted, others, own) =
              str_rb_find-str_rb_insert rb_insert_color c m (entry_of at sock) key v n in
            inr (
              m',
              bind_free m at sock e,
              sorted,
              getlistener_hit m' socks sock (entry_of at sock)
                  (own ∙ ap (λ o. some (or_else o (entry_of at sock))) e),
              getlistener_found m m' socks key others,
            )
      ]

  -- A listener that was bound is closed: it closes the connections that nobody accepted, in their
  -- order, and every address leads where it led before the bind.
  pub inproc_listener_close-inproc_listener_bind :
      (rb_erase : Tree → ℕ → Tree) (c : IsColor rb_insert_color) (d : IsErase rb_erase) (m : StrRb)
      (socks : ℕ → Listener) (at : ℕ) (sock key : List ℕ) (sb : Sockbase)
      → AreSorted (inorder m.root)
      → Free at (inorder m.root)
      → m.size < 2 ^ 64
      → str_rb_find m.root sock ≡ none
      → (m' m'' : StrRb) × (inproc_listener_bind rb_insert_color m at sock ≡ listening m')
        × (inproc_listener_close rb_erase (suc (length sb.acceptq_head)) m' at sb
            ≡ some (m'', record sb { acceptq_head = [] }, sb.acceptq_head))
        × (getlistener m'' socks key ≡ getlistener m socks key)
        × (m''.size ≡ m.size)
  unfolding inproc_listener_close rmlistener
  inproc_listener_close-inproc_listener_bind rb_erase c d m socks at sock key sb v free small e =
      let m' : StrRb = (str_rb_insert rb_insert_color m (entry_of at sock)).0 in
      let (same, found, size) =
        str_rb_delete-str_rb_insert rb_insert_color rb_erase c d m (entry_of at sock) key v free
          small e in
      (
        m',
        str_rb_delete rb_erase m' at,
        bind_free m at sock e,
        ap
            (λ r. elim r as (λ _. Option (StrRb × Sockbase × List ℕ)) [
              | none ↦ none
              | some r ↦ some (str_rb_delete rb_erase m' at, r.0, r.1)
            ])
            (close_acceptq_lem sb.acceptq_head sb),
        getlistener_found m (str_rb_delete rb_erase m' at) socks key found,
        size,
      )
