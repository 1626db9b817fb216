-- ===== src/Poll/Emission.antt =====
-- The operations of a poller keep the order of its entries.
use proxyio.Base.{
  ℕ, ◌-◌, refl, inl, inr, Bool, true, false, List, [], ◌∷◌, ◌++◌, Option, none, some, ◌==◌,
  if◌then◌else◌, Bool-cases,
}
use proxyio.Socket.{Events, no_events, meet}
use proxyio.Poll.{
  PollFd, PollEntry, Xpoll, Wanted, any, happens_now, with_happened, unlink, by_fd, is_wanted,
  is_pb, find_poll_entry, Result, ok, enoent, undone, rm_poll_entry, Emitted, emitted, dropped,
  emit_entry, emit_detached, poll_entry_put, xpollbase_emit, set_pollfd, tell, xpoll_mod,
}
use proxyio.Poll.Ready.{AreIdle, IsSorted, append-IsSorted, Rest, unlink-IsSorted}

-- The entries are in order after an operation that changed the poller.
abbrev pub Orders : Result → Type 0
Orders (ok self) = IsSorted self.lru_head
Orders (undone self) = IsSorted self.lru_head
Orders _ = Unit {0}

abbrev pub EmitOrders : Emitted → Type 0
EmitOrders (emitted self woken) = IsSorted self.lru_head
EmitOrders (dropped self) = IsSorted self.lru_head
EmitOrders Emitted.bug = Unit {0}

abbrev Puts : Option Xpoll → Type 0
Puts none = Unit {0}
Puts (some self) = IsSorted self.lru_head

poll_entry_put-IsSorted :
    (self : Xpoll) (pb : ℕ) → IsSorted self.lru_head → Puts (poll_entry_put self pb)
unfolding poll_entry_put
poll_entry_put-IsSorted self pb v = go (unlink (is_pb pb) self.detached)
  where
    test :
        (a b : Bool) (x y : Xpoll)
        → IsSorted x.lru_head
        → IsSorted y.lru_head
        → Puts (if a then some x else if b then none else some y)
    test true b x y v w = v
    test false true x y v w = tt
    test false false x y v w = w

    go :
        (o : Option (PollEntry × List PollEntry))
        → Puts (elim o [
          | none ↦ none
          | some (ent, ents) ↦
              if ent.ref == 1
              then some (record self { ref = self.ref - 1; detached = ents })
              else if ent.ref == 0
              then none
              else some (record self { detached = record ent { ref = ent.ref - 1 } ∷ ents })
        ])
    go none = tt
    go (some (ent, ents)) =
        test (ent.ref == 1) (ent.ref == 0) (record self { ref = self.ref - 1; detached = ents })
          (record self { detached = record ent { ref = ent.ref - 1 } ∷ ents }) v v

emit_entry-IsSorted :
    (self : Xpoll) (ent : PollEntry) (ents : List PollEntry) (events : Events)
    → IsSorted self.lru_head
    → IsSorted ents
    → EmitOrders (emit_entry self ent ents events)
unfolding emit_entry
emit_entry-IsSorted self ent ents events v w = elim (Bool-cases (any events)) [
  | inl t ↦ rw t (inl (t, w))
  | inr f ↦ rw f (idle (happens_now ent))
]
  where
    idle :
        (b : Bool)
        → EmitOrders (
            if b
            then emitted (record self { lru_head = ents ++ with_happened ent no_events ∷ [] }) false
            else emitted self false)
    idle true = append-IsSorted ents (with_happened ent no_events) w refl
    idle false = v

-- Whatever a socket tells the poller, the entries with an event stay in front.
pub xpollbase_emit-IsSorted :
    (self : Xpoll) (pb : ℕ) (events : Events)
    → IsSorted self.lru_head
    → EmitOrders (xpollbase_emit self pb events)
unfolding xpollbase_emit emit_detached
xpollbase_emit-IsSorted self pb events v =
    go (unlink (is_pb pb) self.lru_head) (unlink-IsSorted (is_pb pb) self.lru_head v)
  where
    put :
        (o : Option Xpoll)
        → Puts o
        → EmitOrders (elim o [ none ↦ Emitted.bug | some self' ↦ dropped self' ])
    put none r = tt
    put (some self') r = r

    asked : (b : Bool) (r : Emitted) → EmitOrders r → EmitOrders (if b then r else Emitted.bug)
    asked true r v = v
    asked false r v = tt

    detached : (o : Option (PollEntry × List PollEntry)) → EmitOrders (emit_detached self pb o)
    detached none = tt
    detached (some (ent, ents)) =
        asked (any ent.pollfd.events)
          (elim (poll_entry_put self pb) [ none ↦ Emitted.bug | some self' ↦ dropped self' ])
          (put (poll_entry_put self pb) (poll_entry_put-IsSorted self pb v))

    go :
        (o : Option (PollEntry × List PollEntry))
        → Rest IsSorted o
        → EmitOrders (elim o [
          | none ↦ emit_detached self pb (unlink (is_pb pb) self.detached)
          | some (ent, ents) ↦
              if any ent.pollfd.events then emit_entry self ent ents events else Emitted.bug
        ])
    go none r = detached (unlink (is_pb pb) self.detached)
    go (some (ent, ents)) r =
        asked (any ent.pollfd.events) (emit_entry self ent ents events)
          (emit_entry-IsSorted self ent ents events v r)

tell-IsSorted :
    (self : Xpoll) (pb : ℕ) (events : Events)
    → IsSorted self.lru_head
    → Orders (tell self pb events)
unfolding tell
tell-IsSorted self pb events v =
    go (xpollbase_emit self pb events) (xpollbase_emit-IsSorted self pb events v)
  where
    go :
        (r : Emitted)
        → EmitOrders r
        → Orders (elim r [
          | emitted self' woken ↦ ok self'
          | dropped self' ↦ ok self'
          | Emitted.bug ↦ Result.bug
        ])
    go (emitted self' woken) v = v
    go (dropped self') v = v
    go Emitted.bug v = tt

-- A removal, of the entry of one descriptor or of the first one.
pub rm_poll_entry-IsSorted :
    (self : Xpoll) (wanted : Wanted) → IsSorted self.lru_head → Orders (rm_poll_entry self wanted)
unfolding rm_poll_entry
rm_poll_entry-IsSorted self wanted v =
    go (unlink (is_wanted wanted) self.lru_head)
      (unlink-IsSorted (is_wanted wanted) self.lru_head v)
  where
    put :
        (o : Option Xpoll) → Puts o → Orders (elim o [ none ↦ Result.bug | some self' ↦ ok self' ])
    put none r = tt
    put (some self') r = r

    without : PollEntry → List PollEntry → Xpoll
    without ent ents = record self {
      size = self.size - 1;
      lru_head = ents;
      detached = ent ∷ self.detached;
    }

    go :
        (o : Option (PollEntry × List PollEntry))
        → Rest IsSorted o
        → Orders (elim o [
          | none ↦ enoent
          | some (ent, ents) ↦ elim (poll_entry_put (without ent ents) ent.pb) [
            | none ↦ Result.bug
            | some self' ↦ ok self'
          ]
        ])
    go none r = tt
    go (some (ent, ents)) r =
        put (poll_entry_put (without ent ents) ent.pb)
          (poll_entry_put-IsSorted (without ent ents) ent.pb r)

-- A change of the mask moves nothing.
abbrev set_events : Events → PollFd → PollFd
set_events events x = record x { events = events }

module _ (p : PollEntry → Bool) (events : Events) where
  set-AreIdle : (es : List PollEntry) → AreIdle es → AreIdle (set_pollfd p (set_events events) es)
  set-AreIdle [] v = tt
  set-AreIdle (e ∷ es) v = elim (Bool-cases (p e)) [
    | inl t ↦ rw t (v.0, v.1)
    | inr f ↦ rw f (v.0, set-AreIdle es v.1)
  ]

  set-IsSorted :
      (es : List PollEntry) → IsSorted es → IsSorted (set_pollfd p (set_events events) es)
  set-IsSorted [] v = tt
  set-IsSorted (e ∷ es) (inl (a, v)) = elim (Bool-cases (p e)) [
    | inl t ↦ rw t (inl (a, v))
    | inr f ↦ rw f (inl (a, set-IsSorted es v))
  ]
  set-IsSorted (e ∷ es) (inr (a, v)) = elim (Bool-cases (p e)) [
    | inl t ↦ rw t (inr (a, v))
    | inr f ↦ rw f (inr (a, set-AreIdle es v))
  ]

pub xpoll_mod-IsSorted :
    (self : Xpoll) (pollfd : PollFd) (now : Option Events)
    → IsSorted self.lru_head
    → Orders (xpoll_mod self pollfd now)
unfolding xpoll_mod
xpoll_mod-IsSorted self pollfd none v = tt
xpoll_mod-IsSorted self pollfd (some now) v = go (find_poll_entry self (by_fd pollfd.fd))
  where
    changed : Xpoll
    changed = record self {
      lru_head = set_pollfd (is_wanted (by_fd pollfd.fd)) (set_events pollfd.events) self.lru_head;
    }

    go :
        (o : Option PollEntry)
        → Orders
            (elim o [ none ↦ enoent | some ent ↦ tell changed ent.pb (meet now pollfd.events) ])
    go none = tt
    go (some ent) =
        tell-IsSorted changed ent.pb (meet now pollfd.events)
          (set-IsSorted (is_wanted (by_fd pollfd.fd)) pollfd.events self.lru_head v)
