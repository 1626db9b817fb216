-- ===== src/Poll/Adding.antt =====
-- `xpoll_add`: the new entry, and where it stands.
use proxyio.Base.{
  ℕ, ◌+◌, ◌≡◌, arith, refl, sym, ap, ◌∙◌, inl, inr, Bool, true, false, List, [], ◌∷◌, ◌++◌, none,
  some, ltb, ◌==◌, if◌then◌else◌, Bool-cases,
}
use proxyio.Socket.{Events, no_events, meet}
use proxyio.Poll.{
  PollFd, PollEntry, Xpoll, any, happens_now, with_happened, poll_entry_alloc, unlink, by_fd,
  is_wanted, is_pb, find_poll_entry, ok, add_poll_entry, Emitted, emitted, emit_entry,
  xpollbase_emit, set_pollfd, tell, xpoll_add,
}
use proxyio.Poll.Ready.{IsSorted, append-IsSorted}

-- No entry passes the test.
abbrev pub Absent : (PollEntry → Bool) → List PollEntry → Type 0
Absent p [] = Unit {0}
Absent p (e ∷ es) = (p e ≡ false) × Absent p es

module _ (p : PollEntry → Bool) where
  unlink-Absent : (es : List PollEntry) → Absent p es → unlink p es ≡ none
  unfolding unlink
  unlink-Absent [] a = refl
  unlink-Absent (x ∷ es) a = rw (a.0, unlink-Absent es a.1) refl

  unlink-last :
      (es : List PollEntry) (e : PollEntry)
      → Absent p es
      → p e ≡ true
      → unlink p (es ++ e ∷ []) ≡ some (e, es)
  unfolding unlink
  unlink-last [] e a t = rw t refl
  unlink-last (x ∷ es) e a t = rw (a.0, unlink-last es e a.1 t) refl

  set-last :
      (f : PollFd → PollFd) (es : List PollEntry) (e : PollEntry)
      → Absent p es
      → p e ≡ true
      → set_pollfd p f (es ++ e ∷ []) ≡ es ++ record e { pollfd = f e.pollfd } ∷ []
  set-last f [] e a t = rw t refl
  set-last f (x ∷ es) e a t = rw (a.0) (ap (λ l. x ∷ l) (set-last f es e a.1 t))

no_event : (e : Events) → any e ≡ false → e ≡ no_events
no_event e h = go e.pollin e.pollout e.pollerr h
  where
    mask : Bool → Bool → Bool → Events
    mask a b c = record { pollin = a; pollout = b; pollerr = c }

    go : (a b c : Bool) → any (mask a b c) ≡ false → mask a b c ≡ no_events
    go true b c h = absurd (cc)
    go false true c h = absurd (cc)
    go false false true h = absurd (cc)
    go false false false h = refl

-- The entry that a registration makes, with what happens at the socket.
abbrev pub registered_entry : ℕ → PollFd → Events → PollEntry
registered_entry pb pollfd happened = record {
  pb = pb;
  pollfd = record pollfd { happened = happened };
  ref = 2;
}

-- In front if anything happens, else last.
abbrev pub place : PollEntry → List PollEntry → List PollEntry
place ent es = if happens_now ent then ent ∷ es else es ++ ent ∷ []

abbrev pub with_lru : Xpoll → List PollEntry → Xpoll
with_lru self es = record self { ref = self.ref + 1; size = self.size + 1; lru_head = es }

-- The entry as it is before the socket tells it anything: with the caller's `happened`.
abbrev copied : ℕ → PollFd → PollEntry
copied pb pollfd = record { pb = pb; pollfd = pollfd; ref = 2 }

emit_copied :
    (self : Xpoll) (pb : ℕ) (pollfd : PollFd) (now : Events) (es : List PollEntry)
    → (woken : Bool) × (emit_entry
          (with_lru self (es ++ copied pb pollfd ∷ []))
          (copied pb pollfd)
          es
          now
        ≡ emitted (with_lru self (place (registered_entry pb pollfd now) es)) woken)
unfolding emit_entry
emit_copied self pb pollfd now es = elim (Bool-cases (any now)) [
  | inl t ↦ (ltb 0 self.uwaiters, rw t refl)
  | inr f ↦ (false, rw f (idle f (any pollfd.happened) refl))
]
  where
    last : Events → Emitted
    last x = emitted (with_lru self (es ++ registered_entry pb pollfd x ∷ [])) false

    idle :
        any now ≡ false
        → (b : Bool) → any pollfd.happened ≡ b
        → (if b
            then emitted
                (with_lru self (es ++ with_happened (copied pb pollfd) no_events ∷ []))
                false
            else emitted (with_lru self (es ++ copied pb pollfd ∷ [])) false)
          ≡ emitted (with_lru self (es ++ registered_entry pb pollfd now ∷ [])) false
    idle f true e = ap (λ x. last x) (sym (no_event now f))
    idle f false e = ap (λ x. last x) (no_event pollfd.happened e ∙ sym (no_event now f))

not_found :
    (self : Xpoll) (fd : ℕ)
    → Absent (is_wanted (by_fd fd)) self.lru_head
    → find_poll_entry self (by_fd fd) ≡ none
unfolding find_poll_entry
not_found self fd a =
    rw (unlink-Absent (is_wanted (by_fd fd)) self.lru_head a, find_poll_entry) refl

add_poll_entry_step :
    (self : Xpoll) (fd pb : ℕ)
    → Absent (is_wanted (by_fd fd)) self.lru_head
    → add_poll_entry self fd (some pb)
      ≡ ok (
          with_lru self (
            self.lru_head
            ++ record {
              pb = pb;
              pollfd = record { fd = fd; events = no_events; happened = no_events };
              ref = 2;
            }
              ∷ []))
unfolding add_poll_entry poll_entry_alloc
add_poll_entry_step self fd pb a = rw (not_found self fd a, add_poll_entry) refl

emit_step :
    (self : Xpoll) (pb : ℕ) (ent : PollEntry) (ents : List PollEntry) (events : Events)
    → unlink (is_pb pb) self.lru_head ≡ some (ent, ents)
    → any ent.pollfd.events ≡ true
    → xpollbase_emit self pb events ≡ emit_entry self ent ents events
unfolding xpollbase_emit
emit_step self pb ent ents events u asked = rw (u, xpollbase_emit, asked) refl

tell_step :
    (self self' : Xpoll) (pb : ℕ) (events : Events) (woken : Bool)
    → xpollbase_emit self pb events ≡ emitted self' woken
    → tell self pb events ≡ ok self'
unfolding tell
tell_step self self' pb events woken e = rw (e, tell) refl

xpoll_add_step :
    (self self' : Xpoll) (pollfd : PollFd) (now : Events) (pb : ℕ)
    → add_poll_entry self pollfd.fd (some pb) ≡ ok self'
    → xpoll_add self pollfd (some now) true (some pb)
      ≡ tell
          (record self' { lru_head = set_pollfd (is_pb pb) (λ x. pollfd) self'.lru_head })
          pb
          (meet now pollfd.events)
unfolding xpoll_add
xpoll_add_step self self' pollfd now pb e = rw (e, xpoll_add) refl

same_number : (pb : ℕ) → (pb == pb) ≡ true
same_number pb = ground arith

-- A descriptor that is not watched yet is added with what happens at its socket, in front if anything
-- does, whatever `happened` the caller passes.
pub xpoll_add_lem :
    (self : Xpoll) (pollfd : PollFd) (now : Events) (pb : ℕ)
    → Absent (is_wanted (by_fd pollfd.fd)) self.lru_head
    → Absent (is_pb pb) self.lru_head
    → any pollfd.events ≡ true
    → xpoll_add self pollfd (some now) true (some pb)
      ≡ ok (
          with_lru self (place (registered_entry pb pollfd (meet now pollfd.events)) self.lru_head))
xpoll_add_lem self pollfd now pb a fresh asked =
    xpoll_add_step self (with_lru self (self.lru_head ++ new ∷ [])) pollfd now pb
      (add_poll_entry_step self pollfd.fd pb a)
    ∙ ap (λ l. tell (with_lru self l) pb (meet now pollfd.events))
        (set-last (is_pb pb) (λ x. pollfd) self.lru_head new fresh (same_number pb))
    ∙ tell_step (with_lru self (self.lru_head ++ copied pb pollfd ∷ []))
        (with_lru self (place (registered_entry pb pollfd (meet now pollfd.events)) self.lru_head))
        pb (meet now pollfd.events) told.0
        (emit_step (with_lru self (self.lru_head ++ copied pb pollfd ∷ [])) pb (copied pb pollfd)
            self.lru_head (meet now pollfd.events)
            (unlink-last (is_pb pb) self.lru_head (copied pb pollfd) fresh (same_number pb)) asked
          ∙ told.1)
  where
    new : PollEntry
    new = record {
      pb = pb;
      pollfd = record { fd = pollfd.fd; events = no_events; happened = no_events };
      ref = 2;
    }

    told :
        (woken : Bool) × (emit_entry
            (with_lru self (self.lru_head ++ copied pb pollfd ∷ []))
            (copied pb pollfd)
            self.lru_head
            (meet now pollfd.events)
          ≡ emitted
              (with_lru self
                (place (registered_entry pb pollfd (meet now pollfd.events)) self.lru_head))
              woken)
    told = emit_copied self pb pollfd (meet now pollfd.events) self.lru_head

pub place-IsSorted : (ent : PollEntry) (es : List PollEntry) → IsSorted es → IsSorted (place ent es)
place-IsSorted ent es v = elim (Bool-cases (happens_now ent)) [
  | inl t ↦ rw t (inl (t, v))
  | inr f ↦ rw f (append-IsSorted es ent v f)
]
