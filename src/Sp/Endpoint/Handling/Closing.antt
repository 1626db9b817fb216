-- ===== src/Sp/Endpoint/Handling/Closing.antt =====
-- Which sockets an event closes.
use proxyio.Base.{
  ℕ, ◌≡◌, Bool, false, ◌||◌, ◌&&◌, List, [], ◌∷◌, Option, none, some, map, if◌then◌else◌,
}
use proxyio.Msgbuf.{Msgbuf}
use proxyio.Socket.{Events}
use proxyio.Sp.Endpoint.{Tgtd, Epbase}
use proxyio.Sp.Endpoint.Handling.{
  Xrecv, Xsend, EpbaseVfptr, Tending, tend_in, tend_out, recv_fails, send_fails,
}

-- A target, whether or not it asks to send.
abbrev pub unasked : Tgtd → Tgtd
unasked t = record t { pollout = false }

-- The same sockets, in the same lists; a connector may ask to send in one and not in the other.
pub record SameSocks (a b : Epbase) : Type 0 where
  pub connectors : map unasked b.connectors ≡ map unasked a.connectors
  pub listeners : b.listeners ≡ a.listeners
  pub bad_socks : b.bad_socks ≡ a.bad_socks

-- `add` and `rm` move messages, and change what connectors ask for.
pub record IsVfptr (vfptr : EpbaseVfptr) : Type 0 where
  pub adds : (ep : Epbase) (fd : ℕ) (m : Msgbuf) → SameSocks ep (vfptr.add ep fd m).0
  pub rms : (ep : Epbase) (fd : ℕ) → SameSocks ep (vfptr.rm ep fd).0

abbrev Found : ℕ → Option (Tgtd × List Tgtd) → Type 0
Found fd none = Unit {0}
Found fd (some r) = Tgtd.fd r.0 ≡ fd

abbrev unasked_first : Option (Tgtd × List Tgtd) → Option (Tgtd × List Tgtd)
unasked_first none = none
unasked_first (some (t, ts)) = some (unasked t, map unasked ts)

abbrev after : Option (Tgtd × List Tgtd) → List Tgtd
after none = []
after (some (t, ts)) = ts

abbrev TakesLike : ℕ → List Tgtd → Option (Tgtd × List Tgtd) → Type 0
TakesLike fd rest o =
    (tg : Tgtd) × (rest' : List Tgtd) × (o ≡ some (tg, rest'))
    × (map unasked rest' ≡ map unasked rest)
    × (tg.fd ≡ fd)

module _ (vfptr : EpbaseVfptr) (v : IsVfptr vfptr) where
  -- How the socket stands after the part for XPOLLIN, and after that for XPOLLOUT.
  abbrev pub after_in : Xrecv → Epbase → ℕ → Events → Tending
  after_in xrecv ep fd happened =
      let t : Tending = record { ep = ep; pollerr = happened.pollerr; sent = []; freed = [] } in
      if happened.pollin then tend_in vfptr xrecv fd t else t

  abbrev pub after_out : Xrecv → (Msgbuf → Xsend) → Epbase → ℕ → Events → Tending
  after_out xrecv xsend ep fd happened =
      let t = after_in xrecv ep fd happened in
      if happened.pollout then tend_out vfptr xsend fd t else t

  abbrev pub out_fails : (Msgbuf → Xsend) → Option Msgbuf → Bool
  out_fails xsend none = false
  out_fails xsend (some m) = send_fails (xsend m)

  -- Whether the socket is given up: an error happened, or one of the calls failed for good.
  abbrev pub fails : Xrecv → (Msgbuf → Xsend) → Epbase → ℕ → Events → Bool
  fails xrecv xsend ep fd happened =
      (happened.pollerr || (happened.pollin && recv_fails xrecv))
      || (happened.pollout
          && out_fails xsend (vfptr.rm (Tending.ep (after_in xrecv ep fd happened)) fd).1)

  abbrev Ends : Epbase → ℕ → List Tgtd → Bool → Epbase × List ℕ → Type 0
  Ends ep fd rest failed r =
      (r.1 ≡ (if failed then fd ∷ [] else []))
      × (map unasked (Epbase.connectors r.0) ≡ map unasked (if failed then rest else ep.connectors))
      × (Epbase.listeners r.0 ≡ ep.listeners)
      × (Epbase.bad_socks r.0 ≡ [])
