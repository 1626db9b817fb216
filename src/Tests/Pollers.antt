-- ===== src/Tests/Pollers.antt =====
-- A poller at concrete inputs.
use proxyio.Base.{◌≡◌, refl, true, false, [], ◌∷◌, some, take}
use proxyio.Socket.{Events, all_events, no_events}
use proxyio.Poll.{PollFd, Xpoll, poll_alloc, xpoll_create, ok, xpoll_add, xpoll_wait}
use proxyio.Poll.Ready.{ready}
use proxyio.Poll.Adding.{registered_entry, with_lru, xpoll_add_lem}
use proxyio.Poll.Waiting.{adds, Reachable, created, goes, xpoll_wait-Reachable}

-- The caller's structure says that something happened, which is not so.
abbrev wanted : PollFd
wanted = record { fd = 3; events = all_events; happened = all_events }

abbrev other : PollFd
other = record { fd = 4; events = all_events; happened = no_events }

abbrev readable : Events
readable = record { pollin = true; pollout = false; pollerr = false }

abbrev watching : Xpoll
watching = with_lru (xpoll_create 7) (registered_entry 1 wanted no_events ∷ [])

abbrev watching_both : Xpoll
watching_both =
    with_lru watching (registered_entry 2 other readable ∷ registered_entry 1 wanted no_events ∷ [])

other_added : xpoll_add watching other (some readable) true (some 2) ≡ ok watching_both
other_added = xpoll_add_lem watching other readable 2 (refl, tt) (refl, tt) refl

both-Reachable : Reachable watching_both
unfolding xpoll_create poll_alloc
both-Reachable =
    goes
      (goes (created 7) (
        adds wanted no_events 1 tt tt refl
          (xpoll_add_lem (xpoll_create 7) wanted no_events 1 tt tt refl)))
      (adds other readable 2 (refl, tt) (refl, tt) refl other_added)

xpoll_wait-Reachable_example : xpoll_wait watching_both 5 ≡ take 5 (ready watching_both.lru_head)
xpoll_wait-Reachable_example = xpoll_wait-Reachable 5 both-Reachable
