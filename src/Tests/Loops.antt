-- ===== src/Tests/Loops.antt =====
-- The event loops at concrete inputs.
use proxyio.Base.{
  ℕ, suc, ◌+◌, ◌-◌, ◌<◌, ◌≤◌, ◌≡◌, refl, sym, ap, min, Bool, true, false, ◌||◌, List, [], ◌∷◌, ◌++◌,
  none, some, ltb, leb, ◌==◌, if◌then◌else◌, length, arith,
}
use proxyio.Ev.{
  Interest, Fdd, EvFd, EpollOp, CtlAnswer, refused, accepted, EvFdset, done, is_linked,
  eventpoll_add, ev_fdset_add, eventpoll_del, ev_fdset_rm, fds_ctl_vfptr, ev_fdset_ctl_inside,
  EvTask, run_one, run_tasks, ev_fdset_ctl,
}
use proxyio.Ev.Watching.{inits, ctls, IsFdset, ev_fdset_rm-Reachable}
use proxyio.Ev.Tasks.{IsEpollCtl, ev_fdset_ctl-ev_fdset_ctl_inside}
use proxyio.Ev.Efd.{Pipe, IsPipe, Run, gives, signal_loop, efd_signal}
use proxyio.Ev.Signal.{EvSig, ev_sig_init, signal_write, ev_signal, ev_sigfd_hndl}
use proxyio.Ev.Signal.Wakeup.{Holds}
use proxyio.Ev.Signal.Interleaved.{Loop, polls, signals}
use proxyio.Ev.Signal.Interleaved
use proxyio.Ev.Watching
use proxyio.Ev.Signal.Awake.{ev_sig-Reachable}
use proxyio.Ev.Signal.Handling.{ev_sigfd_hndl_lem}
use proxyio.Bufio.{
  bio_init, bio_write, write_loop, make_room, is_time_to_expand, list_empty, bio_expand_one_page,
  bio_last, write_last,
}
use proxyio.Bufio.Pages.{bio_page_new, bio_page_full, bio_page_write, copy_to, room}
use proxyio.Msgbuf.Frame.{u32_bytes}
use proxyio.Tests.Samples.{bio_of, contents-bio_of, bio_of-IsBio}

-- A pipe of 65536 bytes.
abbrev kernel_pipe : Pipe ℕ
kernel_pipe = record {
  unread = λ p. p;
  capacity = 65536;
  write = λ p n. if leb (p + n) 65536 then some (p + n, n) else none;
  read = λ p n. if p == 0 then none else some (p - min n p, min n p);
}

has_room : (p n : ℕ) → p + n ≤ 65536 → kernel_pipe.write p n ≡ some (p + n, n)
has_room p n h = ground (arith, h)

some_held : (p n : ℕ) → 0 < p → kernel_pipe.read p n ≡ some (p - min n p, min n p)
some_held p n h = ground (arith, h)

none_held : (p n : ℕ) → p ≡ 0 → kernel_pipe.read p n ≡ none
none_held p n h = ground (arith, h)

kernel_pipe-IsPipe : IsPipe kernel_pipe
kernel_pipe-IsPipe = record {
  writes = λ p n h k r. (p + n, has_room p n r, refl);
  reads = λ p n h k. (p - min n p, some_held p n k, refl);
  read_none = λ p n h k. none_held p n k;
}

-- An epoll that takes everything but a negative descriptor.
abbrev kernel_epoll : ℕ → EpollOp → Fdd → CtlAnswer ℕ
kernel_epoll k op fdd = if leb fdd.fd 1000 then accepted (suc k) else refused 9

errno_of : CtlAnswer ℕ → ℕ
errno_of (accepted k) = 9
errno_of (refused n) = n

ebadf : (k n : ℕ) (b : Bool) → (if b then accepted (suc k) else refused 9) ≡ refused n → n ≡ 9
unfolding errno_of
ebadf k n true h = absurd (cc)
ebadf k n false h = sym (ap errno_of h)

kernel_epoll-IsEpollCtl : IsEpollCtl kernel_epoll
kernel_epoll-IsEpollCtl = record {
  positive = λ k op fdd n h. omega (arith, ebadf k n (leb fdd.fd 1000) h);
  fits = λ k op fdd n h. omega (arith, ebadf k n (leb fdd.fd 1000) h);
}

abbrev reading : Interest
reading = record { ev_read = true; ev_write = false }

abbrev evfd : EvFd
evfd = record { id = 7; fdd = record { fd = 3; events = reading }; fd = 3; events = reading }

abbrev empty_set : EvFdset ℕ
empty_set = record { fd_size = 0; eventpoll = record { kernel = 0; fds = [] } }

abbrev one_fd : EvFdset ℕ
one_fd = record { fd_size = 1; eventpoll = record { kernel = 1; fds = 7 ∷ [] } }

one_fd-Reachable : Watching.Reachable kernel_epoll one_fd
unfolding ev_fdset_ctl_inside fds_ctl_vfptr ev_fdset_add eventpoll_add
one_fd-Reachable = ctls 0 evfd evfd (inits 0) refl

-- It is removed again.
no_fd :
    ev_fdset_ctl_inside kernel_epoll one_fd 1 evfd
    ≡ done (record { fd_size = 0; eventpoll = record { kernel = 2; fds = [] } }, evfd)
unfolding ev_fdset_ctl_inside fds_ctl_vfptr ev_fdset_rm eventpoll_del
no_fd = refl

ev_fdset_rm-Reachable_example :
    (is_linked 7 [] ≡ false)
    × (1 ≡ length one_fd.eventpoll.fds)
    × IsFdset {K = ℕ} (record { fd_size = 0; eventpoll = record { kernel = 2; fds = [] } })
ev_fdset_rm-Reachable_example =
    ev_fdset_rm-Reachable kernel_epoll one_fd
      (record { fd_size = 0; eventpoll = record { kernel = 2; fds = [] } }) evfd evfd
      one_fd-Reachable no_fd

abbrev add_it : EvTask ℕ
add_it = record { f = ev_fdset_add kernel_epoll; owner = evfd }

add_it_run : run_tasks empty_set (add_it ∷ []) ≡ some (one_fd, record { rc = 0; owner = evfd } ∷ [])
unfolding run_tasks run_one ev_fdset_add eventpoll_add
add_it_run = refl

-- A removal behind a task that adds.
ev_fdset_ctl-ev_fdset_ctl_inside_example :
    ev_fdset_ctl kernel_epoll empty_set (add_it ∷ []) 1 evfd
    ≡ ev_fdset_ctl_inside kernel_epoll one_fd 1 evfd
ev_fdset_ctl-ev_fdset_ctl_inside_example =
    ev_fdset_ctl-ev_fdset_ctl_inside kernel_epoll kernel_epoll-IsEpollCtl empty_set one_fd
      (add_it ∷ []) (record { rc = 0; owner = evfd } ∷ []) 1 evfd (omega arith) add_it_run

-- A signal comes in while the loop polls.
abbrev sig_of : Run (ℕ × EvSig ℕ) → EvSig ℕ
sig_of (gives r) = r.1
sig_of _ = ev_sig_init 0

abbrev signalled : EvSig ℕ
signalled = sig_of (ev_signal kernel_pipe 2 1 (ev_sig_init 0) 5)

abbrev one_signal : Loop ℕ
one_signal = record { sig = signalled; phase = polls; sent = 5 ∷ []; handled = [] }

one_signal-Reachable : Interleaved.Reachable kernel_pipe one_signal
unfolding ev_signal signal_write efd_signal signal_loop ev_sig_init bio_init bio_write write_loop
    make_room is_time_to_expand list_empty bio_expand_one_page bio_last write_last bio_page_new
    bio_page_full bio_page_write copy_to room u32_bytes
one_signal-Reachable =
    Interleaved.goes (Interleaved.inits 0 refl)
      (signals 0 1 0 5 signalled (omega arith) (omega arith) (omega arith) refl)

ev_sig-Reachable_example :
    (pending : List ℕ) × Holds one_signal.sig.signals pending
    × ([] ++ pending ≡ 5 ∷ [])
    × ((one_signal.sig.signals.bsize == 0 || ltb 0 (kernel_pipe.unread one_signal.sig.efd.pipe))
        ≡ true)
ev_sig-Reachable_example =
    ev_sig-Reachable kernel_pipe kernel_pipe-IsPipe one_signal one_signal-Reachable

-- A signal is held, and a word in the pipe.
abbrev held : EvSig ℕ
held = record {
  efd = record { pipe = 4; unsignal_size = 4 };
  signals = bio_of (5 ∷ 0 ∷ 0 ∷ 0 ∷ []);
}

held-Holds : Holds held.signals (5 ∷ [])
unfolding u32_bytes
held-Holds = record {
  bio = bio_of-IsBio (5 ∷ 0 ∷ 0 ∷ 0 ∷ []) (omega arith);
  bytes = contents-bio_of (5 ∷ 0 ∷ 0 ∷ 0 ∷ []);
  ints = (omega arith, tt);
}

ev_sigfd_hndl_lem_example :
    (sig' : EvSig ℕ) × (ev_sigfd_hndl kernel_pipe 3 2 held ≡ gives (sig', 5 ∷ []))
    × Holds sig'.signals []
    × (kernel_pipe.unread sig'.efd.pipe ≡ 0)
ev_sigfd_hndl_lem_example =
    ev_sigfd_hndl_lem kernel_pipe kernel_pipe-IsPipe 1 (5 ∷ []) held held-Holds (omega arith)
      (omega arith)
