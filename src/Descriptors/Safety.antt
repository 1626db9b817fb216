-- ===== src/Descriptors/Safety.antt =====
-- The table of sockets in any state that the threads' steps lead to.
use proxyio.Base.{ℕ, ◌≡◌, ◌≢◌, ◌⊎◌, List, Option, none, some}
use proxyio.Descriptors.{Descriptors, Got, bug}
use proxyio.Descriptors.Threads.{IsSockets}

KeepsAlloc : List ℕ → Option (Descriptors × ℕ) → Type 0
KeepsAlloc closing none = Unit {0}
KeepsAlloc closing (some (d, fd)) = IsSockets (record { xgb = d; closing = closing })

-- What `xget` meets, by whether the socket is being closed.
abbrev pub Meets : ℕ → Got → Type 0
Meets closing r = ((closing ≡ 0) × (r ≢ bug)) ⊎ ((closing ≡ 1) × (r ≡ bug))
