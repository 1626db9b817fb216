-- ===== src/Tests/Endpoints.antt =====
-- Endpoints and wait groups at concrete inputs.
use proxyio.Base.{◌≡◌, true, false, [], ◌∷◌, ◌++◌}
use proxyio.Socket.{xlistener, xconnector}
use proxyio.Sp.Endpoint.{Tgtd, Epbase, sp_generic_term_by_fd}
use proxyio.Sp.Endpoint.Removal.{others, marked, sp_generic_term_by_fd_lem}
use proxyio.Tests.Samples.{queue}

abbrev link : Tgtd
link = record { fd = 3; socktype = xconnector; pollout = true; bad_status = false }

abbrev door : Tgtd
door = record { fd = 4; socktype = xlistener; pollout = false; bad_status = false }

abbrev endpoint : Epbase
endpoint = record {
  shutdown = false;
  rcv = queue;
  snd = queue;
  listeners = door ∷ [];
  nlisteners = 1;
  connectors = link ∷ link ∷ [];
  nconnectors = 2;
  bad_socks = [];
}

sp_generic_term_by_fd_lem_example :
    let ep' = sp_generic_term_by_fd endpoint 3 in
    (ep'.connectors ≡ others 3 endpoint.connectors)
    × (ep'.listeners ≡ others 3 endpoint.listeners)
    × (ep'.bad_socks
        ≡ endpoint.bad_socks ++ (marked 3 endpoint.connectors ++ marked 3 endpoint.listeners))
sp_generic_term_by_fd_lem_example = sp_generic_term_by_fd_lem endpoint 3
