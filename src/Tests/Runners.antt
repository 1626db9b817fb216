-- ===== src/Tests/Runners.antt =====
-- The runner of the endpoints at concrete inputs.
use proxyio.Base.{true, [], ◌∷◌}
use proxyio.Msgbuf.{Msgbuf}
use proxyio.MsgbufHead.{MsgbufHead}
use proxyio.Socket.{Events, xconnector}
use proxyio.Sp.Endpoint.{Epbase, epbase_init, generic_tgtd_init}
use proxyio.Sp.Endpoint.Handling.{Xsend, send_failed}

abbrev refuses : Msgbuf → Xsend
refuses m = send_failed

abbrev joined : Epbase
joined = record epbase_init {
  connectors = generic_tgtd_init 3 xconnector ∷ generic_tgtd_init 4 xconnector ∷ [];
}

-- A message comes in, the socket takes more, and the other end has hung up.
abbrev hung_up : Events
hung_up = record { pollin = true; pollout = true; pollerr = true }
