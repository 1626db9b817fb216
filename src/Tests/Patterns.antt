-- ===== src/Tests/Patterns.antt =====
-- The scalability protocols at concrete inputs.
use proxyio.Base.{
  ◌<◌, ◌≡◌, ◌≢◌, ◌⊎◌, inl, refl, true, false, List, [], ◌∷◌, ◌++◌, some, none, arith, length,
}
use proxyio.Msgbuf.{Msgbuf, ubase}
use proxyio.MsgbufHead.Order.{IsHead}
use proxyio.Sp.RoundRobin.{RrbinEntry, select_times, weight_rrbin_select}
use proxyio.Sp.RoundRobin.Fairness.{AreFresh, total_weight, round, round_lem}
use proxyio.Sp.Reqrep.Header.{
  Rrhdr, route, Request, get_rrhdr, hdr_cur, hdr_prev, rt_cur, rt_prev, rt_append,
}
use proxyio.Sp.Reqrep.{
  LoadbalanceVfptr, weight_rrbin_ops, Target, Reqep, Repep, get_tgtd_if, change_tgtd_if, by_fd,
  learn, enqueue, ttl_dec, turn_back, repep_add, repep_send, receiver_add, dispatcher_add,
}
use proxyio.Sp.Reqrep.Hop.{IsRoute, rt_append_lem}
use proxyio.Sp.Reqrep.Routing.{IsOnly, dispatcher_add-receiver_add}
use proxyio.Sp.Reqrep.Replying.{repep_send-repep_add}
use proxyio.Sp.Fanout.{FanEp, pub_ep_send, bus_ep_add}
use proxyio.Sp.Fanout.Delivery.{
  AreReady, AllReceived, OthersReceived, pub_ep_send_lem, bus_ep_add_lem,
}
use proxyio.Tests.Samples.{crc, crc_fits, leaf, tree, tree-IsMessage, queue, queue-IsHead}

abbrev balance : List RrbinEntry
balance =
    record { tg = 4; origin_weight = 2; current_weight = 2 }
    ∷ record { tg = 5; origin_weight = 1; current_weight = 1 }
    ∷ []

balance-AreFresh : AreFresh balance
balance-AreFresh = (
  record { positive = omega arith; int = omega arith; full = refl },
  (record { positive = omega arith; int = omega arith; full = refl }, tt),
)

round_lem_example : select_times (total_weight balance) balance ≡ (balance, round balance)
round_lem_example = round_lem balance balance-AreFresh

-- A request of the client 70, and its reply from the proxy's target 80.
abbrev asked : Rrhdr
asked = record { ttl = 1; end_ttl = 0; go = true; rt = 70 ∷ [] }

abbrev answered : Rrhdr
answered = record { ttl = 2; end_ttl = 2; go = false; rt = 70 ∷ 80 ∷ [] }

asked-IsRoute : IsRoute asked
asked-IsRoute = record { used = refl; some_hop = omega arith; fits = omega arith }

abbrev request : Request
request = record { subs = route asked ∷ []; ubuf = leaf }

abbrev no_controls : List Msgbuf
no_controls = []

rt_append_lem_example :
    ((asked.ttl ≡ 15) × (rt_append request 80 ≡ none))
    ⊎ ((r' : Request) × (rt_append request 80 ≡ some r')
        × (asked.ttl < 15)
        × (((no_controls ≡ [])
              × (h' : Rrhdr) × (r'.subs ≡ route h' ∷ [])
              × IsRoute h'
              × (h'.rt ≡ asked.rt ++ 80 ∷ [])
              × (rt_cur r' ≡ some 80)
              × (rt_prev r' ≡ rt_cur request))
            ⊎ ((no_controls ≢ []) × (get_rrhdr r' ≡ none))))
rt_append_lem_example = rt_append_lem request asked no_controls 80 refl asked-IsRoute

abbrev reply : Request
reply = record { subs = route answered ∷ []; ubuf = leaf }

abbrev client : Target
client = record { fd = 3; uuid = 0; ls_head = []; pollout = false }

abbrev front : Repep
front = record { connectors = client ∷ []; rcv = [] }

abbrev worker : Target
worker = record { fd = 4; uuid = 80; ls_head = []; pollout = false }

abbrev backend : Reqep (List RrbinEntry)
backend = record { targets = worker ∷ []; lbs = balance; rcv = [] }

client-IsOnly : IsOnly 3 70 front.connectors
client-IsOnly = (inl refl, tt)

found : get_tgtd_if (by_fd 3) front.connectors ≡ some client
unfolding get_tgtd_if
found = refl

found_worker : get_tgtd_if (by_fd 4) backend.targets ≡ some worker
unfolding get_tgtd_if
found_worker = refl

-- The balance after the worker was selected.
abbrev selected_once : List RrbinEntry
selected_once =
    record { tg = 4; origin_weight = 2; current_weight = 1 }
    ∷ record { tg = 5; origin_weight = 1; current_weight = 1 }
    ∷ []

selects_worker : LoadbalanceVfptr.select weight_rrbin_ops balance leaf ≡ (selected_once, some 4)
unfolding weight_rrbin_ops weight_rrbin_select
selects_worker = refl

request-rt_cur : rt_cur request ≡ some 70
unfolding rt_cur get_rrhdr hdr_cur
request-rt_cur = refl

reply-rt_prev : rt_prev reply ≡ some 70
unfolding rt_prev get_rrhdr hdr_prev
reply-rt_prev = refl

dispatcher_add-receiver_add_example :
    (ep' : Repep) × (before after ts : List Target) × (receiver_add weight_rrbin_ops front backend 3
        request
      ≡ some (
        ep',
        record backend { targets = before ++ enqueue request worker ∷ after; lbs = selected_once },
        true,
      ))
    × (backend.targets ≡ before ++ worker ∷ after)
    × (dispatcher_add ep' reply ≡ some (record ep' { connectors = ts }, true))
    × (change_tgtd_if (by_fd 3) (λ x. enqueue (ttl_dec reply) (learn 70 x)) front.connectors
        ≡ some ts)
dispatcher_add-receiver_add_example =
    dispatcher_add-receiver_add weight_rrbin_ops front backend 3 70 4 selected_once request reply
      client worker found client-IsOnly selects_worker found_worker request-rt_cur reply-rt_prev

repep_send-repep_add_example :
    (ep' ep'' : Repep) × (repep_add front 3 request ≡ some ep')
    × (ep'.rcv ≡ front.rcv ++ request ∷ [])
    × (repep_send ep' request ≡ some (ep'', turn_back request, some 3))
repep_send-repep_add_example =
    repep_send-repep_add front 3 70 request request client found client-IsOnly request-rt_cur
      request-rt_cur

abbrev hub : FanEp
hub = record {
  connectors =
      record { fd = 3; ls_head = queue; pollout = false }
      ∷ record { fd = 4; ls_head = queue; pollout = true }
      ∷ [];
  rcv = queue;
}

hub-AreReady : AreReady (length (ubase tree)) hub.connectors
hub-AreReady = (queue-IsHead, omega arith, (queue-IsHead, omega arith, tt))

pub_ep_send_lem_example :
    (ep' : FanEp) × (pub_ep_send crc hub tree ≡ some ep')
    × AllReceived tree hub.connectors ep'.connectors
    × (ep'.rcv ≡ hub.rcv)
pub_ep_send_lem_example = pub_ep_send_lem crc crc_fits hub tree tree-IsMessage hub-AreReady

bus_ep_add_lem_example :
    (ep' : FanEp) × (bus_ep_add crc hub 3 tree ≡ some ep')
    × OthersReceived 3 tree hub.connectors ep'.connectors
    × (ep'.rcv.head ≡ hub.rcv.head ++ tree ∷ [])
    × IsHead ep'.rcv
bus_ep_add_lem_example =
    bus_ep_add_lem crc crc_fits hub 3 tree tree-IsMessage hub-AreReady queue-IsHead (omega arith)
