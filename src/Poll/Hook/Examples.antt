-- ===== src/Poll/Hook/Examples.antt =====
-- The theorem about what arrives during an insertion at a concrete eventpoll.
use tcphandoff.Common.{List, refl, true, false, bit_and, bit_or, [], ◌∷◌, arith}
use tcphandoff.Sock.{tcp_cmp_sock}
use tcphandoff.Poll.Tree.{Tree, leaf, node, tcp_ep_hash_insert}
use tcphandoff.Poll.{watch_flags, pollin}
use tcphandoff.Poll.Examples.{plain, pool, peer}
use tcphandoff.Poll.Hook.{Insertion, Turn, steps, arrival, insertion, preparing}
use tcphandoff.Poll.Hook.Missed.{arrival_cases, Left, Arriving}

-- Item 4, of peer 10.0.0.4, goes below item 3.
abbrev grown : Tree
grown = node (node (node leaf 4 leaf) 3 leaf) 2 (node leaf 1 leaf)

arriving : Arriving plain pool 4 104 (peer 4) pollin 0 pollin grown
unfolding tcp_ep_hash_insert tcp_cmp_sock
arriving = record {
  place = refl;
  not_ready = refl;
  not_waiting = refl;
  quiet = refl;
  loud = omega arith;
}

abbrev run : List Turn → Insertion
run ts = insertion plain 4 ts (preparing pool 4 104 (peer 4) pollin 0)

arrival_cases_example :
    Left 4 true 0 (run (arrival pollin ∷ steps ∷ steps ∷ steps ∷ []))
    × (Left 4 false 0 (run (steps ∷ arrival pollin ∷ steps ∷ steps ∷ []))
        × (Left 4 false 0 (run (steps ∷ steps ∷ arrival pollin ∷ steps ∷ []))
            × Left 4 true
                (bit_or 0 (bit_and (watch_flags pollin) pollin))
                (run (steps ∷ steps ∷ steps ∷ arrival pollin ∷ []))))
arrival_cases_example = arrival_cases plain pool 4 104 (peer 4) pollin 0 pollin grown arriving
