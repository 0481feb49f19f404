-- ===== src/Backend/Module/Examples.antt =====
-- The backend loaded and unloaded.
use tcphandoff.Common.{
  ℕ, ◌+◌, ◌-◌, ◌≡◌, refl, false, Option, none, some, List, [], ◌∷◌, ◌++◌, arith, ◌==◌,
  if◌then◌else◌, fault,
}
use tcphandoff.Backend.Server.Stop.{IsConn}
use tcphandoff.Backend.Server.{BeServer, stop_fe_connections}
use tcphandoff.Backend.Server.Ring.{AllStopped, stop_fe_connections-AllStopped}
use tcphandoff.Backend.Listener.Establish.{conns_of}
use tcphandoff.Backend.Module.{BackEnd, tcpha_be_init, serve, tcpha_be_exit}
use tcphandoff.Backend.Module.Exit.{Cleared, LeftRunning, tcpha_be_exit_cases}
use tcphandoff.Backend.Examples.{kernel_lists, idle, calls, be, accepts}

-- The module's cleared variables, and a user's listening socket at 77.
abbrev cleared : BackEnd
cleared = record {
  lport = 0;
  laddr = 0;
  user_sock = none;
  listening = record be {
    server = record idle { links = record { next = λ x. 0; prev = λ x. 0 } };
  };
  server_task = false;
}

abbrev user : ℕ → ℕ → Option ℕ
user addr port = if port == 8080 then some 77 else none

cleared-Cleared : Cleared cleared
cleared-Cleared = record { no_next = refl; head = λ e. absurd (omega arith) }

tcpha_be_exit_cases_example :
    let served = serve kernel_lists calls accepts (tcpha_be_init user cleared).0 in
    let result = tcpha_be_exit kernel_lists (λ c. 0) 2 served in
    (conns_of accepts ≡ [] → result ≡ fault)
    × ((before : List ℕ) (c : ℕ)
        → conns_of accepts ≡ before ++ (c ∷ [])
        → IsConn kernel_lists cleared.listening.server c
        → LeftRunning before c result)
tcpha_be_exit_cases_example =
    tcpha_be_exit_cases kernel_lists user (λ c. 0) 0 calls accepts cleared cleared-Cleared refl refl
      refl

-- Three connections on a list in order.
abbrev three : BeServer
three = record idle {
  links = record { next = λ x. if x == 4 then 1 else x + 1; prev = λ x. x - 1 };
  threads = 4 ∷ 3 ∷ 2 ∷ [];
}

stop_fe_connections-AllStopped_example :
    AllStopped three (2 ∷ 3 ∷ 4 ∷ []) (λ c. c) (stop_fe_connections kernel_lists (λ c. c) 4 three)
stop_fe_connections-AllStopped_example =
    stop_fe_connections-AllStopped kernel_lists three (2 ∷ 3 ∷ 4 ∷ []) 4 (λ c. c) (omega arith)
      (
        refl,
        refl,
        (λ e. absurd (omega arith)),
        (λ e. absurd (omega arith)),
        refl,
        (
          refl,
          refl,
          (λ e. absurd (omega arith)),
          (λ e. absurd (omega arith)),
          refl,
          (refl, refl, (λ e. absurd (omega arith)), (λ e. absurd (omega arith)), refl, refl),
        ),
      )
