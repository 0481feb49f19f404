-- ===== src/Backend/Examples.antt =====
-- The theorems about the backend's messages at concrete ones, and tests.
use tcphandoff.Common.{
  ℕ, zero, suc, ◌+◌, ◌-◌, ◌≤◌, ◌<◌, ◌≡◌, refl, ◌↔◌, inl, false, none, some, List, [], ◌∷◌, arith,
  get_or, All, length-replicate, u32_mod,
}
use tcphandoff.Backend.{FeConnection, be_fe_conn_init, max_buffer_size}
use tcphandoff.Backend.Handoff.{
  SkClone, cloned, bad_address, TcpSock, process_data_for_connection, char_to_pointer,
}
use tcphandoff.Backend.Handoff.Dispatch.{Dispatched, process_data_for_connection-Dispatched}
use tcphandoff.Backend.Message.{read_header, parse_message}
use tcphandoff.Backend.Message.Layout.{read_header-laid_out}
use tcphandoff.Backend.{hdr_size, ipv4_hdr_size}
use tcphandoff.Common.{◌%◌, ◌/◌}
use tcphandoff.Backend.Message.Trigger.{counted, parse_message_error}
use tcphandoff.Common.{Option}
use tcphandoff.Server.{Calls}
use tcphandoff.Backend.Listener.{Listening}
use tcphandoff.Backend.Server.{update, ListHead, BeServer}
use tcphandoff.Backend.Daemon.Reassembly.{Holds, Ends, daemon-Ends}
use tcphandoff.Backend.Daemon.{be_fe_connection_daemon, broken, crashed}
use tcphandoff.Backend.Daemon.Repeat.{daemon_repeats, wire_len, Repeated}
use tcphandoff.Common.{got, replicate, length-append, ◌++◌, ap, ◌∙◌}

-- A socket, and a kernel that clones it from any address.
abbrev sample_sock : TcpSock
sample_sock = record {
  saddr = 1;
  sport = 2;
  daddr = 3;
  dport = 4;
  icsk_bind_hash = some 5;
  icsk_retransmits = 6;
  icsk_backoff = 7;
  icsk_probes_out = 8;
  icsk_accept_queue = 9 ∷ 9 ∷ [];
  tcp_options = 10 ∷ [];
}

abbrev clone_any : SkClone
clone_any address = cloned sample_sock

-- Addresses that no socket is at.
abbrev clone_none : SkClone
clone_none address = bad_address

-- Command 0 for 10.252.31.32, port 8080, with 4 bytes; the address, sent low byte first, has a byte
-- above 127 that is not its highest.
abbrev message : List ℕ
message = 0 ∷ 4 ∷ 32 ∷ 31 ∷ 252 ∷ 10 ∷ 0 ∷ 144 ∷ 31 ∷ 4 ∷ 0 ∷ 65 ∷ []

abbrev small : FeConnection
small = record {
  hdr = record { cmd = 0; ipversion = 0 };
  ipv4hdr = record { ipaddress = 0; port = 0; len = 7 };
  handoff_conn_list = [];
  buffer = message;
  num_read = 0;
}

message-IsBytes : (i : ℕ) → get_or message i 0 < 256
message-IsBytes i = bytes_below message i (omega arith)
  where
    bytes_below : (xs : List ℕ) (i : ℕ) → All (λ x. x < 256) xs → get_or xs i 0 < 256
    bytes_below [] i a = omega arith
    bytes_below (x ∷ xs) zero a = a.0
    bytes_below (x ∷ xs) (suc i) a = bytes_below xs i a.1

-- -EAGAIN before anything has been read.
parse_message_error_example :
    (max_buffer_size < (counted small (u32_mod - 11)).num_read)
    × (parse_message clone_any 4 small (u32_mod - 11)
        ≡ process_data_for_connection clone_any 4 (read_header (counted small (u32_mod - 11))))
parse_message_error_example = parse_message_error clone_any 4 small 11 (omega arith) (omega arith)

abbrev command_nine : FeConnection
command_nine = record small { hdr = record { cmd = 9; ipversion = 4 } }

process_data_for_connection-Dispatched_example :
    Dispatched clone_any 4 9 command_nine (process_data_for_connection clone_any 4 command_nine)
process_data_for_connection-Dispatched_example =
    process_data_for_connection-Dispatched clone_any 4 command_nine

init-Holds : Holds [] be_fe_conn_init
unfolding be_fe_conn_init
init-Holds = record { sized = length-replicate {A = ℕ} 2049 0; count = refl; front = refl }

-- The message in two parts.
daemon-Ends_example :
    Ends clone_none 4 []
      ((3 ∷ 4 ∷ 32 ∷ []) ∷ (31 ∷ 252 ∷ 10 ∷ 0 ∷ 144 ∷ 31 ∷ 4 ∷ 0 ∷ 65 ∷ []) ∷ [])
      be_fe_conn_init
      0
daemon-Ends_example =
    daemon-Ends clone_none 4
      ((3 ∷ 4 ∷ 32 ∷ []) ∷ (31 ∷ 252 ∷ 10 ∷ 0 ∷ 144 ∷ 31 ∷ 4 ∷ 0 ∷ 65 ∷ []) ∷ []) [] be_fe_conn_init
      0 init-Holds (inl (omega arith, omega arith))

-- The message for a new connection has come.
abbrev commanded : FeConnection
commanded = record be_fe_conn_init { buffer = message ++ replicate 2037 0; num_read = 12 }

commanded-Holds : Holds message commanded
commanded-Holds = record {
  sized =
      length-append message (replicate 2037 0)
      ∙ ap (λ (n : ℕ). 12 + n) (length-replicate {A = ℕ} 2037 0);
  count = refl;
  front = refl;
}

-- Two more reads, with 4 bytes to come.
daemon_repeats_example :
    (wire_len message < 1500 → Repeated clone_none 1500 ((1 ∷ 2 ∷ []) ∷ (3 ∷ []) ∷ []) commanded 1)
    × (1500 ≤ wire_len message
        → clone_none (char_to_pointer 65) ≡ bad_address
        → 0 < 2
        → be_fe_connection_daemon clone_none 1500
            (record { conn = commanded; hooks = 1 })
            (got (1 ∷ 2 ∷ []) ∷ got (3 ∷ []) ∷ [])
          ≡ broken crashed)
daemon_repeats_example =
    daemon_repeats clone_none 1500 ((1 ∷ 2 ∷ []) ∷ (3 ∷ []) ∷ []) message commanded 1
      commanded-Holds (record { twelve = omega arith; new = refl }) (omega arith)

-- The kernel's two list functions.
abbrev pub kernel_lists : ListHead
kernel_lists = record {
  list_add = λ new head l. record {
    next = update (update l.next new (l.next head)) head new;
    prev = update (update l.prev (l.next head) new) new head;
  };
  list_del = λ entry l. record {
    next = update l.next (l.prev entry) (l.next entry);
    prev = update l.prev (l.next entry) (l.prev entry);
  };
  next-list_add = λ new head l n. refl;
  next-list_del = λ entry l x n. refl;
  prev-list_del = λ entry l x n. refl;
}

-- A server with its list's head at 1, before any connection.
abbrev pub idle : BeServer
idle = record {
  fe_connections_list = 1;
  num_fe_connections = 0;
  links = record { next = λ x. x; prev = λ x. x };
  threads = [];
}

-- Two front ends connect, with an error between them.
abbrev pub calls : Calls
calls = record { sock = 9; create_error = 0; bind_error = 0; listen_error = 0 }

abbrev pub be : Listening
be = record { listener = none; running = false; open_socks = []; server = idle }

abbrev pub accepts : List (Option ℕ)
accepts = some 2 ∷ none ∷ some 3 ∷ []

-- The command, the version, 10.252.31.32, port 8080 and the length 4.
read_header-laid_out_example :
    ((read_header small).hdr ≡ record { cmd = 0; ipversion = 4 })
    × (((read_header small).ipv4hdr.ipaddress ≡ 0x0afc_1f20) ↔ (
        (0x0afc_1f20 % 256 < 128)
        × (0x0afc_1f20 / 256 % 256 < 128)
        × (0x0afc_1f20 / 256 / 256 % 256 < 128)))
    × (((read_header small).ipv4hdr.port ≡ 8080) ↔ (8080 % 256 < 128))
    × (((read_header small).ipv4hdr.len ≡ 4) ↔ (4 % 256 < 128))
    × (11 ≡ hdr_size + ipv4_hdr_size + 1)
read_header-laid_out_example =
    read_header-laid_out small (record { cmd = 0; ipversion = 4 })
      (record { ipaddress = 0x0afc_1f20; port = 8080; len = 4 }) 0 (65 ∷ [])
      (record {
        cmd = omega arith;
        ipversion = omega arith;
        ipaddress = omega arith;
        port = omega arith;
        len = omega arith;
      })
      message-IsBytes refl
