-- ===== src/Backend/Handoff/Dispatch.antt =====
-- Which handler a command gets.
use tcphandoff.Common.{
  ℕ, zero, suc, ◌≤◌, ◌<◌, ◌≡◌, refl, ◌∙◌, ◌⊎◌, inl, inr, ◌∷◌, arith, ◌==◌, if◌then◌else◌, lt→ltb,
}
use tcphandoff.Backend.{FeConnection}
use tcphandoff.Backend.Handoff.{
  SkClone, Call, handled, wild, handoff_conn_init, new_conn, modify_conn, rx_on_conn, remove_conn,
  cmd_table_size, process_data_for_connection, process_command, refused,
}

-- The first and the last of the four commands.
abbrev pub new : ℕ
new = 0

abbrev pub remove : ℕ
remove = 3

-- What becomes of a command.
abbrev pub Dispatched : SkClone → ℕ → ℕ → FeConnection → Call → Type 0
Dispatched sk_clone size cmd conn result =
    (cmd ≡ new → result ≡ new_conn sk_clone size conn)
    × (0 < cmd → cmd ≤ remove → result ≡ handled (refused conn))
    × (remove < cmd → cmd < cmd_table_size → result ≡ wild)
    × (cmd_table_size ≤ cmd → result ≡ handled (refused conn))

process_command-Dispatched :
    (sk_clone : SkClone) (size cmd : ℕ) (conn : FeConnection)
    → Dispatched sk_clone size cmd conn (process_command sk_clone size cmd conn)
unfolding process_command modify_conn rx_on_conn remove_conn
process_command-Dispatched sk_clone size zero conn =
    (λ e. refl, λ l h. absurd (omega arith), λ l h. absurd (omega arith), λ l. absurd (omega arith))
process_command-Dispatched sk_clone size (suc zero) conn =
    (λ e. absurd (omega arith), λ l h. refl, λ l h. absurd (omega arith), λ l. absurd (omega arith))
process_command-Dispatched sk_clone size (suc (suc zero)) conn =
    (λ e. absurd (omega arith), λ l h. refl, λ l h. absurd (omega arith), λ l. absurd (omega arith))
process_command-Dispatched sk_clone size (suc (suc (suc zero))) conn =
    (λ e. absurd (omega arith), λ l h. refl, λ l h. absurd (omega arith), λ l. absurd (omega arith))
process_command-Dispatched sk_clone size (suc (suc (suc (suc n)))) conn = (
  λ e. absurd (omega arith),
  λ l h. absurd (omega arith),
  λ l h. rw (lt→ltb _ _ h) refl,
  λ l. ground arith,
)

-- Of the commands that a message names, 0 is that for a new connection, 1 to 3 change nothing and
-- fail, of 4 to 31 a word past the end of the table is called, and all others change nothing and fail.
pub process_data_for_connection-Dispatched :
    (sk_clone : SkClone) (size : ℕ) (conn : FeConnection)
    → Dispatched sk_clone size conn.hdr.cmd conn (process_data_for_connection sk_clone size conn)
unfolding process_data_for_connection
process_data_for_connection-Dispatched sk_clone size conn =
    process_command-Dispatched sk_clone size conn.hdr.cmd conn

-- Commands that change nothing: those within the table but for the first, and those that are refused.
abbrev pub IsTame : ℕ → Type 0
IsTame cmd = ((new < cmd) × (cmd ≤ remove)) ⊎ (cmd_table_size ≤ cmd)

-- The command of `conn` changes nothing, or is for a new connection with too little data for a socket.
abbrev pub Calm : ℕ → FeConnection → ℕ → Type 0
Calm size conn cmd = IsTame cmd ⊎ ((cmd ≡ new) × (conn.ipv4hdr.len < size))

-- What calm commands do to the connection.
abbrev pub after_command : ℕ → FeConnection → FeConnection
after_command cmd conn =
    if cmd == new
    then record conn { handoff_conn_list = handoff_conn_init ∷ conn.handoff_conn_list }
    else conn

new_conn_short :
    (sk_clone : SkClone) (size : ℕ) (conn : FeConnection)
    → conn.ipv4hdr.len < size
    → new_conn sk_clone size conn ≡ handled (refused (after_command new conn))
unfolding new_conn
new_conn_short sk_clone size conn l = rw (lt→ltb _ _ l) refl

pub process_command_harmless :
    (sk_clone : SkClone) (size cmd : ℕ) (conn : FeConnection)
    → Calm size conn cmd
    → process_command sk_clone size cmd conn ≡ handled (refused (after_command cmd conn))
process_command_harmless sk_clone size cmd conn (inr (e, l)) = rw e (
    (process_command-Dispatched sk_clone size new conn).0 refl
    ∙ new_conn_short sk_clone size conn l)
process_command_harmless sk_clone size cmd conn (inl (inl (p, l))) =
    (process_command-Dispatched sk_clone size cmd conn).1 p l ∙ ground arith
process_command_harmless sk_clone size cmd conn (inl (inr l)) =
    (process_command-Dispatched sk_clone size cmd conn).3 l ∙ ground arith

pub process_data_for_connection_harmless :
    (sk_clone : SkClone) (size : ℕ) (conn : FeConnection)
    → Calm size conn conn.hdr.cmd
    → process_data_for_connection sk_clone size conn
      ≡ handled (refused (after_command conn.hdr.cmd conn))
unfolding process_data_for_connection
process_data_for_connection_harmless sk_clone size conn t =
    process_command_harmless sk_clone size conn.hdr.cmd conn t
