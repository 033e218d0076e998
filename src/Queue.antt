-- ===== src/Queue.antt =====
-- crates/bitfold-peer/src/command_queue.rs, and the part of crates/bitfold-peer/src/peer/mod.rs that
-- fills and drains it.
use bitfold.Prelude.{
  ℕ, ◌+◌, ◌≤◌, ◌≡◌, Bool, false, List, [], ◌∷◌, ◌++◌, ◌&&◌, arith, length, ltb, leb, if◌then◌else◌,
  ◌⊎◌,
}
use bitfold.Core.Config.{Config}
use bitfold.Command.{
  ProtocolCommand, send_reliable, send_unreliable, send_unreliable_sequenced, send_unsequenced,
  send_fragment, send_unreliable_fragment,
}

pub record CommandQueue : Type 0 where
  pub commands : List ProtocolCommand
  pub max_queue_size : ℕ

unfoldable pub new_queue : ℕ → CommandQueue
new_queue capacity = record { commands = []; max_queue_size = capacity }

-- Whether the queue should be flushed, and the queue.
unfoldable pub enqueue : CommandQueue → ProtocolCommand → Bool × CommandQueue
enqueue q command =
    let commands = q.commands ++ command ∷ [] in
    (leb q.max_queue_size (length commands), record q { commands = commands })

unfoldable pub drain : CommandQueue → List ProtocolCommand × CommandQueue
drain q = (q.commands, record q { commands = [] })

unfoldable pub clear : CommandQueue → CommandQueue
clear q = record q { commands = [] }

-- The fields `command_queue` and `total_waiting_data` of a `Peer`.
pub record Waiting : Type 0 where
  pub command_queue : CommandQueue
  pub total_waiting_data : ℕ

unfoldable pub command_data_size : ProtocolCommand → ℕ
command_data_size (send_reliable _ _ _ d) = d.len
command_data_size (send_unreliable _ d) = d.len
command_data_size (send_unreliable_sequenced _ _ d) = d.len
command_data_size (send_unsequenced _ _ d) = d.len
command_data_size (send_fragment _ _ _ _ _ d) = d.len
command_data_size (send_unreliable_fragment _ _ _ _ d) = d.len
command_data_size _ = 0

-- A command that would exceed the limit is dropped.
unfoldable pub enqueue_command : Config → Waiting → ProtocolCommand → Bool × Waiting
unfolding enqueue
enqueue_command config w command =
    let new_total = w.total_waiting_data + command_data_size command in
    if ltb 0 config.max_waiting_data && ltb config.max_waiting_data new_total
    then (false, w)
    else let (flush, q) = enqueue w.command_queue command in
      (flush, record { command_queue = q; total_waiting_data = new_total })

unfoldable pub drain_commands : Waiting → List ProtocolCommand × Waiting
unfolding drain
drain_commands w =
    let (commands, q) = drain w.command_queue in
    (commands, record { command_queue = q; total_waiting_data = 0 })

abbrev pub data_size : List ProtocolCommand → ℕ
data_size [] = 0
data_size (c ∷ cs) = command_data_size c + data_size cs

-- The counter is the size of the queued payloads, and does not exceed the limit, if there is one.
pub record IsCounted (config : Config) (w : Waiting) : Type 0 where
  pub counter : w.total_waiting_data ≡ data_size w.command_queue.commands
  pub bounded : (config.max_waiting_data ≡ 0) ⊎ (w.total_waiting_data ≤ config.max_waiting_data)

pub data_size-append :
    (cs : List ProtocolCommand) (c : ProtocolCommand)
    → data_size (cs ++ c ∷ []) ≡ data_size cs + command_data_size c
data_size-append [] c = omega arith
data_size-append (x ∷ cs) c = omega (arith, data_size-append cs c)

-- Queueing keeps the waiting-data counter equal to the size of the queued payloads and within the
-- limit, and draining empties the queue and resets the counter.
pub enqueue_command-IsCounted :
    (config : Config) (w : Waiting) (c : ProtocolCommand)
    → IsCounted config w
    → IsCounted config (enqueue_command config w c).1
      × IsCounted config (drain_commands w).1
      × ((drain_commands w).0 ≡ w.command_queue.commands)
      × ((drain_commands w).1.command_queue.commands ≡ [])
unfolding enqueue_command drain_commands
enqueue_command-IsCounted config w c v =
    ground (arith, data_size-append w.command_queue.commands c, v.bounded)
