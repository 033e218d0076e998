-- ===== src/Peer/Encode/Requeue.antt =====
-- The commands that were not selected go back into the queue.
use bitfold.Prelude.{
  ℕ, ◌+◌, ◌≤◌, ◌≡◌, refl, ◌⊎◌, List, [], ◌∷◌, ◌++◌, arith, append-nil, append_assoc, ap, sym, ◌∙◌,
}
use bitfold.Core.Float.{Float}
use bitfold.Core.Config.{Config}
use bitfold.Command.{ProtocolCommand}
use bitfold.Queue.{Waiting, enqueue, enqueue_command, command_data_size, data_size}
use bitfold.Peer.{Peer, enqueue_command_peer}
use bitfold.Peer.Encode.{requeue}

-- The queue with more commands behind it.
abbrev pub extended : Waiting → List ProtocolCommand → Waiting
extended w cs = record {
  command_queue = record w.command_queue { commands = w.command_queue.commands ++ cs };
  total_waiting_data = w.total_waiting_data + data_size cs;
}

-- There is room for that much data.
abbrev pub HasRoom : Config → Waiting → ℕ → Type 0
HasRoom config w size =
    (config.max_waiting_data ≡ 0) ⊎ (w.total_waiting_data + size ≤ config.max_waiting_data)

pub enqueue_command-extended :
    (config : Config) (w : Waiting) (c : ProtocolCommand)
    → HasRoom config w (command_data_size c)
    → (enqueue_command config w c).1 ≡ extended w (c ∷ [])
unfolding enqueue_command enqueue
enqueue_command-extended config w c room = ground arith

extended-nil : (w : Waiting) → extended w [] ≡ w
extended-nil w =
    let same : w.total_waiting_data + 0 ≡ w.total_waiting_data = omega arith in
    rw (append-nil w.command_queue.commands, same) refl

extended-extended :
    (w : Waiting) (c : ProtocolCommand) (cs : List ProtocolCommand)
    → extended (extended w (c ∷ [])) cs ≡ extended w (c ∷ cs)
extended-extended w c cs =
    let same : w.total_waiting_data + (command_data_size c + 0) + data_size cs
        ≡ w.total_waiting_data + (command_data_size c + data_size cs) =
      omega arith in
    rw (append_assoc w.command_queue.commands, same) refl

module _ {float : Float} where
  -- Commands that there is room for are queued again, all of them and in order.
  pub requeue-extended :
      (p : Peer float) (cs : List ProtocolCommand)
      → HasRoom p.config p.waiting (data_size cs)
      → requeue p cs ≡ record p { waiting = extended p.waiting cs }
  unfolding requeue enqueue_command_peer
  requeue-extended p [] room =
      ap (λ (w : Waiting). record p { waiting = w }) (sym (extended-nil p.waiting))
  requeue-extended p (c ∷ cs) room =
      let w = p.waiting in
      let e = enqueue_command-extended p.config w c (ground (arith, room)) in
      rw e (
        requeue-extended (record p { waiting = extended w (c ∷ []) }) cs (ground (arith, room))
        ∙ ap (λ (w : Waiting). record p { waiting = w }) (extended-extended w c cs))
