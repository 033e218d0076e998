-- ===== src/Tests/Managers.antt =====
-- A manager at sessions that answer what they receive.
use bitfold.Prelude.{ℕ, suc, ◌/◌, ◌≡◌, refl, inr, List, [], ◌∷◌, Option, none, some, ltb, arith}
use bitfold.Prelude.Map.{lookup, insert, remove}
use bitfold.Core.Config.{default_config}
use bitfold.Session.{send_action}
use bitfold.SessionManager.{
  SessionTrait, SessionManager, new, handle_actions, unestablished_session_count,
  increment_duplicate_count, can_accept_duplicate, receive, receive_unknown, receive_all,
  handle_events,
}
use bitfold.SessionManager.Poll.{
  update_each, update_sessions, collect_drops, drop_each, drop_sessions, poll,
}
use bitfold.SessionManager.Tally.{IsTallied}
use bitfold.SessionManager.Tally.Dropped.{poll-IsTallied}

-- A session counts what it has received, answers it, and ends with the third packet.
abbrev answering : SessionTrait
answering = record {
  Session = ℕ;
  Event = ℕ;
  Random = ℕ;
  address = λ event. event;
  create_session = λ config address time r. 0;
  is_established = λ s. ltb 0 s;
  should_drop = λ s time. (ltb 2 s, []);
  process_packet = λ s payload time r. some (send_action payload ∷ [], suc s);
  process_event = λ s event time r. some ([], s);
  update = λ s time r. some ([], s);
}

abbrev ip : ℕ → ℕ
ip a = a / 10

-- One session for each IP address.
abbrev empty : SessionManager answering
empty = new (record default_config { max_duplicate_peers = 1 })

-- The second address has the IP address of the first, and is refused, but answered.
abbrev received : List (ℕ × Option (List ℕ) × ℕ)
received = (10, some (1 ∷ []), 0) ∷ (11, some (2 ∷ []), 0) ∷ (20, none, 0) ∷ []

abbrev polled : SessionManager answering
polled = record (new (record default_config { max_duplicate_peers = 1 })) {
  sessions = (10, 1) ∷ [];
  pending_sends = (10, 1 ∷ []) ∷ (11, 2 ∷ []) ∷ [];
  duplicate_peer_count = (1, 1) ∷ [];
}

empty-polled : poll ip empty received [] 5 (λ a. 0) ≡ some polled
unfolding new poll receive_all receive receive_unknown handle_actions unestablished_session_count
    can_accept_duplicate increment_duplicate_count handle_events update_sessions update_each
    drop_sessions collect_drops drop_each lookup insert remove
empty-polled = refl

empty-IsTallied : IsTallied ip empty
unfolding new lookup
empty-IsTallied = record { distinct = tt; tally = λ j. refl; limited = inr (λ j. omega arith) }

poll-IsTallied_example : IsTallied ip polled
poll-IsTallied_example =
    poll-IsTallied ip empty polled received [] 5 (λ a. 0) empty-IsTallied empty-polled
