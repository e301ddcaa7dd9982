-- ===== src/Tests/Shared.antt =====
-- Two requests over one HTTP/1 session, of which the first is dropped while it awaits its answer.
use navar.Base.{ℕ, ◌≡◌, ◌↔◌, refl, true, some, ok}
use navar.Hyper.Shared.Turns.{is_answering, in_flight, TakesTurns, Reach-TakesTurns}
use navar.Hyper.Shared.{
  Session, on_locked, on_ready, on_drop, with_task, locks, readies, drops, start, Reach, starts,
  steps,
}

abbrev Tasks : Type 0
Tasks = Session ℕ ℕ ℕ

abbrev at_start : Tasks
at_start = start (λ i. i)

abbrev first_locked : Tasks
first_locked = with_task at_start 0 (on_locked 0 0 at_start.sender)

abbrev first_sent : Tasks
first_sent = with_task first_locked 0 (on_ready 0 0 first_locked.sender (ok tt))

abbrev first_dropped : Tasks
first_dropped = with_task first_sent 0 (on_drop 0 first_sent.sender (first_sent.tasks 0))

abbrev second_locked : Tasks
second_locked = with_task first_dropped 1 (on_locked 1 1 first_dropped.sender)

abbrev second_sent : Tasks
second_sent = with_task second_locked 1 (on_ready 1 1 second_locked.sender (ok tt))

reached : Reach (λ i. i) second_sent
unfolding on_locked on_ready on_drop
reached =
    steps
      (steps
        (steps (steps (steps starts (locks 0 0 refl refl)) (readies 0 0 (ok tt) refl)) (drops 0))
        (locks 1 1 refl refl))
      (readies 1 1 (ok tt) refl)

Reach-TakesTurns_example :
    TakesTurns second_sent.sender.calls
    × ((is_answering (second_sent.tasks 1) ≡ true) ↔ (in_flight second_sent.sender.calls ≡ some 1))
Reach-TakesTurns_example = Reach-TakesTurns reached 1
