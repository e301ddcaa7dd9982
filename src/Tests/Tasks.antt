-- ===== src/Tests/Tasks.antt =====
-- Two requests to one authority that run at the same time, over the plugins of Sessions.
use navar.Base.{ℕ, ◌≤◌, ◌≡◌, refl, List, arith}
use navar.Pool.Once.{insertions, Served}
use navar.Pool.Tasks.Alone.{alone, Ends, alone-handle}
use navar.Pool.Tasks.Deadlock.{Stuck, threads_deadlock}
use navar.Pool.Tasks.Progress.{Reach-ends, Runs, AllEnded}
use navar.Pool.Steady.{Steady}
use navar.Pool.Tasks.Serial.{Distinct, serially, Accounted}
use navar.Pool.Tasks.Serial.Runs.{Reach-serially}
use navar.Pool.Tasks.Safety.{Reach-once}
use navar.Pool.Tasks.{
  begun, can_run, on_call, on_lock, on_connected, on_shaken, advance, System, with_task, runs,
  start, Reach, starts, steps,
}
use navar.Pool.{new, handle}
use navar.Tests.Data.{boxes}
use navar.Tests.Sessions.{map, plugins, keep}

-- All authorities lie in one shard.
abbrev one_shard : ℕ → ℕ
one_shard a = 0

abbrev to_three : ℕ → ℕ
to_three i = 3

abbrev Tasks : Type 0
Tasks = System boxes keep map plugins one_shard

abbrev run_task : ℕ → Tasks → Tasks
run_task i s =
    with_task boxes keep map plugins one_shard s i
      (advance boxes keep map plugins one_shard i s.shared (s.tasks i))

abbrev on_start : Tasks
on_start = start boxes keep map plugins one_shard 3 to_three

-- The first request has the entry, and the second waits for it.
abbrev waiting : Tasks
waiting = run_task 1 (run_task 0 (run_task 0 on_start))

abbrev Reaches : Tasks → Type 0
Reaches = Reach boxes keep map plugins one_shard 3 2 to_three

waiting_reached : Reaches waiting
unfolding can_run advance on_call on_lock new
waiting_reached =
    steps (steps (steps starts (runs 0 (omega arith) refl)) (runs 0 (omega arith) refl))
      (runs 1 (omega arith) refl)

-- The first request has a session, and the second finds it.
abbrev shared_session : Tasks
shared_session = run_task 1 (run_task 0 (run_task 0 waiting))

shared_session_reached : Reaches shared_session
unfolding can_run advance on_call on_lock on_connected on_shaken new
shared_session_reached =
    steps (steps (steps waiting_reached (runs 0 (omega arith) refl)) (runs 0 (omega arith) refl))
      (runs 1 (omega arith) refl)

Reach-once_example :
    (insertions map plugins 3 shared_session.shared.service.log ≤ 1)
    × Served map plugins shared_session.shared.service.pool shared_session.shared.service.log
Reach-once_example = Reach-once boxes keep map plugins one_shard shared_session_reached 3

Reach-ends_example :
    (t : Tasks) × Runs boxes keep map plugins one_shard 2 waiting t
    × AllEnded boxes keep map plugins one_shard 2 t
Reach-ends_example = Reach-ends boxes keep map plugins one_shard (omega arith) waiting_reached

threads_deadlock_example :
    (s : Tasks) × Reach boxes keep map plugins one_shard 2 3 to_three s
    × ((i : ℕ) → i ≤ 2 → Stuck boxes keep map plugins one_shard s i)
threads_deadlock_example =
    threads_deadlock boxes keep map plugins one_shard 2 to_three to_three (λ i. refl) (omega arith)
      (λ i. refl)

alone-handle_example :
    Ends boxes keep map plugins one_shard
      (alone boxes keep map plugins one_shard 5 0 (on_start.shared, begun 3))
      (handle boxes keep map plugins 3 on_start.shared.service)
alone-handle_example =
    alone-handle boxes keep map plugins one_shard 0 on_start.shared 3 (λ x. refl) (omega arith)

Steady-plugins : Steady plugins
Steady-plugins = record {
  connects = λ log u. refl;
  shakes = λ log c. refl;
  answers = λ log s q. refl;
}

-- The second request is answered before the first, whose session it uses.
abbrev answered_second : Tasks
answered_second = run_task 1 shared_session

answered_second_reached : Reaches answered_second
unfolding can_run advance on_call on_lock on_connected on_shaken new
answered_second_reached = steps shared_session_reached (runs 1 (omega arith) refl)

Reach-serially_example :
    (order : List ℕ) × Distinct order
    × ((serially boxes keep map plugins one_shard to_three order).pool
        ≡ answered_second.shared.service.pool)
    × ((i : ℕ)
        → Accounted boxes keep map plugins one_shard to_three order i (answered_second.tasks i))
Reach-serially_example =
    Reach-serially boxes keep map plugins one_shard to_three Steady-plugins answered_second_reached
