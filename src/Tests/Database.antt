-- ===== src/Tests/Database.antt =====
-- DB_module at runs of the pools.
use pet_project.Base.{ℕ, ◌≡◌, ◌↔◌, ◌≤◌, ◌+◌, refl, true, false, [], ◌∷◌, arith, ◌==◌}
use pet_project.Base.{not, Bool, ◌<◌}
use pet_project.Database.Connect.{make_connections}
use pet_project.Database.Connect.Established.{AreOk, IsReached, make_connections-AreOk}
use pet_project.Database.Pool.{
  idle, wanting, using, Pool, pull_connection, pulled, exec_command, Step, asked, task_taken,
  connection_pulled, Reach, here, next, times, connections, tasks,
}
use pet_project.Database.Pool.Conservation.{all_requested, Reach-tasks, used_alone}

-- Two connections, two threads and no task.
abbrev start : Pool
start = record {
  conns_deque = 1 ∷ 2 ∷ [];
  task_deque = [];
  workers = idle ∷ idle ∷ [];
  done = false;
  finished = [];
  lost = [];
}

abbrev with_task : Pool
with_task = record start { task_deque = 7 ∷ [] }

abbrev with_worker : Pool
with_worker = record start { workers = wanting 7 ∷ idle ∷ [] }

abbrev at_work : Pool
at_work = record start { conns_deque = 2 ∷ []; workers = using 1 7 ∷ idle ∷ [] }

pull_first : pull_connection (λ _. true) (λ _. true) (1 ∷ 2 ∷ []) ≡ pulled 1 (2 ∷ [])
unfolding pull_connection
pull_first = refl

-- A command is asked for, taken by the first worker, and given the first connection.
asked-Step : Step start with_task
unfolding exec_command
asked-Step = asked 7 true refl

taken-Step : Step with_task with_worker
taken-Step = task_taken [] (idle ∷ []) 7 [] refl refl refl refl

pulled-Step : Step with_worker at_work
pulled-Step =
    connection_pulled [] (idle ∷ []) 7 1 (2 ∷ []) (λ _. true) (λ _. true) refl pull_first refl

start-Reach : Reach start at_work
start-Reach = next (next (next here asked-Step) taken-Step) pulled-Step

at_most_one : (a : ℕ) → connections a start ≤ 1
at_most_one a = ground arith

Reach-tasks_example : tasks 7 at_work ≡ times 7 (all_requested start-Reach) + tasks 7 start
Reach-tasks_example = Reach-tasks 7 start-Reach

used_alone_example : (times 1 (2 ∷ []) ≡ 0) × (times 1 [] ≡ 0) × (times 1 [] ≡ 0) × (times 1 [] ≡ 0)
used_alone_example = used_alone [] (idle ∷ []) 1 7 at_most_one start-Reach refl

-- The first attempt of each future fails.
abbrev second_time : ℕ → ℕ → ℕ × Bool
second_time i j = (i, not (j == 0))

make_connections-AreOk_example :
    AreOk second_time (make_connections 2 second_time).conns_deque
    × ((make_connections 2 second_time).conns_established ≤ 2)
    × (((make_connections 2 second_time).conns_established ≡ 2)
        ↔ ((k : ℕ) → k < 2 → IsReached second_time k))
make_connections-AreOk_example = make_connections-AreOk 2 second_time
