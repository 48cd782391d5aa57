-- ===== src/Database/Shutdown.antt =====
-- DB_module/src/DB_module.cpp: thread_pool::worker_thread, down to the wait for the condition
-- variable, together with the destructor and push_task_back. Spurious wake-ups, which the standard
-- allows and does not promise, are left out.
pub mod LostWakeup
use pet_project.Base.{
  ℕ, zero, suc, ◌+◌, ◌-◌, ◌≡◌, Bool, true, false, Option, none, some, List, [], ◌∷◌, ◌++◌, ltb, All,
  replicate, if◌then◌else◌,
}

-- A worker is at its loop's test, waits for the mutex to look at the tasks, has found none and still
-- has the mutex, is blocked in the wait, runs a task, or has left its loop.
pub data Worker : Type 0 where
  at_loop locking checked blocked running out : Worker

pub data Destructor : Type 0 where
  before done_set joining returned : Destructor

pub record ThreadPool : Type 0 where
  pub done : Bool
  -- task_deque.size()
  pub tasks : ℕ
  pub workers : List Worker
  pub destructor : Destructor

-- What a worker does next, and the number of tasks after it; `none` if it waits, or has returned.
unfoldable pub worker_step : Bool → ℕ → Worker → Option (Worker × ℕ)
worker_step done tasks at_loop = some (if done then out else locking, tasks)
worker_step done tasks locking = some (
    if done then (out, tasks) else (if ltb 0 tasks then (running, tasks - 1) else (checked, tasks)))
worker_step done tasks checked = some (blocked, tasks)
worker_step done tasks blocked = none
worker_step done tasks running = some (at_loop, tasks)
worker_step done tasks out = none

-- data_cond.notify_all()
abbrev pub notify : Worker → Worker
notify blocked = locking
notify w = w

abbrev pub notify_all : List Worker → List Worker
notify_all [] = []
notify_all (w ∷ ws) = notify w ∷ notify_all ws

-- data_cond.notify_one()
abbrev pub notify_one : List Worker → List Worker
notify_one [] = []
notify_one (blocked ∷ ws) = locking ∷ ws
notify_one (w ∷ ws) = w ∷ notify_one ws

-- The worker does not have the mutex.
abbrev pub IsUnlocked : Worker → Type 0
IsUnlocked checked = ⊥
IsUnlocked _ = Unit

abbrev pub IsOut : Worker → Type 0
IsOut out = Unit
IsOut _ = ⊥

-- A worker that looks at the tasks, and a client that adds one, need the mutex; the destructor sets
-- `done` and notifies without it.
pub data Step (s : ThreadPool) (t : ThreadPool) : Type 0 where
  worked :
      (pre post : List Worker) (p q : Worker) (tasks : ℕ)
      → s.workers ≡ pre ++ p ∷ post
      → (p ≡ locking → All IsUnlocked s.workers)
      → worker_step s.done s.tasks p ≡ some (q, tasks)
      → t ≡ record s { tasks = tasks; workers = pre ++ q ∷ post }
      → Step s t
  -- push_task_back, by a client
  pushed :
      s.destructor ≡ before
      → All IsUnlocked s.workers
      → t ≡ record s { tasks = s.tasks + 1; workers = notify_one s.workers }
      → Step s t
  -- ~thread_pool: done = true, notify_all, and the return after every join
  done_stored :
      s.destructor ≡ before → t ≡ record s { done = true; destructor = done_set } → Step s t
  all_notified :
      s.destructor ≡ done_set
      → t ≡ record s { workers = notify_all s.workers; destructor = joining }
      → Step s t
  all_joined :
      s.destructor ≡ joining
      → All IsOut s.workers
      → t ≡ record s { destructor = returned }
      → Step s t

pub data Reach (s : ThreadPool) : ThreadPool → Type 0 where
  here : Reach s s
  next : {t u : ThreadPool} → Reach s t → Step t u → Reach s u

-- A pool with `n` threads
abbrev pub new_pool : ℕ → ThreadPool
new_pool n = record { done = false; tasks = 0; workers = replicate n at_loop; destructor = before }
