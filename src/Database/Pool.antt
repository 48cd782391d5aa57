-- ===== src/Database/Pool.antt =====
-- DB_module/src/DB_module.cpp and include/DB_module.h: connection_pool, thread_pool and
-- DB_module::exec_command. The threads interleave at their steps under the two mutexes; connections
-- and tasks are numbers. libpq is the oracle that says whether a connection is in order.
pub mod Conservation
pub mod Starvation
pub mod Order
pub mod Service
pub mod Runs
pub mod Progress
pub mod Live
use pet_project.Base.{ℕ, ◌+◌, ◌≡◌, Bool, true, false, List, [], ◌∷◌, ◌++◌, if◌then◌else◌, ◌==◌}

-- A worker waits for a task, tries to pull a connection for one, uses a connection, has set the
-- task's promise and still has the connection, or has left its loop.
pub data Worker : Type 0 where
  idle : Worker
  wanting : ℕ → Worker
  using : ℕ → ℕ → Worker
  returning : ℕ → Worker
  exited : Worker

-- `finished` lists the tasks whose promises have been set, and `lost` the connections that a pull
-- took from the deque and did not return: nothing points to them any more.
pub record Pool : Type 0 where
  pub conns_deque : List ℕ
  pub task_deque : List ℕ
  pub workers : List Worker
  pub done : Bool
  pub finished : List ℕ
  pub lost : List ℕ

-- connection_pool::pull_connection, up to its return: no connection, the first one, or the first one
-- dropped since it is out of order also after PQreset.
pub data Pulled : Type 0 where
  no_connection : Pulled
  pulled dropped : ℕ → List ℕ → Pulled

unfoldable pub pull_connection : (ℕ → Bool) → (ℕ → Bool) → List ℕ → Pulled
pull_connection status reset [] = no_connection
pull_connection status reset (c ∷ cs) =
    if status c then pulled c cs else (if reset c then pulled c cs else dropped c cs)

-- connection_pool::push_connection
unfoldable pub push_connection : ℕ → List ℕ → List ℕ
push_connection c cs = c ∷ cs

-- thread_pool::push_task_back and push_task_front
unfoldable pub push_task_back : ℕ → List ℕ → List ℕ
push_task_back k ks = ks ++ k ∷ []

unfoldable pub push_task_front : ℕ → List ℕ → List ℕ
push_task_front k ks = k ∷ ks

-- DB_module::exec_command: the task goes to the front or to the back.
unfoldable pub exec_command : ℕ → Bool → Pool → Pool
unfolding push_task_back push_task_front
exec_command k front_flag s = record s {
  task_deque = if front_flag then push_task_front k s.task_deque else push_task_back k s.task_deque;
}

-- One step of the client, of a worker, or of the destructor of the thread pool.
pub data Step (s : Pool) (t : Pool) : Type 0 where
  -- a client asks for a command
  asked : (k : ℕ) (front_flag : Bool) → t ≡ exec_command k front_flag s → Step s t
  -- worker_thread: pull_task after the wait
  task_taken :
      (pre post : List Worker) (k : ℕ) (rest : List ℕ)
      → s.done ≡ false
      → s.workers ≡ pre ++ idle ∷ post
      → s.task_deque ≡ k ∷ rest
      → t ≡ record s { task_deque = rest; workers = pre ++ wanting k ∷ post }
      → Step s t
  -- the task's loop: pull_connection fails, and the thread yields
  yielded :
      (pre post : List Worker) (k : ℕ) (status reset : ℕ → Bool)
      → s.workers ≡ pre ++ wanting k ∷ post
      → pull_connection status reset s.conns_deque ≡ no_connection
      → t ≡ s
      → Step s t
  -- the same, and the connection that was out of order is not pushed back
  connection_dropped :
      (pre post : List Worker) (k c : ℕ) (rest : List ℕ) (status reset : ℕ → Bool)
      → s.workers ≡ pre ++ wanting k ∷ post
      → pull_connection status reset s.conns_deque ≡ dropped c rest
      → t ≡ record s { conns_deque = rest; lost = c ∷ s.lost }
      → Step s t
  connection_pulled :
      (pre post : List Worker) (k c : ℕ) (rest : List ℕ) (status reset : ℕ → Bool)
      → s.workers ≡ pre ++ wanting k ∷ post
      → pull_connection status reset s.conns_deque ≡ pulled c rest
      → t ≡ record s { conns_deque = rest; workers = pre ++ using c k ∷ post }
      → Step s t
  -- the command has run: set_value
  task_finished :
      (pre post : List Worker) (c k : ℕ)
      → s.workers ≡ pre ++ using c k ∷ post
      → t ≡ record s { finished = k ∷ s.finished; workers = pre ++ returning c ∷ post }
      → Step s t
  -- push_connection, after which the worker looks for the next task
  connection_returned :
      (pre post : List Worker) (c : ℕ)
      → s.workers ≡ pre ++ returning c ∷ post
      → t ≡ record s { conns_deque = push_connection c s.conns_deque; workers = pre ++ idle ∷ post }
      → Step s t
  -- ~thread_pool
  stopped : t ≡ record s { done = true } → Step s t
  worker_exited :
      (pre post : List Worker)
      → s.done ≡ true
      → s.workers ≡ pre ++ idle ∷ post
      → t ≡ record s { workers = pre ++ exited ∷ post }
      → Step s t

pub data Reach (s : Pool) : Pool → Type 0 where
  here : Reach s s
  next : {t u : Pool} → Reach s t → Step t u → Reach s u

-- The connections that the workers have, and the tasks that they have.
abbrev pub held : List Worker → List ℕ
held [] = []
held (using c k ∷ ws) = c ∷ held ws
held (returning c ∷ ws) = c ∷ held ws
held (idle ∷ ws) = held ws
held (wanting k ∷ ws) = held ws
held (exited ∷ ws) = held ws

abbrev pub taken : List Worker → List ℕ
taken [] = []
taken (using c k ∷ ws) = k ∷ taken ws
taken (wanting k ∷ ws) = k ∷ taken ws
taken (idle ∷ ws) = taken ws
taken (returning c ∷ ws) = taken ws
taken (exited ∷ ws) = taken ws

-- How often `a` occurs.
abbrev pub times : ℕ → List ℕ → ℕ
times a [] = 0
times a (b ∷ bs) = (if a == b then 1 else 0) + times a bs

-- The occurrences of a connection, and of a task, in the whole system.
abbrev pub connections : ℕ → Pool → ℕ
connections a s = times a s.conns_deque + times a (held s.workers) + times a s.lost

abbrev pub tasks : ℕ → Pool → ℕ
tasks a s = times a s.task_deque + times a (taken s.workers) + times a s.finished
