-- ===== src/Database/Pool/Runs.antt =====
-- The pools: runs of a worker with its command and its connection.
use pet_project.Base.{ℕ, ◌≡◌, refl, sym, ap, ◌∙◌, List, [], ◌∷◌, ◌++◌, arith, true}
use pet_project.Database.Pool.{
  Worker, idle, wanting, using, returning, Pool, pull_connection, push_connection, Step,
  connection_pulled, task_finished, connection_returned, Reach, here, next, times, tasks,
}
use pet_project.Database.Pool.Conservation.{requested, Step-tasks}

-- A run without a new command, in which no command is lost.
abbrev pub Runs : Pool → Pool → Type 0
Runs s t = Reach s t × ((a : ℕ) → tasks a t ≡ tasks a s)

pub Runs-here : (s : Pool) → Runs s s
Runs-here s = (here, λ a. refl)

pub Runs-Step : {s t u : Pool} → Runs s t → (st : Step t u) → requested st ≡ [] → Runs s u
Runs-Step (r, h) st e = (next r st, λ a. ground (arith, Step-tasks a st, h a, ap (times a) e))

Reach-append : {s t u : Pool} → Reach s t → Reach t u → Reach s u
Reach-append r here = r
Reach-append r (next q st) = next (Reach-append r q) st

pub Runs-append : {s t u : Pool} → Runs s t → Runs t u → Runs s u
Runs-append (r, h) (q, k) = (Reach-append r q, λ a. k a ∙ h a)

module _ (s : Pool) (pre post : List Worker) where
  -- The state in which a worker has returned its connection.
  abbrev pub with_connection : ℕ → Pool
  with_connection c = record s { conns_deque = c ∷ s.conns_deque; workers = pre ++ idle ∷ post }

  pub return_connection :
      (c : ℕ) → s.workers ≡ pre ++ returning c ∷ post → Runs s (with_connection c)
  unfolding push_connection
  return_connection c w = Runs-Step (Runs-here s) (connection_returned pre post c w refl) refl

  -- The same, after the command has been finished.
  abbrev pub with_command : ℕ → ℕ → Pool
  with_command c k = record s {
    conns_deque = c ∷ s.conns_deque;
    workers = pre ++ idle ∷ post;
    finished = k ∷ s.finished;
  }

  pub finish_command : (c k : ℕ) → s.workers ≡ pre ++ using c k ∷ post → Runs s (with_command c k)
  unfolding push_connection
  finish_command c k w =
      Runs-Step (Runs-Step (Runs-here s) (task_finished pre post c k w refl) refl)
        (connection_returned pre post c refl refl) refl

  -- A worker with a command gets the first connection, and returns it.
  abbrev pub after_command : ℕ → Pool
  after_command k = record s { workers = pre ++ idle ∷ post; finished = k ∷ s.finished }

  pub run_command :
      (k c : ℕ) (rest : List ℕ)
      → s.workers ≡ pre ++ wanting k ∷ post
      → s.conns_deque ≡ c ∷ rest
      → (t : Pool) × Runs s t × (t ≡ after_command k)
  unfolding push_connection pull_connection
  run_command k c rest w d = (
    _,
    Runs-Step
        (Runs-Step
          (Runs-Step (Runs-here s)
            (connection_pulled pre post k c rest (λ _. true) (λ _. true) w
              (ap (pull_connection (λ _. true) (λ _. true)) d) refl)
            refl)
          (task_finished pre post c k refl refl) refl)
        (connection_returned pre post c refl refl) refl,
    ap (λ cs. record (after_command k) { conns_deque = cs }) (sym d),
  )
