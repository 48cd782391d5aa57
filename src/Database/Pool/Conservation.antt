-- ===== src/Database/Pool/Conservation.antt =====
-- Where connections and tasks are after any steps of the pools.
use pet_project.Base.{ℕ, ◌+◌, ◌≡◌, ◌≤◌, refl, Bool, true, false, List, [], ◌∷◌, ◌++◌, arith, ◌∙◌}
use pet_project.Database.Pool.{
  Worker, idle, wanting, using, returning, exited, Pool, pulled, dropped, pull_connection,
  push_connection, push_task_back, push_task_front, exec_command, Step, asked, task_taken, yielded,
  connection_dropped, connection_pulled, task_finished, connection_returned, stopped, worker_exited,
  Reach, here, next, held, taken, times, connections, tasks,
}

pub times-append :
    (a : ℕ) (before behind : List ℕ) → times a (before ++ behind) ≡ times a before + times a behind
times-append a [] behind = omega arith
times-append a (b ∷ before) behind = omega (arith, times-append a before behind)

pub held-append :
    (a : ℕ) (ws vs : List Worker)
    → times a (held (ws ++ vs)) ≡ times a (held ws) + times a (held vs)
held-append a [] vs = omega arith
held-append a (idle ∷ ws) vs = held-append a ws vs
held-append a (exited ∷ ws) vs = held-append a ws vs
held-append a (wanting k ∷ ws) vs = held-append a ws vs
held-append a (using c k ∷ ws) vs = omega (arith, held-append a ws vs)
held-append a (returning c ∷ ws) vs = omega (arith, held-append a ws vs)

pub taken-append :
    (a : ℕ) (ws vs : List Worker)
    → times a (taken (ws ++ vs)) ≡ times a (taken ws) + times a (taken vs)
taken-append a [] vs = omega arith
taken-append a (idle ∷ ws) vs = taken-append a ws vs
taken-append a (returning c ∷ ws) vs = taken-append a ws vs
taken-append a (exited ∷ ws) vs = taken-append a ws vs
taken-append a (wanting k ∷ ws) vs = omega (arith, taken-append a ws vs)
taken-append a (using c k ∷ ws) vs = omega (arith, taken-append a ws vs)

pull_cases :
    (a : ℕ) (status reset : ℕ → Bool) (cs : List ℕ) (c : ℕ) (rest : List ℕ)
    → (pull_connection status reset cs ≡ pulled c rest → times a cs ≡ times a (c ∷ rest))
      × (pull_connection status reset cs ≡ dropped c rest → times a cs ≡ times a (c ∷ rest))
unfolding pull_connection
pull_cases a status reset [] c rest = (λ e. absurd (ground arith), λ e. absurd (ground arith))
pull_cases a status reset (d ∷ cs) c rest = (λ e. ground arith, λ e. ground arith)

-- How often a task or a connection occurs.
pub ruleset counting = (arith, times-append, taken-append, held-append)

Step-connections : {s t : Pool} (a : ℕ) → Step s t → connections a t ≡ connections a s
unfolding exec_command push_connection
Step-connections a (asked k f e) = ground arith
Step-connections {s} {t} a (task_taken pre post k rest d w q e) = grind counting
Step-connections a (yielded pre post k st re w p e) = ground arith
Step-connections {s} {t} a (connection_dropped pre post k c rest st re w p e) =
    ground (arith, (pull_cases a st re s.conns_deque c rest).1 p)
Step-connections {s} {t} a (connection_pulled pre post k c rest st re w p e) =
    grind (counting, (pull_cases a st re s.conns_deque c rest).0 p)
Step-connections a (task_finished pre post c k w e) = grind counting
Step-connections a (connection_returned pre post c w e) = grind counting
Step-connections a (stopped e) = ground arith
Step-connections a (worker_exited pre post d w e) = grind counting

-- The command that a step asks for, if it is one of the client's.
abbrev pub requested : {s t : Pool} → Step s t → List ℕ
requested (asked k f e) = k ∷ []
requested (task_taken _ _ _ _ _ _ _ _) = []
requested (yielded _ _ _ _ _ _ _ _) = []
requested (connection_dropped _ _ _ _ _ _ _ _ _ _) = []
requested (connection_pulled _ _ _ _ _ _ _ _ _ _) = []
requested (task_finished _ _ _ _ _ _) = []
requested (connection_returned _ _ _ _ _) = []
requested (stopped _) = []
requested (worker_exited _ _ _ _ _) = []

abbrev pub all_requested : {s t : Pool} → Reach s t → List ℕ
all_requested here = []
all_requested (next r st) = requested st ++ all_requested r

pub Step-tasks :
    {s t : Pool} (a : ℕ) (st : Step s t) → tasks a t ≡ times a (requested st) + tasks a s
unfolding exec_command push_task_back push_task_front
Step-tasks {s} a (asked k true e) = ground arith
Step-tasks {s} a (asked k false e) = grind counting
Step-tasks {s} {t} a (task_taken pre post k rest d w q e) = grind counting
Step-tasks a (yielded pre post k st re w p e) = ground arith
Step-tasks a (connection_dropped pre post k c rest st re w p e) = ground arith
Step-tasks a (connection_pulled pre post k c rest st re w p e) = grind counting
Step-tasks a (task_finished pre post c k w e) = grind counting
Step-tasks a (connection_returned pre post c w e) = grind counting
Step-tasks a (stopped e) = ground arith
Step-tasks a (worker_exited pre post d w e) = grind counting

-- However clients, workers and the destructor interleave: each task is in the queue, with a worker or
-- finished as often as it was at the start or has been asked for since, taken together.
pub Reach-tasks :
    {s t : Pool} (a : ℕ) (r : Reach s t) → tasks a t ≡ times a (all_requested r) + tasks a s
Reach-tasks a here = omega arith
Reach-tasks a (next r st) =
    ground
      (arith, Reach-tasks a r, Step-tasks a st, times-append a (requested st) (all_requested r))

pub Reach-connections : {s t : Pool} (a : ℕ) → Reach s t → connections a t ≡ connections a s
Reach-connections a here = refl
Reach-connections a (next r st) = Step-connections a st ∙ Reach-connections a r

-- However the steps interleave: if no connection is in the pool twice at the start, then one that a
-- worker uses is neither in the deque nor used by another worker, nor lost.
pub used_alone :
    {s t : Pool} (pre post : List Worker) (c k : ℕ)
    → ((a : ℕ) → connections a s ≤ 1)
    → Reach s t
    → t.workers ≡ pre ++ using c k ∷ post
    → (times c t.conns_deque ≡ 0)
      × (times c (held pre) ≡ 0)
      × (times c (held post) ≡ 0)
      × (times c t.lost ≡ 0)
used_alone {s} {t} pre post c k h r w =
    let total = Reach-connections c r in
    let split = held-append c pre (using c k ∷ post) in
    let one = h c in (ground arith, ground arith, ground arith, ground arith)
