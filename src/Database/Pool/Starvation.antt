-- ===== src/Database/Pool/Starvation.antt =====
-- The pools without connections.
use pet_project.Base.{ℕ, ◌≡◌, ◌≢◌, refl, List, [], ◌∷◌, ◌++◌, arith, ap, ◌∙◌, sym}
use pet_project.Database.Pool.{
  Worker, idle, wanting, using, returning, exited, Pool, pull_connection, exec_command, Step, asked,
  task_taken, yielded, connection_dropped, connection_pulled, task_finished, connection_returned,
  stopped, worker_exited, Reach, here, next, held,
}

-- No connection is in the deque or used.
abbrev pub IsStarved : Pool → Type 0
IsStarved s = (s.conns_deque ≡ []) × (held s.workers ≡ [])

held-append : (ws vs : List Worker) → held (ws ++ vs) ≡ held ws ++ held vs
held-append [] vs = refl
held-append (idle ∷ ws) vs = held-append ws vs
held-append (exited ∷ ws) vs = held-append ws vs
held-append (wanting k ∷ ws) vs = held-append ws vs
held-append (using c k ∷ ws) vs = ap (c ∷◌) (held-append ws vs)
held-append (returning c ∷ ws) vs = ap (c ∷◌) (held-append ws vs)

append_cons≢nil : (xs : List ℕ) (x : ℕ) (ys : List ℕ) → xs ++ x ∷ ys ≢ []
append_cons≢nil [] x ys e = ground arith
append_cons≢nil (y ∷ xs) x ys e = ground arith

-- A worker that changes from one state without a connection to another.
moved :
    {ws us : List Worker} (pre post : List Worker) (v w : Worker)
    → ws ≡ pre ++ v ∷ post
    → us ≡ pre ++ w ∷ post
    → held (v ∷ post) ≡ held (w ∷ post)
    → held ws ≡ []
    → held us ≡ []
moved pre post v w e f h nothing =
    ap held f
    ∙ held-append pre (w ∷ post)
    ∙ ap (held pre ++◌) (sym h)
    ∙ sym (held-append pre (v ∷ post))
    ∙ sym (ap held e)
    ∙ nothing

Step-IsStarved : {s t : Pool} → Step s t → IsStarved s → IsStarved t × (t.finished ≡ s.finished)
unfolding exec_command pull_connection
Step-IsStarved (asked k f e) h = ground arith
Step-IsStarved (task_taken pre post k rest d w q e) h =
    ground (arith, moved pre post idle (wanting k) w (ap (λ p. p.workers) e) refl h.1)
Step-IsStarved (yielded pre post k st re w p e) h = ground arith
Step-IsStarved (connection_dropped pre post k c rest st re w p e) h =
    absurd (ground (arith, ap (pull_connection st re) (sym h.0)))
Step-IsStarved (connection_pulled pre post k c rest st re w p e) h =
    absurd (ground (arith, ap (pull_connection st re) (sym h.0)))
Step-IsStarved (task_finished pre post c k w e) h = absurd (
    append_cons≢nil (held pre) c (held post)
      (sym (held-append pre (using c k ∷ post)) ∙ sym (ap held w) ∙ h.1))
Step-IsStarved (connection_returned pre post c w e) h = absurd (
    append_cons≢nil (held pre) c (held post)
      (sym (held-append pre (returning c ∷ post)) ∙ sym (ap held w) ∙ h.1))
Step-IsStarved (stopped e) h = ground arith
Step-IsStarved (worker_exited pre post d w e) h =
    ground (arith, moved pre post idle exited w (ap (λ p. p.workers) e) refl h.1)

-- Once every connection of the pool is lost it stays so, and whatever the clients, the workers and
-- the destructor do, no further command is finished.
pub Reach-IsStarved :
    {s t : Pool} → IsStarved s → Reach s t → IsStarved t × (t.finished ≡ s.finished)
Reach-IsStarved h here = (h, refl)
Reach-IsStarved h (next r st) =
    let before = Reach-IsStarved h r in
    let after = Step-IsStarved st before.0 in (after.0, after.1 ∙ before.1)
