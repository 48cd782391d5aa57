-- ===== src/Database/Pool/Live.antt =====
-- The pools: the workers that have not left their loops.
use pet_project.Base.{
  ℕ, ◌≤◌, ◌≡◌, ◌≢◌, refl, sym, ap, subst, ◌∙◌, false, List, [], ◌∷◌, ◌++◌, All, arith,
}
use pet_project.Database.Pool.{
  Worker, idle, wanting, using, returning, exited, Pool, exec_command, Step, asked, task_taken,
  yielded, connection_dropped, connection_pulled, task_finished, connection_returned, stopped,
  worker_exited, Reach, here, next, held, times,
}
use pet_project.Database.Pool.Conservation.{times-append, Reach-connections}
use pet_project.Database.Pool.Progress.{CanFinish, all-CanFinish}

abbrev pub IsLive : Worker → Type 0
IsLive w = w ≢ exited

-- There is a worker, and none has left its loop.
abbrev pub AreLive : Pool → Type 0
AreLive s = All IsLive s.workers × (s.workers ≢ [])

All-change :
    (pre post : List Worker) (v w : Worker)
    → IsLive w
    → All IsLive (pre ++ v ∷ post)
    → All IsLive (pre ++ w ∷ post)
All-change [] post v w l (_, h) = (l, h)
All-change (x ∷ pre) post v w l (k, h) = (k, All-change pre post v w l h)

some_worker : (pre post : List Worker) (w : Worker) → pre ++ w ∷ post ≢ []
some_worker [] post w e = cc
some_worker (x ∷ pre) post w e = cc

-- A worker that changes to a state other than `exited`.
changed :
    (s t : Pool) (pre post : List Worker) (v w : Worker)
    → IsLive w
    → s.workers ≡ pre ++ v ∷ post
    → t.workers ≡ pre ++ w ∷ post
    → AreLive s
    → AreLive t
changed s t pre post v w l e f (h, n) = (
  subst (All IsLive) (sym f) (All-change pre post v w l (subst (All IsLive) e h)),
  λ z. some_worker pre post w (sym f ∙ z),
)

kept : (s t : Pool) → t.workers ≡ s.workers → AreLive s → AreLive t
kept s t e (h, n) = (subst (All IsLive) (sym e) h, λ z. n (sym e ∙ z))

-- Until the destructor begins, no worker leaves its loop.
Step-AreLive : {s t : Pool} → Step s t → t.done ≡ false → (s.done ≡ false) × (AreLive s → AreLive t)
unfolding exec_command
Step-AreLive {s} {t} (asked k f e) d =
    (sym (ap (λ p. p.done) e) ∙ d, kept s t (ap (λ p. p.workers) e))
Step-AreLive {s} {t} (task_taken pre post k rest _ w q e) d = (
  sym (ap (λ p. p.done) e) ∙ d,
  changed s t pre post idle (wanting k) (λ z. cc) w (ap (λ p. p.workers) e),
)
Step-AreLive {s} {t} (yielded pre post k st re w p e) d =
    (sym (ap (λ p. p.done) e) ∙ d, kept s t (ap (λ p. p.workers) e))
Step-AreLive {s} {t} (connection_dropped pre post k c rest st re w p e) d =
    (sym (ap (λ p. p.done) e) ∙ d, kept s t (ap (λ p. p.workers) e))
Step-AreLive {s} {t} (connection_pulled pre post k c rest st re w p e) d = (
  sym (ap (λ p. p.done) e) ∙ d,
  changed s t pre post (wanting k) (using c k) (λ z. cc) w (ap (λ p. p.workers) e),
)
Step-AreLive {s} {t} (task_finished pre post c k w e) d = (
  sym (ap (λ p. p.done) e) ∙ d,
  changed s t pre post (using c k) (returning c) (λ z. cc) w (ap (λ p. p.workers) e),
)
Step-AreLive {s} {t} (connection_returned pre post c w e) d = (
  sym (ap (λ p. p.done) e) ∙ d,
  changed s t pre post (returning c) idle (λ z. cc) w (ap (λ p. p.workers) e),
)
Step-AreLive (stopped e) d = absurd (ground (arith, ap (λ p. p.done) e, d))
Step-AreLive (worker_exited pre post x w e) d = absurd (ground (arith, ap (λ p. p.done) e, d, x))

Reach-AreLive : {s t : Pool} → Reach s t → t.done ≡ false → AreLive s → AreLive t
Reach-AreLive here d h = h
Reach-AreLive (next r st) d h = let (d', f) = Step-AreLive st d in f (Reach-AreLive r d' h)

-- A connection that is neither in the deque nor with a worker is lost.
some_connection :
    {s t : Pool} (c : ℕ)
    → Reach s t
    → 1 ≤ times c s.conns_deque
    → t.lost ≡ []
    → t.conns_deque ++ held t.workers ≢ []
some_connection {s} {t} c r h l e = ground (
  arith,
  h,
  Reach-connections c r,
  times-append c t.conns_deque (held t.workers),
  ap (times c) e,
  ap (times c) l,
)

first_worker :
    (ws : List Worker)
    → All IsLive ws
    → ws ≢ []
    → (w : Worker) × (post : List Worker) × (ws ≡ w ∷ post) × IsLive w
first_worker [] h n = absurd (n refl)
first_worker (w ∷ post) (l, h) n = (w, post, refl, l)

-- From a state with live workers and a connection, as long as the destructor has not begun and no
-- connection is lost, every command can be finished.
pub Reach-CanFinish :
    {s t : Pool} (c : ℕ)
    → AreLive s
    → 1 ≤ times c s.conns_deque
    → Reach s t
    → t.done ≡ false
    → t.lost ≡ []
    → CanFinish t
Reach-CanFinish {s} {t} c live h r d l =
    let (ws, n) = Reach-AreLive r d live in
    let (w, post, e, lw) = first_worker t.workers ws n in
    all-CanFinish t [] post w e lw d (some_connection c r h l)
