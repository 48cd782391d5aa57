-- ===== src/Database/Shutdown/LostWakeup.antt =====
-- The destructor of a thread pool, while a worker is about to wait.
use pet_project.Base.{
  ℕ, zero, suc, ◌≡◌, refl, sym, ap, subst, ◌∙◌, Bool, true, false, some, List, [], ◌∷◌, ◌++◌, All,
  replicate, arith,
}
use pet_project.Database.Shutdown.{
  Worker, Destructor, at_loop, locking, checked, blocked, before, done_set, joining, ThreadPool,
  worker_step, notify_all, IsUnlocked, IsOut, Step, worked, pushed, done_stored, all_notified,
  all_joined, Reach, here, next, new_pool,
}

-- The destructor waits for the first worker, which waits to be notified.
abbrev IsHung : ThreadPool → Type 0
IsHung s = (s.destructor ≡ joining) × ((ws : List Worker) × (s.workers ≡ blocked ∷ ws))

blocked_stays :
    (done : Bool) (tasks n : ℕ) (pre post ws : List Worker) (p q : Worker)
    → blocked ∷ ws ≡ pre ++ p ∷ post
    → worker_step done tasks p ≡ some (q, n)
    → (vs : List Worker) × (pre ++ q ∷ post ≡ blocked ∷ vs)
unfolding worker_step
blocked_stays done tasks n [] post ws p q e h = absurd (ground arith)
blocked_stays done tasks n (w ∷ pre) post ws p q e h = (pre ++ q ∷ post, ground arith)

Step-IsHung : {s t : ThreadPool} → Step s t → IsHung s → IsHung t
Step-IsHung {s} (worked pre post p q n w m h e) (d, (ws, b)) =
    subst IsHung (sym e) (d, blocked_stays s.done s.tasks n pre post ws p q (sym b ∙ w) h)
Step-IsHung (pushed d u e) (d', (ws, b)) = absurd (ground arith)
Step-IsHung (done_stored d e) (d', (ws, b)) = absurd (ground arith)
Step-IsHung (all_notified d e) (d', (ws, b)) = absurd (ground arith)
Step-IsHung (all_joined d o e) (d', (ws, b)) = absurd ((subst (All IsOut) b o).0)

Reach-IsHung : {s t : ThreadPool} → IsHung s → Reach s t → IsHung t
Reach-IsHung h here = h
Reach-IsHung h (next r st) = Step-IsHung st (Reach-IsHung h r)

All-IsUnlocked : (n : ℕ) → All IsUnlocked (replicate n at_loop)
All-IsUnlocked zero = tt
All-IsUnlocked (suc n) = (tt, All-IsUnlocked n)

notify_all-replicate : (n : ℕ) → notify_all (replicate n at_loop) ≡ replicate n at_loop
notify_all-replicate zero = refl
notify_all-replicate (suc n) = ap (at_loop ∷◌) (notify_all-replicate n)

module _ (n : ℕ) where
  abbrev at : Bool → Worker → Destructor → ThreadPool
  at done w d = record { done = done; tasks = 0; workers = w ∷ replicate n at_loop; destructor = d }

  -- The first worker finds no task, the destructor notifies nobody, and the worker waits.
  hangs : Reach (new_pool (suc n)) (at true blocked joining)
  unfolding worker_step
  hangs =
      let others = replicate n at_loop in
      let a : Reach (new_pool (suc n)) (at false locking before) =
        next here
          (worked [] others at_loop locking 0 refl (λ e. absurd (ground arith)) refl refl) in
      let b : Reach (new_pool (suc n)) (at false checked before) =
        next a (worked [] others locking checked 0 refl (λ e. (tt, All-IsUnlocked n)) refl refl) in
      let c : Reach (new_pool (suc n)) (at true checked done_set) =
        next b (done_stored refl refl) in
      let d : Reach (new_pool (suc n)) (at true checked joining) = next c (
        all_notified refl (
          ap (λ ws. record (at true checked joining) { workers = checked ∷ ws })
            (sym (notify_all-replicate n)))) in
      next d (worked [] others checked blocked 0 refl (λ e. absurd (ground arith)) refl refl)

-- For any number of threads there is an order of the steps of a new thread pool in which its destructor
-- never returns: a worker is then blocked in its wait, and stays so whatever is done afterwards.
pub destructor_hangs :
    (n : ℕ)
    → (s : ThreadPool) × Reach (new_pool (suc n)) s
      × ((t : ThreadPool)
          → Reach s t
          → (t.destructor ≡ joining) × ((ws : List Worker) × (t.workers ≡ blocked ∷ ws)))
destructor_hangs n =
    (at n true blocked joining, hangs n, λ t r. Reach-IsHung (refl, (replicate n at_loop, refl)) r)
