-- ===== src/Database/Startup/Working.antt =====
-- A new DB_module that has a connection and a thread.
use mathlib.Core.Option.{some-injective}
use pet_project.Base.{
  ℕ, zero, suc, ◌+◌, ◌≡◌, ◌≢◌, ◌≤◌, ◌<◌, sym, ◌∙◌, Bool, false, some, List, [], ◌∷◌, length, arith,
  All, subst, Bool-cases, inl, inr,
}
use pet_project.Database.Pool.{Pool, Reach, times}
use pet_project.Database.Pool.Live.{IsLive, Reach-CanFinish}
use pet_project.Database.Pool.Progress.{CanFinish}
use pet_project.Database.Startup.{
  ConnInfo, DbModule, starting_threads, construct, conns_threads_count,
}
use pet_project.Database.Startup.Unreached.{construct-made, construct-amounts}

starting_threads-IsLive :
    (count : ℕ) (starts : ℕ → Bool) (i : ℕ) → All IsLive (starting_threads count starts i)
unfolding starting_threads
starting_threads-IsLive zero starts i = tt
starting_threads-IsLive (suc count) starts i = elim (Bool-cases (starts i)) [
  | inl y ↦ rw y ((λ e. cc), starting_threads-IsLive count starts (i + 1))
  | inr n ↦ rw n (starting_threads-IsLive count starts (i + 1))
]

first_connection : (cs : List ℕ) → 0 < length cs → (c : ℕ) × (1 ≤ times c cs)
first_connection [] h = absurd (omega arith)
first_connection (c ∷ cs) h = (c, ground arith)

not_empty {ℓ} : {A : Type ℓ} (xs : List A) → 0 < length xs → xs ≢ []
not_empty [] h e = omega arith
not_empty (x ∷ xs) h e = cc

-- A DB_module that says that it has a connection and a thread: whatever its clients and its threads
-- have done, until its destructor begins and as long as no connection is lost, there is an order of
-- steps that finishes every command that waits or runs.
pub construct-CanFinish :
    (hardware : ℕ) (info : ConnInfo) (connect : ℕ → ℕ → ℕ × Bool) (starts : ℕ → Bool) (m : DbModule)
    (s : Pool)
    → construct hardware info connect starts ≡ some m
    → 0 < m.conns_established
    → 0 < m.threads_started
    → Reach m.pool s
    → s.done ≡ false
    → s.lost ≡ []
    → CanFinish s
construct-CanFinish hardware info connect starts m s e conns threads r d l =
    let (n, x, _, _, established, started) = construct-amounts hardware info connect starts in
    let (c, h) =
      first_connection m.pool.conns_deque (subst (λ k. 0 < k) (counted n x established) conns) in
    Reach-CanFinish c
      (live, not_empty m.pool.workers (subst (λ k. 0 < k) (running n x started) threads)) h r d l
  where
    live : All IsLive m.pool.workers
    live =
        subst (λ k. All IsLive k.pool.workers)
          (some-injective _ _ (sym (construct-made hardware info connect starts) ∙ e))
          (starting_threads-IsLive (conns_threads_count hardware) starts 0)

    same : (n : DbModule) → construct hardware info connect starts ≡ some n → n ≡ m
    same n x = some-injective _ _ (sym x ∙ e)

    counted :
        (n : DbModule)
        → construct hardware info connect starts ≡ some n
        → n.conns_established ≡ length n.pool.conns_deque
        → m.conns_established ≡ length m.pool.conns_deque
    counted n x = subst (λ k. k.conns_established ≡ length k.pool.conns_deque) (same n x)

    running :
        (n : DbModule)
        → construct hardware info connect starts ≡ some n
        → n.threads_started ≡ length n.pool.workers
        → m.threads_started ≡ length m.pool.workers
    running n x = subst (λ k. k.threads_started ≡ length k.pool.workers) (same n x)
