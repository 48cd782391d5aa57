-- ===== src/Database/Pool/Service.antt =====
-- What the pools promise to a client: a queue of the commands that wait, and those that run and that are
-- finished, in no order.
use pet_project.Base.{ℕ, ◌≡◌, List, [], ◌∷◌, ◌++◌, arith}
use mathlib.Core.Quot
use mathlib.Core.Quot.{Quot, Quot-set}
use pet_project.Database.Pool.{Pool, taken, times}

-- Lists with the same commands, each as often.
abbrev AreSame : List ℕ → List ℕ → Type 0
AreSame ks js = (a : ℕ) → times a ks ≡ times a js

-- Commands without their order.
abbrev pub Commands : Type 0
Commands = Quot AreSame

abbrev pub commands : List ℕ → Commands
commands ks = Quot.mk ks

AreSame-cons : (k : ℕ) (ks js : List ℕ) → AreSame ks js → AreSame (k ∷ ks) (k ∷ js)
AreSame-cons k ks js h a = ground (arith, h a)

-- One command more.
pub with_one : ℕ → Commands → Commands
with_one k =
    Quot.lift Quot-set (λ ks. commands (k ∷ ks)) (λ ks js h. Quot.sound (AreSame-cons k ks js h))

pub record Service : Type 0 where
  pub waiting : List ℕ
  pub running : Commands
  pub finished : Commands

-- What a client can see happen.
pub data Serves (s : Service) (t : Service) : Type 0 where
  unseen : t ≡ s → Serves s t
  -- a command out of turn, and one in its turn
  jumps : (k : ℕ) → t ≡ record s { waiting = k ∷ s.waiting } → Serves s t
  queues : (k : ℕ) → t ≡ record s { waiting = s.waiting ++ k ∷ [] } → Serves s t
  starts :
      (k : ℕ)
      → s.waiting ≡ k ∷ t.waiting
      → t.running ≡ with_one k s.running
      → t.finished ≡ s.finished
      → Serves s t
  finishes :
      (k : ℕ)
      → t.waiting ≡ s.waiting
      → s.running ≡ with_one k t.running
      → t.finished ≡ with_one k s.finished
      → Serves s t

abbrev pub service_of : Pool → Service
service_of s = record {
  waiting = s.task_deque;
  running = commands (taken s.workers);
  finished = commands s.finished;
}
