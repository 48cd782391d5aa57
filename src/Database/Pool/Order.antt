-- ===== src/Database/Pool/Order.antt =====
-- The order in which a client's commands are queued.
use pet_project.Base.{
  ℕ, ◌≡◌, refl, ◌∙◌, sym, List, [], ◌∷◌, ◌++◌, append_assoc, append-nil, Bool, true, false,
}
use pet_project.Database.Pool.{Pool, push_task_back, push_task_front, exec_command}

-- The calls of exec_command for some commands, one after the other, before a worker takes a task.
unfoldable pub ask_all : Bool → List ℕ → Pool → Pool
ask_all front_flag [] s = s
ask_all front_flag (k ∷ ks) s = ask_all front_flag ks (exec_command k front_flag s)

abbrev pub backwards : List ℕ → List ℕ
backwards [] = []
backwards (k ∷ ks) = backwards ks ++ k ∷ []

-- Commands asked for at the back are queued behind the others in their order, and commands asked for
-- at the front before the others in the opposite order.
pub ask_all-task_deque :
    (ks : List ℕ) (s : Pool)
    → ((ask_all false ks s).task_deque ≡ s.task_deque ++ ks)
      × ((ask_all true ks s).task_deque ≡ backwards ks ++ s.task_deque)
unfolding ask_all exec_command push_task_back push_task_front
ask_all-task_deque [] s = (sym (append-nil s.task_deque), refl)
ask_all-task_deque (k ∷ ks) s = (
  (ask_all-task_deque ks (exec_command k false s)).0 ∙ append_assoc s.task_deque (k ∷ []) ks,
  (ask_all-task_deque ks (exec_command k true s)).1
      ∙ sym (append_assoc (backwards ks) (k ∷ []) s.task_deque),
)
