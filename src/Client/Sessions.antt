-- ===== src/Client/Sessions.antt =====
-- Client_HTTP::do_session, from the top of its loop to the request: the sessions share the three
-- atomics, and each atomic operation is one step of one session.
pub mod Alone
pub mod FirstLoop
pub mod Overrun
pub mod Asked
use pet_project.Base.{
  ℕ, zero, suc, ◌+◌, ◌%◌, ◌≡◌, Bool, true, false, Option, none, some, List, [], ◌∷◌, ◌++◌, ltb,
  ◌==◌, length, get_elem?, replicate, if◌then◌else◌,
}
use pet_project.Base.Text.{Text}
use pet_project.Base.Int.{ℤ, pos, negsuc, int_ltb}
use pet_project.Client.{Looper, start, decrement}

-- Where a session is: what it has loaded, or the target that it has appended, `none` if there is none.
-- An `out_of_range` session has read `targets` behind its end.
pub data Phase : Type 0 where
  at_top looping : Phase
  fetching : ℤ → Phase
  behind : ℤ → ℕ → Phase
  lowered : ℕ → Phase
  exchanged wrapping closing : Phase
  appended : Option Text → Phase
  -- the target of the request, and whether what the user enters has been appended to it
  requesting : Option Text → Bool → Phase
  closed : Phase
  out_of_range : ℕ → Phase

-- operator== on std::atomic_int's values
abbrev int_eq : ℤ → ℤ → Bool
int_eq (pos a) (pos b) = a == b
int_eq (pos a) (negsuc b) = false
int_eq (negsuc a) (pos b) = false
int_eq (negsuc a) (negsuc b) = a == b

-- ++ on a size_t
abbrev pub next_index : ℕ → ℕ
next_index i = (i + 1) % 18446744073709551616

-- targets[i]
abbrev target_at : Looper → ℕ → Phase
target_at l i = elim (get_elem? l.targets i) [ some t ↦ appended (some t) | none ↦ out_of_range i ]

-- The next atomic operation of a session, with what it does up to the one after it. It has none while
-- it waits for the answer to its request, and after its end.
unfoldable pub advance : Phase → Looper → Phase × Looper
-- targets_looping_over.load()
advance at_top l = (if l.targets_looping_over then appended none else looping, l)
-- targets_loops.load()
advance looping l = (fetching l.targets_loops, l)
-- targets_index.fetch_add(1)
advance (fetching loops) l = (
  if ltb l.targets_index (length l.targets)
      then target_at l l.targets_index
      else behind loops (next_index l.targets_index),
  record l { targets_index = next_index l.targets_index },
)
-- targets_loops.compare_exchange_strong(temp_loops, temp_loops_desired)
advance (behind loops index) l = (
  lowered index,
  if int_eq l.targets_loops loops then record l { targets_loops = decrement loops } else l,
)
-- targets_index.compare_exchange_strong(temp_index, 0)
advance (lowered index) l =
    (exchanged, if l.targets_index == index then record l { targets_index = 0 } else l)
-- targets_loops.load() > 0
advance exchanged l = (if int_ltb (pos 0) l.targets_loops then wrapping else closing, l)
-- targets[targets_index.fetch_add(1)]
advance wrapping l =
    (target_at l l.targets_index, record l { targets_index = next_index l.targets_index })
-- targets_looping_over.store(true)
advance closing l = (appended none, record l { targets_looping_over = true })
-- targets_looping_over.load(), and what the user enters if it is true
advance (appended target) l = (requesting target l.targets_looping_over, l)
advance (requesting target asked) l = (requesting target asked, l)
advance closed l = (closed, l)
advance (out_of_range i) l = (out_of_range i, l)

-- The sessions, the members that they share, and the targets taken so far, in their order.
pub record Client : Type 0 where
  pub looper : Looper
  pub sessions : List Phase
  pub taken : List Text

-- The target that this step appends.
abbrev pub newly_taken : Phase → Phase → List Text
newly_taken (fetching loops) (appended (some t)) = t ∷ []
newly_taken wrapping (appended (some t)) = t ∷ []
newly_taken p q = []

pub data Step (s : Client) (t : Client) : Type 0 where
  advanced :
      (pre post : List Phase) (p q : Phase) (l : Looper)
      → s.sessions ≡ pre ++ p ∷ post
      → advance p s.looper ≡ (q, l)
      → t ≡ record { looper = l; sessions = pre ++ q ∷ post; taken = s.taken ++ newly_taken p q }
      → Step s t
  -- the response has come, and the loop goes round
  responded :
      (pre post : List Phase) (target : Option Text) (asked : Bool)
      → s.sessions ≡ pre ++ requesting target asked ∷ post
      → t ≡ record s { sessions = pre ++ at_top ∷ post }
      → Step s t
  -- break: the user's ":q", or an error
  left :
      (pre post : List Phase) (target : Option Text) (asked : Bool)
      → s.sessions ≡ pre ++ requesting target asked ∷ post
      → t ≡ record s { sessions = pre ++ closed ∷ post }
      → Step s t

pub data Reach (s : Client) : Client → Type 0 where
  here : Reach s s
  next : {t u : Client} → Reach s t → Step t u → Reach s u

-- run(): `n` sessions
unfoldable pub launch : List Text → ℤ → ℕ → Client
launch targets entered n = record {
  looper = start targets entered;
  sessions = replicate n at_top;
  taken = [];
}
