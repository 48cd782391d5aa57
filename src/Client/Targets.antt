-- ===== src/Client/Targets.antt =====
-- Client_HTTP::do_session: the loop over the targets.
use pet_project.Base.{
  ℕ, zero, suc, ◌+◌, ◌≡◌, refl, true, false, none, some, List, [], ◌∷◌, ◌++◌, length, get_elem?,
  arith, length-append, append-nil, append_assoc, sym, ap, ◌∙◌, subst,
}
use pet_project.Base.Text.{Text}
use pet_project.Base.Int.{pos}
use pet_project.Client.{Looper, start, begin_loop, next_target}

-- The looper gives these targets, one for each request, and is then the other one.
pub data Requests : Looper → List Text → Looper → Type 0 where
  no_request : {l : Looper} → Requests l [] l
  request :
      {l l₁ l₂ : Looper} {t : Text} {ts : List Text}
      → next_target l ≡ some (some t, l₁)
      → Requests l₁ ts l₂
      → Requests l (t ∷ ts) l₂

-- The targets, `n` times.
abbrev pub repeat : ℕ → List Text → List Text
repeat zero ts = []
repeat (suc n) ts = ts ++ repeat n ts

abbrev pub looper_at : List Text → ℕ → ℕ → Looper
looper_at ts loops index = record {
  targets = ts;
  targets_loops = pos loops;
  targets_index = index;
  targets_looping_over = false;
}

Requests-append :
    {l l₁ l₂ : Looper} {ts us : List Text}
    → Requests l ts l₁
    → Requests l₁ us l₂
    → Requests l (ts ++ us) l₂
Requests-append no_request q = q
Requests-append (request e p) q = request e (Requests-append p q)

pub get_elem?-append :
    (done : List Text) (t : Text) (ts : List Text)
    → get_elem? (done ++ t ∷ ts) (length done) ≡ some t
get_elem?-append [] t ts = refl
get_elem?-append (d ∷ done) t ts = get_elem?-append done t ts

next_target_inside :
    (whole done : List Text) (t : Text) (ts : List Text) (loops index : ℕ)
    → whole ≡ done ++ t ∷ ts
    → index ≡ length done
    → next_target (looper_at whole loops index) ≡ some (some t, looper_at whole loops (index + 1))
unfolding next_target
next_target_inside whole done t ts loops index w i = ground (
  arith,
  get_elem?-append done t ts,
  length-append done (t ∷ ts),
  ap length w,
  ap (λ xs. get_elem? xs index) w,
  ap (λ n. get_elem? (done ++ t ∷ ts) n) i,
)

-- From the target behind `done` to the end of the loop.
rest_of_loop :
    (whole done ts : List Text) (loops index : ℕ)
    → whole ≡ done ++ ts
    → index ≡ length done
    → Requests (looper_at whole loops index) ts (looper_at whole loops (length whole))
rest_of_loop whole done [] loops index w i =
    subst (λ n. Requests (looper_at whole loops index) [] (looper_at whole loops n))
      (i ∙ sym (ap length (w ∙ append-nil done))) no_request
rest_of_loop whole done (t ∷ ts) loops index w i =
    request (next_target_inside whole done t ts loops index w i) (
      rest_of_loop whole (done ++ t ∷ []) ts loops (index + 1)
        (w ∙ sym (append_assoc done (t ∷ []) ts)) (omega (arith, i, length-append done (t ∷ []))))

-- At the end of a loop with more loops to go the first target follows.
next_target_again :
    (t : Text) (ts : List Text) (n : ℕ)
    → next_target (looper_at (t ∷ ts) (suc (suc n)) (length (t ∷ ts)))
      ≡ some (some t, looper_at (t ∷ ts) (suc n) 1)
unfolding next_target begin_loop
next_target_again t ts n = ground arith

abbrev looped : List Text → Looper
looped ts = record (looper_at ts 0 0) { targets_looping_over = true }

next_target_over :
    (t : Text) (ts : List Text)
    → next_target (looper_at (t ∷ ts) 1 (length (t ∷ ts))) ≡ some (none, looped (t ∷ ts))
unfolding next_target begin_loop
next_target_over t ts = ground arith

more_loops :
    (n : ℕ) (t : Text) (ts : List Text)
    → Requests
        (looper_at (t ∷ ts) (suc n) (length (t ∷ ts)))
        (repeat n (t ∷ ts))
        (looper_at (t ∷ ts) 1 (length (t ∷ ts)))
more_loops zero t ts = no_request
more_loops (suc n) t ts =
    Requests-append
      (request (next_target_again t ts n) (rest_of_loop (t ∷ ts) (t ∷ []) ts (suc n) 1 refl refl))
      (more_loops n t ts)

pub start_lem :
    (n : ℕ) (t : Text) (ts : List Text)
    → looper_at (t ∷ ts) (suc n) 0 ≡ start (t ∷ ts) (pos (suc n))
unfolding start
start_lem n t ts = ground arith

-- If the user asks for one or more loops over a list of targets that is not empty, the requests are
-- for the targets in their order, as many times as was asked for, and then for what the user enters,
-- from then on.
pub start-Requests :
    (n : ℕ) (t : Text) (ts : List Text)
    → (l : Looper) × (l' : Looper) × Requests
        (start (t ∷ ts) (pos (suc n)))
        (repeat (suc n) (t ∷ ts))
        l
      × (next_target l ≡ some (none, l'))
      × (next_target l' ≡ some (none, l'))
unfolding next_target
start-Requests n t ts = (
  looper_at (t ∷ ts) 1 (length (t ∷ ts)),
  looped (t ∷ ts),
  subst (λ l. Requests l (repeat (suc n) (t ∷ ts)) (looper_at (t ∷ ts) 1 (length (t ∷ ts))))
      (start_lem n t ts)
      (Requests-append (rest_of_loop (t ∷ ts) [] (t ∷ ts) (suc n) 0 refl refl) (more_loops n t ts)),
  next_target_over t ts,
  refl,
)
