-- ===== src/Client/Sessions/FirstLoop.antt =====
-- The first loop over the targets, by any number of sessions.
use pet_project.Base.{
  ℕ, zero, suc, ◌+◌, ◌<◌, ◌≡◌, refl, sym, ap, subst, ◌∙◌, ◌⊎◌, inl, inr, some, List, [], ◌∷◌, ◌++◌,
  length, get_elem?, arith, All, append-nil, append_assoc, length-append, replicate,
}
use pet_project.Base.Int.{ℤ}
use pet_project.Base.Text.{Text}
use pet_project.Client.{Looper, start}
use pet_project.Client.Targets.{get_elem?-append}
use pet_project.Client.Sessions.{
  Phase, at_top, looping, fetching, behind, lowered, exchanged, wrapping, closing, appended,
  requesting, closed, out_of_range, advance, Client, newly_taken, next_index, Step, advanced,
  responded, left, Reach, here, next, launch,
}

-- The session has not found the index behind the targets.
abbrev IsEarly : Phase → Type 0
IsEarly at_top = Unit
IsEarly looping = Unit
IsEarly (fetching loops) = Unit
IsEarly (appended target) = Unit
IsEarly (requesting target asked) = Unit
IsEarly closed = Unit
IsEarly (behind _ _) = ⊥
IsEarly (lowered _) = ⊥
IsEarly exchanged = ⊥
IsEarly wrapping = ⊥
IsEarly closing = ⊥
IsEarly (out_of_range _) = ⊥

module _ {ℓ} {A : Type ℓ} where
  All-middle :
      (P : A → Type 0) (pre post : List A) (p q : A)
      → P q
      → All P (pre ++ p ∷ post)
      → All P (pre ++ q ∷ post)
  All-middle P [] post p q h a = (h, a.1)
  All-middle P (x ∷ pre) post p q h a = (a.0, All-middle P pre post p q h a.1)

  All-at : (P : A → Type 0) (pre post : List A) (p : A) → All P (pre ++ p ∷ post) → P p
  All-at P [] post p a = a.0
  All-at P (x ∷ pre) post p a = All-at P pre post p a.1

module _ (targets : List Text) (short : length targets < 18446744073709551616) where
  -- The index is that of the first target that has not been taken.
  abbrev IsPrefix : Looper → List Text → Type 0
  IsPrefix l taken =
      (rest : List Text) × (targets ≡ taken ++ rest) × (l.targets_index ≡ length taken)

  abbrev IsOver : List Text → Type 0
  IsOver taken = (rest : List Text) × (taken ≡ targets ++ rest)

  abbrev IsFirst : Client → Type 0
  IsFirst s =
      (s.looper.targets ≡ targets)
      × ((IsPrefix s.looper s.taken × All IsEarly s.sessions) ⊎ IsOver s.taken)

  keeps : (p : Phase) (l : Looper) → (advance p l).1.targets ≡ l.targets
  unfolding advance
  keeps at_top l = refl
  keeps looping l = refl
  keeps (fetching loops) l = refl
  keeps (behind loops i) l = ground arith
  keeps (lowered i) l = ground arith
  keeps exchanged l = refl
  keeps wrapping l = refl
  keeps closing l = refl
  keeps (appended t) l = refl
  keeps (requesting t a) l = refl
  keeps closed l = refl
  keeps (out_of_range i) l = refl

  fetched_next :
      (loops : ℤ) (l : Looper) (taken : List Text) (t : Text) (rest : List Text)
      → l.targets ≡ taken ++ t ∷ rest
      → l.targets_index ≡ length taken
      → (advance (fetching loops) l).0 ≡ appended (some t)
  unfolding advance
  fetched_next loops l taken t rest e i = ground (
    arith,
    get_elem?-append taken t rest,
    length-append taken (t ∷ rest),
    ap length e,
    ap (λ xs. get_elem? xs l.targets_index) e,
    ap (λ n. get_elem? (taken ++ t ∷ rest) n) i,
  )

  fetched_behind :
      (loops : ℤ) (l : Looper)
      → l.targets_index ≡ length l.targets
      → (n : ℕ) × ((advance (fetching loops) l).0 ≡ behind loops n)
  unfolding advance
  fetched_behind loops l e = (next_index l.targets_index, ground arith)

  fetched_index :
      (loops : ℤ) (l : Looper) (n : ℕ)
      → l.targets_index ≡ n
      → n < 18446744073709551615
      → (advance (fetching loops) l).1.targets_index ≡ n + 1
  unfolding advance
  fetched_index loops l n e h = ground arith

  -- What a step of a session makes of the targets taken.
  abbrev KeptBy : Phase → List Text → Phase × Looper → Type 0
  KeptBy p taken (q, l) =
      let after = taken ++ newly_taken p q in (IsPrefix l after × IsEarly q) ⊎ IsOver after

  abbrev Kept : Phase → Looper → List Text → Type 0
  Kept p l taken = KeptBy p taken (advance p l)

  unchanged : (l : Looper) (taken : List Text) → IsPrefix l taken → IsPrefix l (taken ++ [])
  unchanged l taken k = subst (IsPrefix l) (sym (append-nil taken)) k

  fetching-Kept :
      (loops : ℤ) (l : Looper) (taken : List Text)
      → l.targets ≡ targets
      → IsPrefix l taken
      → Kept (fetching loops) l taken
  fetching-Kept loops l taken e ([], p, i) =
      let (n, b) = fetched_behind loops l (i ∙ ap length (sym (e ∙ p ∙ append-nil taken))) in
      rw b (inr ([], append-nil taken ∙ sym (append-nil targets ∙ p ∙ append-nil taken)))
  fetching-Kept loops l taken e (t ∷ rest, p, i) =
      rw (fetched_next loops l taken t rest (e ∙ p) i)
        (inl ((rest, p ∙ sym (append_assoc taken (t ∷ []) rest), index), tt))
    where
      index : (advance (fetching loops) l).1.targets_index ≡ length (taken ++ t ∷ [])
      index =
          fetched_index loops l (length taken) i
            (omega (arith, short, ap length p, length-append taken (t ∷ rest)))
          ∙ sym (length-append taken (t ∷ []))

  early-Kept :
      (p : Phase) (l : Looper) (taken : List Text)
      → l.targets ≡ targets
      → IsEarly p
      → IsPrefix l taken
      → Kept p l taken
  unfolding advance
  early-Kept at_top l taken e h k = inl (unchanged l taken k, ground arith)
  early-Kept looping l taken e h k = inl (unchanged l taken k, tt)
  early-Kept (fetching loops) l taken e h k = fetching-Kept loops l taken e k
  early-Kept (appended t) l taken e h k = inl (unchanged l taken k, tt)
  early-Kept (requesting t a) l taken e h k = inl (unchanged l taken k, tt)
  early-Kept closed l taken e h k = inl (unchanged l taken k, tt)
  early-Kept (behind _ _) l taken e h k = absurd h
  early-Kept (lowered _) l taken e h k = absurd h
  early-Kept exchanged l taken e h k = absurd h
  early-Kept wrapping l taken e h k = absurd h
  early-Kept closing l taken e h k = absurd h
  early-Kept (out_of_range _) l taken e h k = absurd h

  IsOver-append : (taken more : List Text) → IsOver taken → IsOver (taken ++ more)
  IsOver-append taken more (rest, e) =
      (rest ++ more, ap (λ xs. xs ++ more) e ∙ append_assoc targets rest more)

  Step-IsFirst : {s t : Client} → Step s t → IsFirst s → IsFirst t
  Step-IsFirst {s} (advanced pre post p q l w a e) (same, inr over) =
      subst IsFirst (sym e) (
        sym (ap (λ r. r.1.targets) a) ∙ keeps p s.looper ∙ same,
        inr (IsOver-append s.taken _ over),
      )
  Step-IsFirst {s} (advanced pre post p q l w a e) (same, inl (k, early)) = subst IsFirst (sym e) (
    sym (ap (λ r. r.1.targets) a) ∙ keeps p s.looper ∙ same,
    elim (subst (KeptBy p s.taken) a
        (early-Kept p s.looper s.taken same (All-at IsEarly pre post p all) k)) [
          | inl (still, h) ↦ inl (still, All-middle IsEarly pre post p q h all)
          | inr over ↦ inr over
        ],
  )
    where
      all : All IsEarly (pre ++ p ∷ post)
      all = subst (All IsEarly) w early
  Step-IsFirst {s} (responded pre post t a w e) (same, inr over) =
      subst IsFirst (sym e) (same, inr over)
  Step-IsFirst {s} (responded pre post t a w e) (same, inl (k, early)) =
      subst IsFirst (sym e)
        (same, inl (k, All-middle IsEarly pre post _ _ tt (subst (All IsEarly) w early)))
  Step-IsFirst {s} (left pre post t a w e) (same, inr over) = subst IsFirst (sym e) (same, inr over)
  Step-IsFirst {s} (left pre post t a w e) (same, inl (k, early)) =
      subst IsFirst (sym e)
        (same, inl (k, All-middle IsEarly pre post _ _ tt (subst (All IsEarly) w early)))

  Reach-IsFirst : {s t : Client} → IsFirst s → Reach s t → IsFirst t
  Reach-IsFirst h here = h
  Reach-IsFirst h (next r st) = Step-IsFirst st (Reach-IsFirst h r)

  All-at_top : (n : ℕ) → All IsEarly (replicate n at_top)
  All-at_top zero = tt
  All-at_top (suc n) = (tt, All-at_top n)

start_first :
    (targets : List Text) (entered : ℤ)
    → (start targets entered).targets ≡ targets × ((start targets entered).targets_index ≡ 0)
unfolding start
start_first [] entered = (refl, refl)
start_first (t ∷ ts) entered = (refl, refl)

-- However many sessions there are, and however their atomic operations interleave, the targets that
-- they take are at first those of the list, each once and in their order: the targets taken are the
-- beginning of the list, or begin with the whole list. The list is shorter than 2^64.
pub Reach-taken :
    (targets : List Text) (entered : ℤ) (n : ℕ) (s : Client)
    → length targets < 18446744073709551616
    → Reach (launch targets entered n) s
    → ((rest : List Text) × (targets ≡ s.taken ++ rest))
      ⊎ ((rest : List Text) × (s.taken ≡ targets ++ rest))
unfolding launch
Reach-taken targets entered n s short r =
    let (same, index) = start_first targets entered in
    let (_, either) =
      Reach-IsFirst targets short (same, inl ((targets, refl, index), All-at_top targets short n))
        r in
    elim either [ inl ((rest, e, _), _) ↦ inl (rest, e) | inr over ↦ inr over ]
