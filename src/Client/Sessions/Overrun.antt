-- ===== src/Client/Sessions/Overrun.antt =====
-- Two sessions at the end of a loop over the targets.
use pet_project.Base.{
  ℕ, suc, ◌+◌, ◌<◌, ◌≡◌, refl, sym, ap, subst, ◌∙◌, false, some, List, [], ◌∷◌, ◌++◌, length,
  get_elem?, arith, append-nil, append_assoc, length-append, get_elem?-none,
}
use pet_project.Base.Int.{pos}
use pet_project.Base.Text.{Text}
use pet_project.Client.{Looper}
use pet_project.Client.Targets.{get_elem?-append, looper_at, start_lem}
use pet_project.Client.Sessions.{
  Phase, at_top, looping, fetching, behind, lowered, exchanged, wrapping, appended, requesting,
  out_of_range, advance, Client, newly_taken, advanced, responded, Reach, here, next, launch,
}

pub fetch_inside :
    (whole done : List Text) (t : Text) (ts : List Text) (loops : ℕ)
    → length whole < 18446744073709551610
    → whole ≡ done ++ t ∷ ts
    → advance (fetching (pos loops)) (looper_at whole loops (length done))
      ≡ (appended (some t), looper_at whole loops (length done + 1))
unfolding advance
fetch_inside whole done t ts loops short w = ground (
  arith,
  get_elem?-append done t ts,
  length-append done (t ∷ ts),
  ap length w,
  ap (λ xs. get_elem? xs (length done)) w,
)

module _ (s : Client) where
  abbrev pub At : Looper → List Phase → List Text → Type 0
  At l ps taken = Reach s (record { looper = l; sessions = ps; taken = taken })

  -- The session behind `pre` makes its next operation.
  pub moved :
      {l : Looper} {taken : List Text} (pre : List Phase) (p : Phase) (post : List Phase)
      (q : Phase) (l' : Looper) (more : List Text)
      → advance p l ≡ (q, l')
      → newly_taken p q ≡ more
      → At l (pre ++ p ∷ post) taken
      → At l' (pre ++ q ∷ post) (taken ++ more)
  moved {l} {taken} pre p post q l' more a m r = next r (
      advanced pre post p q l' refl a (
        ap (λ xs. record { looper = l'; sessions = pre ++ q ∷ post; taken = taken ++ xs }) (sym m)))

  pub silent :
      {l : Looper} {taken : List Text} (pre : List Phase) (p : Phase) (post : List Phase)
      (q : Phase) (l' : Looper)
      → advance p l ≡ (q, l')
      → newly_taken p q ≡ []
      → At l (pre ++ p ∷ post) taken
      → At l' (pre ++ q ∷ post) taken
  silent {l} {taken} pre p post q l' a m r =
      subst (At l' (pre ++ q ∷ post)) (append-nil taken) (moved pre p post q l' [] a m r)

  -- A session's request for the next target, and the answer.
  pub one_target :
      (whole done : List Text) (t : Text) (ts : List Text) (loops : ℕ) (others : List Phase)
      → length whole < 18446744073709551610
      → whole ≡ done ++ t ∷ ts
      → At (looper_at whole loops (length done)) (at_top ∷ others) done
      → At (looper_at whole loops (length (done ++ t ∷ []))) (at_top ∷ others) (done ++ t ∷ [])
  unfolding advance
  one_target whole done t ts loops others short w r =
      let a = silent [] at_top others looping _ refl refl r in
      let b = silent [] looping others (fetching (pos loops)) _ refl refl a in
      let c =
        moved [] (fetching (pos loops)) others (appended (some t)) _ (t ∷ [])
          (fetch_inside whole done t ts loops short w) refl b in
      let d = silent [] (appended (some t)) others (requesting (some t) false) _ refl refl c in
      subst (λ n. At (looper_at whole loops n) (at_top ∷ others) (done ++ t ∷ []))
        (sym (length-append done (t ∷ []))) (next d (responded [] others (some t) false refl refl))

  all_targets :
      (whole done ts : List Text) (loops : ℕ) (others : List Phase)
      → length whole < 18446744073709551610
      → whole ≡ done ++ ts
      → At (looper_at whole loops (length done)) (at_top ∷ others) done
      → At (looper_at whole loops (length whole)) (at_top ∷ others) whole
  all_targets whole done [] loops others short w r =
      subst (λ xs. At (looper_at whole loops (length xs)) (at_top ∷ others) xs)
        (sym (w ∙ append-nil done)) r
  all_targets whole done (t ∷ ts) loops others short w r =
      all_targets whole (done ++ t ∷ []) ts loops others short
        (w ∙ sym (append_assoc done (t ∷ []) ts))
        (one_target whole done t ts loops others short w r)

  -- Both sessions find the index behind the targets before one of them puts it back.
  overrun :
      (whole : List Text) (loops : ℕ)
      → length whole < 18446744073709551610
      → At (looper_at whole (suc (suc loops)) (length whole)) (at_top ∷ at_top ∷ []) whole
      → At
          (looper_at whole (suc loops) (length whole + 3))
          (out_of_range (length whole + 2) ∷ behind (pos (suc (suc loops))) (length whole + 2) ∷ [])
          whole
  unfolding advance
  overrun whole loops short r =
      let n = length whole in
      let k = suc (suc loops) in
      let a = silent [] at_top (at_top ∷ []) looping _ refl refl r in
      let b = silent [] looping (at_top ∷ []) (fetching (pos k)) _ refl refl a in
      let c =
        silent [] (fetching (pos k)) (at_top ∷ []) (behind (pos k) (n + 1))
          (looper_at whole k (n + 1)) (ground arith) refl b in
      let d = silent (behind (pos k) (n + 1) ∷ []) at_top [] looping _ refl refl c in
      let e = silent (behind (pos k) (n + 1) ∷ []) looping [] (fetching (pos k)) _ refl refl d in
      let f =
        silent (behind (pos k) (n + 1) ∷ []) (fetching (pos k)) [] (behind (pos k) (n + 2))
          (looper_at whole k (n + 2)) (ground arith) refl e in
      let g =
        silent [] (behind (pos k) (n + 1)) (behind (pos k) (n + 2) ∷ []) (lowered (n + 1))
          (looper_at whole (suc loops) (n + 2)) (ground arith) refl f in
      let h =
        silent [] (lowered (n + 1)) (behind (pos k) (n + 2) ∷ []) exchanged
          (looper_at whole (suc loops) (n + 2)) (ground arith) refl g in
      let i =
        silent [] exchanged (behind (pos k) (n + 2) ∷ []) wrapping
          (looper_at whole (suc loops) (n + 2)) (ground arith) refl h in
      silent [] wrapping (behind (pos k) (n + 2) ∷ []) (out_of_range (n + 2))
        (looper_at whole (suc loops) (n + 3))
        (ground (arith, get_elem?-none whole (n + 2) (omega arith))) refl i

-- Two sessions that loop over a list of targets more than once, for any list that is not empty and
-- shorter than 2^64 - 6, can come to where one of them reads `targets` at two behind its end: both have
-- found the index there, so that neither puts it back to 0.
pub two_sessions_out_of_range :
    (t : Text) (ts : List Text) (loops : ℕ)
    → length (t ∷ ts) < 18446744073709551610
    → (s : Client) × Reach (launch (t ∷ ts) (pos (suc (suc loops))) 2) s
      × (second : Phase) × (s.sessions ≡ out_of_range (length (t ∷ ts) + 2) ∷ second ∷ [])
unfolding launch
two_sessions_out_of_range t ts loops short =
    let s = launch (t ∷ ts) (pos (suc (suc loops))) 2 in
    let first =
      subst (λ l. At s l (at_top ∷ at_top ∷ []) []) (sym (start_lem (suc loops) t ts)) here in
    (
      _,
      overrun s (t ∷ ts) loops short
          (all_targets s (t ∷ ts) [] (t ∷ ts) (suc (suc loops)) (at_top ∷ []) short refl first),
      _,
      refl,
    )
