-- ===== src/Client/Sessions/Asked.antt =====
-- Two sessions at the last target.
use pet_project.Base.{
  ℕ, ◌+◌, ◌<◌, ◌≡◌, refl, sym, ap, subst, ◌∙◌, true, some, none, List, [], ◌∷◌, ◌++◌, length, arith,
  append-nil, append_assoc, length-append,
}
use pet_project.Base.Int.{pos}
use pet_project.Base.Text.{Text}
use pet_project.Client.{Looper}
use pet_project.Client.Targets.{looper_at, start_lem}
use pet_project.Client.Sessions.{
  Phase, at_top, looping, fetching, behind, lowered, exchanged, closing, appended, requesting,
  advance, Client, Reach, here, launch,
}
use pet_project.Client.Sessions.Overrun.{At, moved, silent, one_target, fetch_inside}

module _ (s : Client) where
  -- The targets before the last ones.
  targets_before :
      (whole done ts rest : List Text) (loops : ℕ) (others : List Phase)
      → length whole < 18446744073709551610
      → whole ≡ done ++ (ts ++ rest)
      → At s (looper_at whole loops (length done)) (at_top ∷ others) done
      → At s (looper_at whole loops (length (done ++ ts))) (at_top ∷ others) (done ++ ts)
  targets_before whole done [] rest loops others short w r =
      subst (λ xs. At s (looper_at whole loops (length xs)) (at_top ∷ others) xs)
        (sym (append-nil done)) r
  targets_before whole done (t ∷ ts) rest loops others short w r =
      subst (λ xs. At s (looper_at whole loops (length xs)) (at_top ∷ others) xs)
        (append_assoc done (t ∷ []) ts)
        (targets_before whole (done ++ t ∷ []) ts rest loops others short
          (w ∙ sym (append_assoc done (t ∷ []) (ts ++ rest)))
          (one_target s whole done t (ts ++ rest) loops others short w r))

  -- The members after the last loop.
  abbrev finished : List Text → Looper
  finished whole = record (looper_at whole 0 0) { targets_looping_over = true }

  -- The first session takes the last target, and the other one ends the loops.
  last_target :
      (whole front : List Text) (t : Text)
      → length whole < 18446744073709551610
      → whole ≡ front ++ t ∷ []
      → At s (looper_at whole 1 (length front)) (at_top ∷ at_top ∷ []) front
      → At s (finished whole) (requesting (some t) true ∷ appended none ∷ []) (front ++ t ∷ [])
  unfolding advance
  last_target whole front t short w r =
      let n = length front in
      let held = appended (some t) in
      let size : length whole ≡ n + 1 = ap length w ∙ length-append front (t ∷ []) in
      let a = silent s [] at_top (at_top ∷ []) looping _ refl refl r in
      let b = silent s [] looping (at_top ∷ []) (fetching (pos 1)) _ refl refl a in
      let c =
        moved s [] (fetching (pos 1)) (at_top ∷ []) held _ (t ∷ [])
          (fetch_inside whole front t [] 1 short w) refl b in
      let d = silent s (held ∷ []) at_top [] looping _ refl refl c in
      let e = silent s (held ∷ []) looping [] (fetching (pos 1)) _ refl refl d in
      let f =
        silent s (held ∷ []) (fetching (pos 1)) [] (behind (pos 1) (n + 2))
          (looper_at whole 1 (n + 2)) (ground (arith, size)) refl e in
      let g =
        silent s (held ∷ []) (behind (pos 1) (n + 2)) [] (lowered (n + 2))
          (looper_at whole 0 (n + 2)) (ground arith) refl f in
      let h =
        silent s (held ∷ []) (lowered (n + 2)) [] exchanged (looper_at whole 0 0) (ground arith)
          refl g in
      let i = silent s (held ∷ []) exchanged [] closing (looper_at whole 0 0) refl refl h in
      let j = silent s (held ∷ []) closing [] (appended none) (finished whole) refl refl i in
      silent s [] held (appended none ∷ []) (requesting (some t) true) (finished whole) refl refl j

-- Two sessions that loop once over a list of targets that is not empty and shorter than 2^64 - 6 can
-- come to where one has taken the last target and the user is asked for its target all the same: the
-- other one has ended the loops in between.
pub asked_with_target :
    (first : Text) (others front : List Text) (t : Text)
    → length (first ∷ others) < 18446744073709551610
    → first ∷ others ≡ front ++ t ∷ []
    → (s : Client) × Reach (launch (first ∷ others) (pos 1) 2) s
      × (s.taken ≡ first ∷ others)
      × (second : Phase) × (s.sessions ≡ requesting (some t) true ∷ second ∷ [])
unfolding launch
asked_with_target first others front t short w =
    let s = launch (first ∷ others) (pos 1) 2 in
    let begin =
      subst (λ l. At s l (at_top ∷ at_top ∷ []) []) (sym (start_lem 0 first others)) here in
    (
      _,
      last_target s (first ∷ others) front t short w
          (targets_before s (first ∷ others) [] front (t ∷ []) 1 (at_top ∷ []) short w begin),
      sym w,
      _,
      refl,
    )
