-- ===== src/Client/Session/Requested.antt =====
-- The requests and the reports of a session of the client.
use pet_project.Base.{
  ◌+◌, ◌≡◌, ◌≢◌, refl, sym, ap, subst, ◌∙◌, ◌⊎◌, inl, inr, true, false, All, some, List, [], ◌∷◌,
  ◌++◌, Bool, length, length-append, map, append-nil, append_assoc, Option-cases, not, ◌&&◌,
}
use pet_project.Base.Text.{lit, Text}
use mathlib.Core.Option.{some_inj, none-ne-some}
use pet_project.Client.Session.{
  ErrorCode, success, timeout, not_connected, no_such_file, other_error, Round, Surroundings,
  Session, no_session, Flow, broken, continued, target_of, clear_target, is_quit, is_set,
  is_timeout, is_not_connected, round, rounds, shut_down, do_session,
}
use pet_project.Client.Session.Total.{IsNamed, rounds_total}
use pet_project.Client.Session.Reported.{Rounded, round-Rounded}

module _ (e : Surroundings) where
  -- What a round sends that begins with "/", and whether it is the user's ":q".
  abbrev sent_by : Round → Text
  sent_by r = target_of (b'/' ∷ []) r

  abbrev quits : Round → Bool
  quits r = is_quit (sent_by r) r

  -- Where the loop ends: all the rounds have made their requests, or one of them has ended it.
  abbrev Ended : List Round → Session → Flow → Type 0
  Ended rs s (continued t) = (t.requests ≡ s.requests ++ map sent_by rs) × (t.reports ≡ s.reports)
  Ended rs s (broken t) =
      (before : List Round) × (r : Round) × (after : List Round) × (rs ≡ before ++ r ∷ after)
      × (((quits r ≡ true)
            × (t.requests ≡ s.requests ++ map sent_by before)
            × (t.reports ≡ s.reports))
          ⊎ ((quits r ≡ false)
              × (t.requests ≡ s.requests ++ map sent_by (before ++ r ∷ []))
              × (length t.reports ≡ length s.reports + 1)))

  Ended-later :
      (r : Round) (rs : List Round) (s t : Session) (f : Flow)
      → t.requests ≡ s.requests ++ sent_by r ∷ []
      → t.reports ≡ s.reports
      → Ended rs t f
      → Ended (r ∷ rs) s f
  Ended-later r rs s t (continued u) q p (h, k) =
      (h ∙ ap (λ xs. xs ++ map sent_by rs) q ∙ append_assoc s.requests _ _, k ∙ p)
  Ended-later r rs s t (broken u) q p (before, x, after, e, inl (y, h, k)) = (
    r ∷ before,
    x,
    after,
    ap (λ xs. r ∷ xs) e,
    inl (y, h ∙ ap (λ xs. xs ++ map sent_by before) q ∙ append_assoc s.requests _ _, k ∙ p),
  )
  Ended-later r rs s t (broken u) q p (before, x, after, e, inr (y, h, k)) = (
    r ∷ before,
    x,
    after,
    ap (λ xs. r ∷ xs) e,
    inr (
      y,
      h ∙ ap (λ xs. xs ++ map sent_by (before ++ x ∷ [])) q ∙ append_assoc s.requests _ _,
      k ∙ ap (λ xs. length xs + 1) p,
    ),
  )

  Ended-now :
      (r : Round) (rs : List Round) (s t : Session)
      → Rounded e (b'/' ∷ []) r s (broken t)
      → Ended (r ∷ rs) s (broken t)
  Ended-now r rs s t (inl (y, h, k)) =
      ([], r, rs, refl, inl (y, h ∙ sym (append-nil s.requests), k))
  Ended-now r rs s t (inr (n, h, k)) = ([], r, rs, refl, inr (n, h, k))

  rounds-Ended :
      (rs : List Round) (s : Session) (f : Flow)
      → s.target ≡ b'/' ∷ []
      → rounds e rs s ≡ some f
      → Ended rs s f
  unfolding rounds
  rounds-Ended [] s f b h = subst (Ended [] s) (some_inj.0 h) (sym (append-nil s.requests), refl)
  rounds-Ended (r ∷ rs) s f b h = elim (Option-cases (round e r s)) [
    | inl n ↦ absurd (none-ne-some _ (rw n at h))
    | inr (g, y) ↦
        go g (subst (λ t0. Rounded e t0 r s g) b (round-Rounded e r s g y)) (rw y at h)
          (λ t. rounds-Ended rs (clear_target t) f refl)
  ]
    where
      go :
          (g : Flow)
          → Rounded e (b'/' ∷ []) r s g
          → elim g [ broken t ↦ some (broken t) | continued t ↦ rounds e rs (clear_target t) ]
            ≡ some f
          → ((t : Session) → rounds e rs (clear_target t) ≡ some f → Ended rs (clear_target t) f)
          → Ended (r ∷ rs) s f
      go (broken t) k p rest = subst (Ended (r ∷ rs) s) (some_inj.0 p) (Ended-now r rs s t k)
      go (continued t) (_, q, k) p rest = Ended-later r rs s (clear_target t) f q k (rest t p)

-- The end of a connection: nothing after a timeout, and else the words that it is shut down, and a report
-- if the shutdown fails for another reason than that there is no connection.
abbrev pub IsClosed : Surroundings → Session → Session → Type 0
IsClosed e s t =
    ((s.ec ≡ timeout) × (t ≡ s))
    ⊎ ((s.ec ≢ timeout)
        × (t.ec ≡ e.shutdown)
        × (t.requests ≡ s.requests)
        × (t.printed ≡ s.printed ++ (lit "Shutting down (" ++ (e.thread_id ++ lit ")\n")) ∷ [])
        × (((e.shutdown ≡ success) ⊎ (e.shutdown ≡ not_connected)) × (t.reports ≡ s.reports)
            ⊎ ((e.shutdown ≢ success)
                × (e.shutdown ≢ not_connected)
                × (length t.reports ≡ length s.reports + 1))))

timeout_cases :
    (c : ErrorCode)
    → ((c ≡ timeout) × (is_timeout c ≡ true)) ⊎ ((c ≢ timeout) × (is_timeout c ≡ false))
timeout_cases success = inr (λ p. cc, refl)
timeout_cases timeout = inl (refl, refl)
timeout_cases not_connected = inr (λ p. cc, refl)
timeout_cases no_such_file = inr (λ p. cc, refl)
timeout_cases (other_error n) = inr (λ p. cc, refl)

shutdown_cases :
    (c : ErrorCode)
    → (((c ≡ success) ⊎ (c ≡ not_connected)) × (is_set c && not (is_not_connected c) ≡ false))
      ⊎ (((c ≢ success) × (c ≢ not_connected)) × (is_set c && not (is_not_connected c) ≡ true))
shutdown_cases success = inl (inl refl, refl)
shutdown_cases timeout = inr ((λ p. cc, λ p. cc), refl)
shutdown_cases not_connected = inl (inr refl, refl)
shutdown_cases no_such_file = inr ((λ p. cc, λ p. cc), refl)
shutdown_cases (other_error n) = inr ((λ p. cc, λ p. cc), refl)

shut_down-IsClosed : (e : Surroundings) (s : Session) → IsClosed e s (shut_down e s)
unfolding shut_down
shut_down-IsClosed e s = elim (timeout_cases s.ec) [
  | inl (y, q) ↦ inl (y, rw q refl)
  | inr (n, q) ↦ elim (shutdown_cases e.shutdown) [
    | inl (h, k) ↦ inr (n, rw (q, k) refl, rw (q, k) refl, rw (q, k) refl, inl (h, rw (q, k) refl))
    | inr ((h, g), k) ↦ inr (
      n,
      rw (q, k) refl,
      rw (q, k) refl,
      rw (q, k) refl,
      inr (h, g, rw (q, k) (length-append s.reports _)),
    )
  ]
]

-- The end that follows the loop.
abbrev pub Closed : Surroundings → Flow → Flow → Type 0
Closed e (continued s) f = f ≡ continued s
Closed e (broken s) f = (t : Session) × (f ≡ broken t) × IsClosed e s t

closed : Surroundings → Flow → Flow
closed e (broken s) = broken (shut_down e s)
closed e (continued s) = continued s

flow_lem :
    (e : Surroundings) (g : Flow)
    → some (elim g [ broken u ↦ broken (shut_down e u) | continued u ↦ continued u ])
      ≡ some (closed e g)
unfolding closed
flow_lem e (broken s) = refl
flow_lem e (continued s) = refl

closed-Closed : (e : Surroundings) (g : Flow) → Closed e g (closed e g)
unfolding closed
closed-Closed e (broken s) = (shut_down e s, refl, shut_down-IsClosed e s)
closed-Closed e (continued s) = refl

-- What do_session has done, for what resolving and connecting ended in.
abbrev pub Done : Surroundings → ErrorCode → ErrorCode → List Round → Flow → Type 0
Done e success success rs f = (g : Flow) × Ended e rs no_session g × Closed e g f
Done e _ _ rs f = (s : Session) × (f ≡ broken s) × (s.requests ≡ []) × (length s.reports ≡ 1)

-- If the name of every file that is to be saved can be read, do_session ends, or comes to the end of
-- the rounds. If the name is not resolved or the connection not made, there is no request and one
-- report. Else each round has sent its target, "/" and what was appended in that round only, in their
-- order, until one ended the loop: either the user's ":q" with no target before it, which sends nothing
-- and is not reported, or a failure, which is reported once. Then, if the loop did not end with a
-- timeout, the closing of the connection is announced, sends no request, and is reported once if it
-- fails for another reason than that there is no connection; after a timeout nothing follows.
pub do_session-Done :
    (e : Surroundings) (resolved connected : ErrorCode) (rs : List Round)
    → All IsNamed rs
    → (f : Flow) × (do_session e resolved connected rs ≡ some f) × Done e resolved connected rs f
unfolding do_session closed
do_session-Done e success success rs h =
    let (g, y) = rounds_total e rs no_session h in
    (closed e g, rw y (flow_lem e g), (g, rounds-Ended e rs no_session g refl y, closed-Closed e g))
do_session-Done e success timeout rs h = (_, refl, (_, refl, refl, refl))
do_session-Done e success not_connected rs h = (_, refl, (_, refl, refl, refl))
do_session-Done e success no_such_file rs h = (_, refl, (_, refl, refl, refl))
do_session-Done e success (other_error n) rs h = (_, refl, (_, refl, refl, refl))
do_session-Done e timeout c rs h = (_, refl, (_, refl, refl, refl))
do_session-Done e not_connected c rs h = (_, refl, (_, refl, refl, refl))
do_session-Done e no_such_file c rs h = (_, refl, (_, refl, refl, refl))
do_session-Done e (other_error n) c rs h = (_, refl, (_, refl, refl, refl))
