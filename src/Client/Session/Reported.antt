-- ===== src/Client/Session/Reported.antt =====
-- What one round of a session of the client requests and reports.
use pet_project.Base.{
  ◌+◌, ◌≡◌, refl, ap, subst, ◌∙◌, ◌⊎◌, inl, inr, Bool, true, false, Option, some, [], ◌∷◌, ◌++◌,
  length, arith, length-append, Option-cases, Bool-cases, not, ◌&&◌,
}
use mathlib.Core.Option.{some_inj, none-ne-some}
use pet_project.Base.Text.{Text}
use pet_project.Client.Session.{
  ErrorCode, success, Round, Surroundings, Session, Flow, broken, continued, target_of, is_quit,
  round, print, set_ec, append_target, send, is_set, is_no_such_file, announced, open_for, checked,
  receive_page, save_body, is_page, receive_file, receive_body, receive, timeout, not_connected,
  no_such_file, other_error, set_params_file_body_parser,
}
use pet_project.Client.{file_name}

module _ (e : Surroundings) where
  -- A round that begins with the target `t0` and is not the user's ":q" sends its target, and makes a
  -- report if it ends the loop.
  abbrev pub Rounded : Text → Round → Session → Flow → Type 0
  Rounded t0 r s (broken t) =
      ((is_quit (target_of t0 r) r ≡ true) × (t.requests ≡ s.requests) × (t.reports ≡ s.reports))
      ⊎ ((is_quit (target_of t0 r) r ≡ false)
          × (t.requests ≡ s.requests ++ target_of t0 r ∷ [])
          × (length t.reports ≡ length s.reports + 1))
  Rounded t0 r s (continued t) =
      (is_quit (target_of t0 r) r ≡ false)
      × (t.requests ≡ s.requests ++ target_of t0 r ∷ [])
      × (t.reports ≡ s.reports)

  -- What follows the request: it ends the loop with a report, or goes on without one.
  abbrev After : Session → Flow → Type 0
  After s (broken t) = (t.requests ≡ s.requests) × (length t.reports ≡ length s.reports + 1)
  After s (continued t) = (t.requests ≡ s.requests) × (t.reports ≡ s.reports)

  some-After : (s : Session) (f g : Flow) → After s f → some f ≡ some g → After s g
  some-After s f g h p = subst (After s) (some_inj.0 p) h

  checked-After :
      (ec : ErrorCode) (before : Text) (s : Session) (rest : Session → Option Flow) (f : Flow)
      → ((g : Flow) → rest (record s { ec = ec }) ≡ some g → After s g)
      → checked e ec before s rest ≡ some f
      → After s f
  checked-After success before s rest f h p = h f p
  checked-After timeout before s rest f h p = some-After s _ f (refl, length-append s.reports _) p
  checked-After not_connected before s rest f h p =
      some-After s _ f (refl, length-append s.reports _) p
  checked-After no_such_file before s rest f h p =
      some-After s _ f (refl, length-append s.reports _) p
  checked-After (other_error n) before s rest f h p =
      some-After s _ f (refl, length-append s.reports _) p

  page-After : (r : Round) (s : Session) (f : Flow) → receive_page e r s ≡ some f → After s f
  page-After r s f p =
      checked-After r.body_read _ s (λ t. some (continued (print r.page t))) f
        (λ g q. some-After s (continued (print r.page (set_ec r.body_read s))) g (refl, refl) q) p

  -- What set_params_file_body_parser changes: a report for each failure.
  Prepared : Session → Bool × Session → Type 0
  Prepared s (true, t) = (t.requests ≡ s.requests) × (t.reports ≡ s.reports)
  Prepared s (false, t) = (t.requests ≡ s.requests) × (length t.reports ≡ length s.reports + 1)

  announced-Prepared :
      (r : Round) (s : Session) (x : Bool × Session) → Prepared (announced e r s) x → Prepared s x
  unfolding Prepared
  announced-Prepared r s (true, t) h = ground arith
  announced-Prepared r s (false, t) h = ground arith

  open_for-Prepared : (name : Text) (r : Round) (s : Session) → Prepared s (open_for e name r s)
  unfolding Prepared
  open_for-Prepared name r s = elim (Bool-cases (not r.exists && is_set r.created)) [
    | inl y ↦ rw y (refl, length-append s.reports _)
    | inr n ↦ elim (Bool-cases (is_no_such_file r.opened)) [
      | inl y ↦ rw (n, y) (refl, length-append s.reports _)
      | inr m ↦ rw (n, m) (refl, refl)
    ]
  ]

  params-Prepared :
      (r : Round) (s : Session) (x : Bool × Session)
      → set_params_file_body_parser e r s ≡ some x
      → Prepared s x
  unfolding set_params_file_body_parser
  params-Prepared r s x h =
      elim (Option-cases (file_name r.answered_name r.header.content_disposition)) [
        | inl n ↦ absurd (none-ne-some _ (rw n at h))
        | inr (name, y) ↦
            subst (Prepared s) (some_inj.0 (rw y at h))
              (announced-Prepared r s _ (open_for-Prepared name r (announced e r s)))
      ]

  save-After :
      (r : Round) (s : Session) (x : Bool × Session) (f : Flow)
      → Prepared s x
      → save_body e r x ≡ some f
      → After s f
  unfolding Prepared
  save-After r s (false, t) f k h = some-After s (broken t) f k h
  save-After r s (true, t) f (k, l) h = from_prepared f (
      checked-After r.body_read _ t (λ u. some (continued (print r.header.text u))) f
        (λ g q.
          some-After t (continued (print r.header.text (set_ec r.body_read t))) g (refl, refl) q)
        h)
    where
      from_prepared : (g : Flow) → After t g → After s g
      from_prepared (broken u) (p, q) = (p ∙ k, q ∙ ap (λ xs. length xs + 1) l)
      from_prepared (continued u) (p, q) = (p ∙ k, q ∙ l)

  file-After : (r : Round) (s : Session) (f : Flow) → receive_file e r s ≡ some f → After s f
  file-After r s f h = elim (Option-cases (set_params_file_body_parser e r s)) [
    | inl n ↦ absurd (none-ne-some _ (rw n at h))
    | inr (x, y) ↦ save-After r s x f (params-Prepared r s x y) (rw y at h)
  ]

  body-After : (r : Round) (s : Session) (f : Flow) → receive_body e r s ≡ some f → After s f
  body-After r s f h = elim (Bool-cases (is_page r.header)) [
    | inl y ↦ page-After r s f (rw y at h)
    | inr n ↦ file-After r s f (rw n at h)
  ]

  from_request :
      (r : Round) (s : Session) (f : Flow)
      → is_quit (target_of s.target r) r ≡ false
      → After (send (append_target r s)) f
      → Rounded s.target r s f
  from_request r s (broken t) q (k, l) = inr (q, k, l)
  from_request r s (continued t) q (k, l) = (q, k, l)

  quit-Rounded :
      (r : Round) (s : Session) (f : Flow)
      → is_quit (target_of s.target r) r ≡ true
      → some (broken (append_target r s)) ≡ some f
      → Rounded s.target r s f
  quit-Rounded r s f y h = subst (Rounded s.target r s) (some_inj.0 h) (inl (y, refl, refl))

  pub round-Rounded :
      (r : Round) (s : Session) (f : Flow) → round e r s ≡ some f → Rounded s.target r s f
  unfolding round
  round-Rounded r s f h = elim (Bool-cases (is_quit (target_of s.target r) r)) [
    | inl y ↦ quit-Rounded r s f y (rw y at h)
    | inr n ↦
        let sent : Session = send (append_target r s) in
        from_request r s f n (
          checked-After r.written _ sent (receive e r) f
            (λ g p.
              checked-After r.header_read _ (set_ec r.written sent) (receive_body e r) g
                (λ k q. body-After r (set_ec r.header_read (set_ec r.written sent)) k q) p)
            (rw n at h))
  ]
