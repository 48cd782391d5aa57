-- ===== src/Client/Session/Total.antt =====
-- The rounds of a session whose files have names.
use pet_project.Base.{
  ◌≡◌, refl, Bool, true, false, All, Option, some, List, [], ◌∷◌, Bool-cases, inl, inr,
}
use pet_project.Base.Text.{Text}
use pet_project.Client.{file_name}
use pet_project.Client.Session.{
  ErrorCode, success, timeout, not_connected, no_such_file, other_error, Round, Surroundings,
  Session, Flow, broken, continued, is_quit, round, rounds, checked, save_body, receive_body,
  receive, is_page, open_for, announced, set_params_file_body_parser, print, target_of,
  append_target, clear_target, send,
}

-- The name of the file that the round would save has its closing quotation mark.
abbrev pub IsNamed : Round → Type 0
IsNamed r = (name : Text) × (file_name r.answered_name r.header.content_disposition ≡ some name)

abbrev pub Gives : Option Flow → Type 0
Gives o = (f : Flow) × (o ≡ some f)

module _ (e : Surroundings) where
  checked_total :
      (ec : ErrorCode) (before : Text) (s : Session) (rest : Session → Option Flow)
      → ((t : Session) → Gives (rest t))
      → Gives (checked e ec before s rest)
  checked_total success before s rest h = h _
  checked_total timeout before s rest h = (_, refl)
  checked_total not_connected before s rest h = (_, refl)
  checked_total no_such_file before s rest h = (_, refl)
  checked_total (other_error n) before s rest h = (_, refl)

  save_body_total : (r : Round) (x : Bool × Session) → Gives (save_body e r x)
  save_body_total r (true, s) =
      checked_total r.body_read _ s (λ t. some (continued (print r.header.text t))) (λ t. (_, refl))
  save_body_total r (false, s) = (_, refl)

  receive_body_total : (r : Round) (s : Session) → IsNamed r → Gives (receive_body e r s)
  unfolding set_params_file_body_parser
  receive_body_total r s (name, h) = elim (Bool-cases (is_page r.header)) [
    | inl y ↦
        rw y
          (checked_total r.body_read _ s (λ t. some (continued (print r.page t))) (λ t. (_, refl)))
    | inr n ↦ rw (n, h) (save_body_total r (open_for e name r (announced e r s)))
  ]

  round_total : (r : Round) (s : Session) → IsNamed r → Gives (round e r s)
  unfolding round
  round_total r s h = elim (Bool-cases (is_quit (target_of s.target r) r)) [
    | inl y ↦ rw y (_, refl)
    | inr n ↦ rw n (
        checked_total r.written _ (send (append_target r s)) (receive e r)
          (λ t. checked_total r.header_read _ t (receive_body e r) (λ u. receive_body_total r u h)))
  ]

  pub rounds_total : (rs : List Round) (s : Session) → All IsNamed rs → Gives (rounds e rs s)
  unfolding rounds
  rounds_total [] s h = (_, refl)
  rounds_total (r ∷ rs) s (h, hs) =
      let (g, y) = round_total r s h in rw y (go g (λ t. rounds_total rs (clear_target t) hs))
    where
      go :
          (g : Flow)
          → ((t : Session) → Gives (rounds e rs (clear_target t)))
          → Gives
              (elim g [ broken t ↦ some (broken t) | continued t ↦ rounds e rs (clear_target t) ])
      go (broken t) rest = (_, refl)
      go (continued t) rest = rest t
