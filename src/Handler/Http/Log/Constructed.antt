-- ===== src/Handler/Http/Log/Constructed.antt =====
-- Server_HTTP_handler's constructor: that it succeeds, and the limits of the handler that it makes.
use pet_project.Base.{◌≡◌, ◌≢◌, refl, Bool, true, Option-cases, inl, inr, some, none, arith, ◌∙◌}
use pet_project.Base.Text.{Text}
use pet_project.Base.Int.{ℤ}
use pet_project.Database.Result.{PgResult, get_result_single}
use pet_project.Handler.Http.State.{Backend, HttpHandler, exec, make_record, log_failure}
use pet_project.Handler.Http.Log.{store_count, count_rows, construct}

module _ {σ : Type 0} where
  abbrev pub limits : HttpHandler σ → ℤ × ℤ
  limits h = (h.days_limit, h.rows_limit)

  limits-exec :
      (b : Backend σ) (command : Text) (front : Bool) (h : HttpHandler σ)
      → limits (exec b command front h).1 ≡ limits h
  unfolding exec
  limits-exec b command front h = refl

  limits-log_failure :
      (begin command : Text) (res : PgResult) (h : HttpHandler σ)
      → limits (log_failure begin command res h) ≡ limits h
  unfolding log_failure make_record
  limits-log_failure begin command res h = ground arith

  limits-store_count :
      (b : Backend σ) (res : PgResult) (h h' : HttpHandler σ)
      → store_count b res h ≡ some h'
      → limits h' ≡ limits h
  unfolding store_count
  limits-store_count b res h h' e = ground arith

  pub limits-construct :
      (b : Backend σ) (logger : Bool) (days rows : ℤ) (db : σ) (h : HttpHandler σ)
      → construct b logger days rows db ≡ some h
      → limits h ≡ (days, rows)
  unfolding construct
  limits-construct b logger days rows db h e =
      limits-store_count b _ _ h e
      ∙ limits-exec b _ _ _
      ∙ limits-log_failure _ _ _ _
      ∙ limits-exec b _ _ _
      ∙ limits-log_failure _ _ _ _
      ∙ limits-exec b _ _ _

  -- The database answers the count of the rows with a value.
  abbrev pub Counts : Backend σ → Type 0
  Counts b = (h : HttpHandler σ) → get_result_single (exec b count_rows true h).0 ≢ none

  store_count_total :
      (b : Backend σ) (res : PgResult) (h : HttpHandler σ)
      → get_result_single res ≢ none
      → (h' : HttpHandler σ) × (store_count b res h ≡ some h')
  unfolding store_count
  store_count_total b res h s = elim (Option-cases (store_count b res h)) [
    | inl n ↦ absurd (ground (arith, n, s))
    | inr found ↦ found
  ]

  pub construct_total :
      (b : Backend σ) (logger : Bool) (days rows : ℤ) (db : σ)
      → Counts b
      → (h : HttpHandler σ) × (construct b logger days rows db ≡ some h)
  unfolding construct
  construct_total b logger days rows db c = store_count_total b _ _ (c _)
