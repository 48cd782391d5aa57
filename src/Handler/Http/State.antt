-- ===== src/Handler/Http/State.antt =====
-- Handler/include/handler.h, class Server_HTTP_handler: its state, and its calls of DB_module and of
-- the logger. `sent` and `log` list those calls in their order.
use pet_project.Base.{Bool, Option, List, [], ◌∷◌, ◌++◌, if◌then◌else◌}
use pet_project.Base.Text.{Text, lit}
use pet_project.Base.Int.{ℤ}
use pet_project.Database.Result.{Pgresult, PgResult, make, res_error}

pub record Backend (σ : Type 0) : Type 0 where
  -- the result, the name of the database, and the database afterwards
  pub pqexec : Text → Bool → σ → Option Pgresult × Text × σ
  pub others : σ → ℤ → ℤ

pub record HttpHandler (σ : Type 0) : Type 0 where
  pub db : σ
  pub has_logger : Bool
  pub log : List Text
  pub days_limit : ℤ
  pub rows_limit : ℤ
  pub log_table_nrows : ℤ
  pub sent : List (Text × Bool)

module _ {σ : Type 0} where
  -- DB_ptr->exec_command(command, front_flag).get()
  unfoldable pub exec : Backend σ → Text → Bool → HttpHandler σ → PgResult × HttpHandler σ
  exec b command front h =
      let (res, name, db) = b.pqexec command front h.db in
      (
        make res name,
        record h {
          db = db;
          sent = h.sent ++ (command, front) ∷ [];
          log_table_nrows = b.others db h.log_table_nrows;
        },
      )

  -- if (logger) logger->make_record(message);
  unfoldable pub make_record : Text → HttpHandler σ → HttpHandler σ
  make_record message h = if h.has_logger then record h { log = h.log ++ message ∷ [] } else h

  -- The record of a command that failed.
  unfoldable pub log_failure : Text → Text → PgResult → HttpHandler σ → HttpHandler σ
  unfolding make_record
  log_failure start command res h =
      if res.success
      then h
      else make_record
          (start
            ++ (res.db_name
                ++ (lit " error: "
                    ++ (res_error res ++ (lit ", executing: " ++ (command ++ lit " query\n"))))))
          h
