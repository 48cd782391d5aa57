-- ===== src/Handler/Http/Log.antt =====
-- Server_HTTP_handler: the constructor, which puts the tables in order, and update_log_table.
pub mod Constructed
use pet_project.Base.{
  Bool, true, false, Option, none, some, List, [], ◌∷◌, ◌++◌, ltb, if◌then◌else◌, ◌>>=◌, ◌==◌,
}
use pet_project.Base.Text.{Text, lit}
use pet_project.Base.Int.{ℤ, pos, negsuc, int_ltb, half, increment}
use pet_project.Base.Decimal.{int_to_string, atoi}
use pet_project.Database.Result.{PgResult, get_result_single, res_error}
use pet_project.Handler.Request.{ReqInfo}
use pet_project.Handler.Http.State.{Backend, HttpHandler, exec, log_failure}

abbrev pub update_ids : Text
update_ids =
    lit
      "LOCK TABLE song_table IN ACCESS EXCLUSIVE MODE; ALTER SEQUENCE song_seq RESTART; UPDATE song_table SET ID = DEFAULT;LOCK TABLE log_table IN ACCESS EXCLUSIVE MODE; ALTER SEQUENCE log_seq RESTART; UPDATE log_table SET ID = DEFAULT"

abbrev pub delete_old : ℤ → Text
delete_old days =
    lit
      "LOCK TABLE log_table IN ACCESS EXCLUSIVE MODE;DELETE FROM log_table WHERE (DATE_TRUNC('days', (LOCALTIMESTAMP - req_date_time)) >= (INTERVAL '"
    ++ (int_to_string days
        ++ lit "' DAY)); ALTER SEQUENCE log_seq RESTART; UPDATE log_table SET ID = DEFAULT")

abbrev pub count_rows : Text
count_rows = lit "LOCK TABLE log_table IN ACCESS EXCLUSIVE MODE; SELECT count(*) FROM log_table"

abbrev pub trim_command : ℤ → Text
trim_command rows_delete =
    lit "LOCK TABLE log_table IN ACCESS EXCLUSIVE MODE; DELETE FROM log_table WHERE id <= "
    ++ (int_to_string rows_delete
        ++ lit
            "; ALTER SEQUENCE log_seq RESTART; UPDATE log_table SET ID = DEFAULT; SELECT last_value FROM log_seq")

abbrev pub insert_command : ReqInfo → Text
insert_command r =
    lit
      "LOCK TABLE log_table IN ACCESS EXCLUSIVE MODE; INSERT INTO log_table (id, requested_host, port, ip, user_agent, rest_method, target, req_date_time) VALUES(DEFAULT, '"
    ++ (r.host
        ++ (lit "', '"
            ++ (r.port
                ++ (lit "', '"
                    ++ (r.ip_address
                        ++ (lit "'::inet, '"
                            ++ (r.user_agent
                                ++ (lit "', '"
                                    ++ (r.method
                                        ++ (lit "', '"
                                            ++ (r.target ++ lit "', LOCALTIMESTAMP)")))))))))))

-- a == b, as compare_exchange_strong compares
abbrev pub int_eqb : ℤ → ℤ → Bool
int_eqb (pos a) (pos b) = a == b
int_eqb (negsuc a) (negsuc b) = a == b
int_eqb _ _ = false

module _ {σ : Type 0} (b : Backend σ) where
  -- log_table_nrows.store(atoi(…)), if there is a row
  unfoldable pub store_count : PgResult → HttpHandler σ → Option (HttpHandler σ)
  store_count res h =
      if ltb 0 res.n_tuples
      then (do s ← get_result_single res; some (record h { log_table_nrows = atoi s }))
      else some h

  -- The constructor, from the database `db`.
  unfoldable pub construct : Bool → ℤ → ℤ → σ → Option (HttpHandler σ)
  unfolding store_count
  construct has_logger days rows db =
      let h0 : HttpHandler σ = record {
        db = db;
        has_logger = has_logger;
        log = [];
        days_limit = days;
        rows_limit = rows;
        log_table_nrows = pos 0;
        sent = [];
      } in
      let (res1, h1) = exec b update_ids true h0 in
      let h1' =
        log_failure (lit "Couldn't update ids in tables of database: ") update_ids res1 h1 in
      let (res2, h2) = exec b (delete_old days) true h1' in
      let h2' = log_failure (lit "Database ") (delete_old days) res2 h2 in
      let (res3, h3) = exec b count_rows true h2' in store_count res3 h3

  -- compare_exchange_strong(expected, desired) on the counter
  unfoldable pub exchange_count : ℤ → ℤ → HttpHandler σ → HttpHandler σ
  exchange_count expected desired h = record h {
    log_table_nrows = if int_eqb h.log_table_nrows expected then desired else h.log_table_nrows;
  }

  -- When the counter exceeds the limit: half of the rows are deleted, and the counter is set to what
  -- the database answers, also when it answers with a failure.
  unfoldable pub trim : HttpHandler σ → Option (HttpHandler σ)
  unfolding exchange_count
  trim h =
      let (res, h1) = exec b (trim_command (half h.rows_limit)) true h in
      let h2 = log_failure (lit "Database ") (trim_command (half h.rows_limit)) res h1 in
      let exchange = (do
        s ← get_result_single res
        some (exchange_count h.log_table_nrows (atoi s) h2)) in
      if int_ltb h.rows_limit h.log_table_nrows then exchange else some h

  unfoldable pub insert_row : HttpHandler σ → ReqInfo → HttpHandler σ × ReqInfo
  insert_row h r =
      let (res, h1) = exec b (insert_command r) false h in
      if res.success then (record h1 { log_table_nrows = increment h1.log_table_nrows }, r) else (
        h1,
        record r {
          error =
              r.error
              ++ (lit "Database "
                  ++ (res.db_name ++ (lit " error while updating log table: " ++ res_error res)));
        },
      )

  unfoldable pub update_log_table : HttpHandler σ → ReqInfo → Option (HttpHandler σ × ReqInfo)
  unfolding trim insert_row
  update_log_table h r = do h' ← trim h; some (insert_row h' r)
