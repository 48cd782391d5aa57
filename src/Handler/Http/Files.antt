-- ===== src/Handler/Http/Files.antt =====
-- Server_HTTP_handler: the tables, the search for a file, and `handle`.
pub mod Served
pub mod Total
use pet_project.Base.{
  ℕ, Bool, true, false, ◌&&◌, ◌||◌, Option, none, some, List, [], ◌∷◌, ◌++◌, length, ltb, ◌==◌,
  if◌then◌else◌, ◌>>=◌,
}
use pet_project.Base.Text.{Text, lit, text_eq, is_empty, back?, set_back}
use pet_project.Database.Result.{PgResult, get_result_container, res_error}
use pet_project.Database.Result.Container.{cell_at}
use pet_project.Handler.Request.{ReqInfo}
use pet_project.Handler.Tables.{forming_tables_helper}
use pet_project.Handler.Dir.{is_illegal, illegal}
use pet_project.Handler.Http.State.{Backend, HttpHandler, exec}
use pet_project.Handler.Http.Log.{update_log_table}

abbrev pub files_query : Text
files_query =
    lit
      "LOCK TABLE song_table IN SHARE MODE; SELECT id, song_name, song_uid FROM song_table ORDER BY id"

abbrev pub log_query : Text
log_query = lit "LOCK TABLE log_table IN SHARE MODE; SELECT * FROM log_table ORDER BY id"

abbrev pub name_query : Text → Text
name_query target =
    lit "SELECT song_name, song_url FROM song_table WHERE song_name SIMILAR TO '"
    ++ (target ++ lit "';")

abbrev pub uid_query : Text → Text
uid_query target =
    lit "SELECT song_name, song_url FROM song_table WHERE song_uid SIMILAR TO '"
    ++ (target ++ lit "';")

abbrev pub failure : PgResult → Text → Text
failure res doing = lit "Database " ++ (res.db_name ++ (doing ++ res_error res))

-- What a table's query adds to the vector.
unfoldable pub add_table : Text → Text → PgResult → ReqInfo → Option ReqInfo
add_table doing no_rows res r =
    let table = (do
      t ← forming_tables_helper (get_result_container res)
      some (record r { result = r.result ++ t })) in
    if res.success
    then if res.n_tuples == 0 then some (record r { result = no_rows }) else table
    else some (record r { error = r.error ++ failure res doing })

-- The target with a final '%' turned back into a star. It is never empty here: `get_file_URI` has
-- looked at its last byte.
unfoldable pub restore_star : Text → Text
restore_star target = elim (back? target) [
  | none ↦ target
  | some c ↦ if c == b'%' then set_back b'*' target else target
]

-- The enum that res_handle returns.
pub data Handled : Type 0 where
  db_error result_is_ok several_files not_found : Handled

abbrev pub several : Text → Text
several target = lit "Several files match the requested target(" ++ (target ++ lit ") at once")

unfoldable pub several_match : ReqInfo → ReqInfo
unfolding restore_star
several_match r = record r {
  target = restore_star r.target;
  error = several (restore_star r.target);
}

unfoldable pub res_handle : ReqInfo → PgResult → Handled × ReqInfo
unfolding several_match
res_handle r res =
    if res.success
    then if res.n_tuples == 1
      then (result_is_ok, r)
      else if ltb 1 res.n_tuples
      then (several_files, several_match r)
      else if res.n_tuples == 0
      then (not_found, r)
      else (
        db_error,
        record r {
          error =
              r.error
              ++ (lit "Database "
                  ++ (res.db_name
                      ++ (lit " returned unusual result while searching for target " ++ r.target)));
        },
      )
    else (
      db_error,
      record r {
        error =
            r.error
            ++ (lit "Database "
                ++ (res.db_name
                    ++ (lit " error while searching for target "
                        ++ (r.target ++ (lit ": " ++ res_error res)))));
      },
    )

-- The end of get_file_URI: the first row's name and folder become the target and the path.
unfoldable pub take_file : ReqInfo → PgResult → Option ReqInfo
take_file r res = do
  name ← cell_at (get_result_container res) 1 0
  url ← cell_at (get_result_container res) 1 1
  some (record r { target = name.text; result = url.text ++ (b'/' ∷ name.text) })

-- The decision after both searches succeeded, with no more than one row each.
unfoldable pub choose : Handled → Handled → PgResult → PgResult → ReqInfo → Option ReqInfo
unfolding take_file several_match
choose not_found not_found res_name res_uid r =
    some (record r { error = lit "File " ++ (r.target ++ lit " not found") })
choose result_is_ok result_is_ok res_name res_uid r = some (several_match r)
choose result_is_ok _ res_name res_uid r = take_file r res_name
choose _ result_is_ok res_name res_uid r = take_file r res_uid
choose _ _ res_name res_uid r = some (several_match r)

-- handled == DB_ERROR || handled == SEVERAL_FILES
abbrev pub stops : Handled → Bool
stops db_error = true
stops several_files = true
stops _ = false

unfoldable pub decide : PgResult → PgResult → ReqInfo → Option ReqInfo
unfolding res_handle choose
decide res_name res_uid r =
    let (name, r1) = res_handle r res_name in
    let (uid, r2) = res_handle r1 res_uid in
    let chosen = choose name uid res_name res_uid r2 in
    if stops name then some r1 else if stops uid then some r2 else chosen

-- A final star becomes the wildcard of SIMILAR TO.
unfoldable pub wildcard : ℕ → Text → Text
wildcard last target =
    if ltb 1 (length target) && last == b'*' then set_back b'%' target else target

module _ {σ : Type 0} (b : Backend σ) where
  unfoldable pub forming_files_table : HttpHandler σ → ReqInfo → Option (HttpHandler σ × ReqInfo)
  unfolding add_table
  forming_files_table h r =
      let (res, h1) = exec b files_query false h in
      do
        r1 ←
            add_table (lit " error while forming files table: ")
              (lit "No files available at that moment\n") res r
        some (h1, r1)

  unfoldable pub forming_log_table : HttpHandler σ → ReqInfo → Option (HttpHandler σ × ReqInfo)
  unfolding add_table
  forming_log_table h r =
      let (res, h1) = exec b log_query false h in
      do
        r1 ←
            add_table (lit " error while forming log table: ")
              (r.result ++ lit "Log table have no records at that moment\n") res r
        some (h1, r1)

  unfoldable pub search_file : HttpHandler σ → ReqInfo → Option (HttpHandler σ × ReqInfo)
  unfolding decide
  search_file h r =
      let (res_name, h1) = exec b (name_query r.target) false h in
      let (res_uid, h2) = exec b (uid_query r.target) false h1 in
      do r' ← decide res_name res_uid r; some (h2, r')

  unfoldable pub get_file_uri : HttpHandler σ → ReqInfo → Option (HttpHandler σ × ReqInfo)
  unfolding search_file wildcard
  get_file_uri h r = do
    last ← back? r.target
    let found = search_file h (record r { target = wildcard last r.target })
    if is_illegal last r.target then some (h, record r { error = illegal }) else found

  -- What `handle` does after the log table has been updated.
  unfoldable pub dispatch : HttpHandler σ → ReqInfo → Option (Bool × HttpHandler σ × ReqInfo)
  unfolding forming_files_table forming_log_table get_file_uri
  dispatch h r =
      if is_empty r.target || text_eq r.target (lit "/")
      then (do s ← forming_files_table h r; t ← forming_log_table s.0 s.1; some (false, t.0, t.1))
      else if text_eq r.target (lit "files_table") || text_eq r.target (lit "Files_table")
      then (do s ← forming_files_table h r; some (false, s.0, s.1))
      else if text_eq r.target (lit "log_table") || text_eq r.target (lit "Log_table")
      then (do s ← forming_log_table h r; some (false, s.0, s.1))
      else (do s ← get_file_uri h r; some (true, s.0, s.1))

  unfoldable pub handle : HttpHandler σ → ReqInfo → Option (Bool × HttpHandler σ × ReqInfo)
  unfolding update_log_table dispatch
  handle h r = do s ← update_log_table b h r; dispatch s.0 s.1
