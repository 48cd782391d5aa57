-- ===== src/Database/Result.antt =====
-- DB_module/src/DB_module.cpp and include/DB_module.h: the class PG_result. A `PGresult` is libpq's:
-- here it is the record of what libpq's functions answer for it, and a null one is `none`.
pub mod Ownership
pub mod Container
use pet_project.Base.{
  ℕ, zero, suc, Bool, true, false, ◌&&◌, ◌||◌, Option, none, some, List, [], ◌∷◌, ◌++◌, length, ltb,
  tabulate, if◌then◌else◌, ◌>>=◌,
}
use pet_project.Base.Text.{Text, lit, text_eq}
use pet_project.Base.Int.{ℤ, pos}
use pet_project.Base.Decimal.{atoi}

pub record Pgresult : Type 0 where
  pub status_name : Text
  pub nfields : ℕ
  pub ntuples : ℕ
  pub fname : ℕ → Text
  pub value : ℕ → ℕ → Text
  pub error_message : Text
  pub cmd_status : Text

-- PQresStatus(PQresultStatus(r)); libpq says that a null result is a fatal error
abbrev pub status_of : Option Pgresult → Text
status_of none = lit "PGRES_FATAL_ERROR"
status_of (some r) = r.status_name

-- PQgetvalue(r, i, j): null outside the result
unfoldable pub get_value : Option Pgresult → ℕ → ℕ → Option Text
get_value none i j = none
get_value (some r) i j = if ltb i r.ntuples && ltb j r.nfields then some (r.value i j) else none

pub record PgResult : Type 0 where
  pub result : Option Pgresult
  pub db_name : Text
  pub success : Bool
  pub n_fields : ℕ
  pub n_tuples : ℕ

-- PG_result()
abbrev pub empty_result : PgResult
empty_result = record { result = none; db_name = []; success = false; n_fields = 0; n_tuples = 0 }

abbrev pub not_succeed : List Text
not_succeed =
    lit "PGRES_EMPTY_QUERY"
    ∷ lit "PGRES_BAD_RESPONSE"
    ∷ lit "PGRES_NONFATAL_ERROR"
    ∷ lit "PGRES_FATAL_ERROR"
    ∷ []

-- std::find(texts.begin(), texts.end(), s) != texts.end()
unfoldable pub found_in : List Text → Text → Bool
found_in [] s = false
found_in (t ∷ ts) s = text_eq t s || found_in ts s

unfoldable pub nfields_of : Option Pgresult → ℕ
nfields_of none = 0
nfields_of (some r) = r.nfields

unfoldable pub ntuples_of : Option Pgresult → ℕ
ntuples_of none = 0
ntuples_of (some r) = r.ntuples

-- PG_result(res, DB_name)
unfoldable pub make : Option Pgresult → Text → PgResult
unfolding nfields_of ntuples_of
make res name =
    if found_in not_succeed (status_of res)
    then record { result = res; db_name = name; success = false; n_fields = 0; n_tuples = 0 }
    else record {
      result = res;
      db_name = name;
      success = true;
      n_fields = nfields_of res;
      n_tuples = ntuples_of res;
    }

-- The destination and the source after a move; the source keeps an unspecified name, here empty.
pub construct_assign : PgResult → PgResult → PgResult × PgResult
construct_assign this other = (
  record this {
    result = other.result;
    success = other.success;
    db_name = other.db_name;
    n_fields = other.n_fields;
    n_tuples = other.n_tuples;
  },
  empty_result,
)

-- operator=(PG_result&&); `same` tells whether the two are one object
pub move_assign : Bool → PgResult → PgResult → PgResult × PgResult
unfolding construct_assign
move_assign true this rhs = (this, this)
move_assign false this rhs = construct_assign this rhs

-- PG_result(PG_result&&)
pub move_construct : PgResult → PgResult × PgResult
unfolding construct_assign
move_construct other = construct_assign empty_result other

-- The destructor: the result that PQclear frees.
abbrev pub cleared_by_destructor : PgResult → Option Pgresult
cleared_by_destructor r = r.result

-- A pair of a C string and its length.
pub record Cell : Type 0 where
  pub text : Text
  pub len : ℕ

abbrev pub cell : Text → Cell
cell t = record { text = t; len = length t }

abbrev pub Container : Type 0
Container = List (List Cell)

unfoldable pub field_name : Option Pgresult → ℕ → Text
field_name none i = []
field_name (some r) i = r.fname i

unfoldable pub field_value : Option Pgresult → ℕ → ℕ → Text
field_value none i j = []
field_value (some r) i j = r.value i j

-- A row for the header, and one for each tuple.
unfoldable pub get_result_container : PgResult → Container
unfolding tabulate field_name field_value
get_result_container r =
    tabulate 0 r.n_fields (λ i. cell (field_name r.result i))
    ∷ tabulate 0 r.n_tuples (λ i. tabulate 0 r.n_fields (λ j. cell (field_value r.result i j)))

unfoldable pub get_result_command_tag : PgResult → ℤ
get_result_command_tag r = elim r.result [ some p ↦ atoi p.cmd_status | none ↦ pos 2147483647 ]

-- PQgetvalue(result, 0, 0)
unfoldable pub get_result_single : PgResult → Option Text
unfolding get_value
get_result_single r = get_value r.result 0 0

unfoldable pub res_error : PgResult → Text
res_error r = elim r.result [ some p ↦ p.error_message | none ↦ [] ]

-- One line of the table that display_exec_result prints: the texts, a tab behind each.
unfoldable pub tabbed : List Text → Text
tabbed [] = b'\n' ∷ []
tabbed (t ∷ ts) = t ++ (b'\t' ∷ tabbed ts)

unfoldable pub lines : List Text → Text
lines [] = []
lines (t ∷ ts) = t ++ lines ts

pub display_exec_result : PgResult → Text
unfolding tabbed lines tabulate field_name field_value
display_exec_result r =
    if r.success
    then tabbed (tabulate 0 r.n_fields (field_name r.result))
      ++ lines
          (tabulate 0 r.n_tuples (λ i. tabbed (tabulate 0 r.n_fields (field_value r.result i))))
    else []
