-- ===== src/Database/Connect.antt =====
-- DB_module/src/DB_module.cpp: connection_pool::make_connections, warm and the destructor. What libpq
-- answers is an argument: for the future `i` and its attempt `j`, the connection and whether its
-- status is CONNECTION_OK.
pub mod Established
use pet_project.Base.{
  ℕ, zero, suc, ◌+◌, Bool, true, false, Option, none, some, List, [], ◌∷◌, ◌++◌, map, length,
  if◌then◌else◌,
}
use pet_project.Base.Text.{Text, lit, text_eq}

-- The attempts of one future from attempt `j` on, `left` of them: the connection that is returned,
-- and those that PQfinish got.
unfoldable pub attempts : ℕ → (ℕ → ℕ × Bool) → ℕ → Option ℕ × List ℕ
attempts zero connect j = (none, [])
attempts (suc left) connect j =
    let (c, ok) = connect j in
    let (found, finished) = attempts left connect (j + 1) in
    if ok then (some c, []) else (found, c ∷ finished)

abbrev pub attempts_overall : ℕ
attempts_overall = 5

-- The futures from `i` on, `count` of them: conns_deque, and what PQfinish got.
unfoldable pub connections_from : ℕ → (ℕ → ℕ → ℕ × Bool) → ℕ → List ℕ × List ℕ
unfolding attempts
connections_from zero connect i = ([], [])
connections_from (suc count) connect i =
    let (found, finished) = attempts attempts_overall (connect i) 0 in
    let (conns, later) = connections_from count connect (i + 1) in
    (elim found [ none ↦ conns | some c ↦ c ∷ conns ], finished ++ later)

pub record Connections : Type 0 where
  pub conns_deque : List ℕ
  pub conns_established : ℕ

unfoldable pub make_connections : ℕ → (ℕ → ℕ → ℕ × Bool) → Connections
unfolding connections_from
make_connections conn_count connect = record {
  conns_deque = (connections_from conn_count connect 0).0;
  conns_established = length (connections_from conn_count connect 0).0;
}

-- ~connection_pool: PQfinish for every connection, from the front
unfoldable pub finish_all : List ℕ → List ℕ
finish_all [] = []
finish_all (c ∷ cs) = c ∷ finish_all cs

-- warm(): what is executed on which connection; `database` is PQdb.
unfoldable pub warm_one : ℕ → List Text → List (ℕ × Text)
warm_one c [] = []
warm_one c (table ∷ tables) = (c, lit "SELECT * FROM " ++ table) ∷ warm_one c tables

pub warm : (ℕ → Text) → Text → List Text → List ℕ → List (ℕ × Text)
unfolding warm_one
warm database name tables [] = []
warm database name tables (c ∷ cs) =
    let rest = warm database name tables cs in
    if text_eq (database c) name then warm_one c tables ++ rest else rest
