-- ===== src/Tests/Main.antt =====
-- The program of the server, with its ini file in the working directory.
use pet_project.Base.{
  ℕ, zero, suc, ◌≡◌, refl, true, false, none, some, List, [], ◌∷◌, map, arith, Option,
}
use pet_project.Base.Text.{Text, lit, back?}
use pet_project.Handler.Dir.{path_append}
use pet_project.Parser.CString.{until_nul}
use pet_project.Parser.Massives.{Section, constructing_massives}
use pet_project.Parser.Classes.{Ptree, parser_db, construct}
use pet_project.Database.Startup as Database
use pet_project.Database.Startup.{DbModule, by_parser, connection_pool, starting_threads}
use pet_project.Database.Startup.Unreached.{made, construct-made}
use pet_project.Parser.Search.{Item, regular, dir_text}
use pet_project.Parser.Search.Nearest.{up}
use pet_project.Handler.Http.Log.{count_rows}
use pet_project.Handler.Http.Log.Constructed.{Counts}
use pet_project.Server.Startup.{accepted, endpoint}
use pet_project.Server.Main.{System, Running, blocked, reached, config_name, main}
use pet_project.Server.Main.Configured.{IsConfigured, main-IsConfigured, main-blocked}
use pet_project.Server.Main.Required.{IsFound, main-IsFound}
use pet_project.Tests.Handler.{answering, answered, get_result_single_three}

abbrev digit : Text
digit = b'3' ∷ []

-- Nine entries, which all have the value 3.
abbrev nine : Section
nine =
    (digit, digit)
    ∷ (digit, digit)
    ∷ (digit, digit)
    ∷ (digit, digit)
    ∷ (digit, digit)
    ∷ (digit, digit)
    ∷ (digit, digit)
    ∷ (digit, digit)
    ∷ (digit, digit)
    ∷ []

nine_values :
    map (λ x. until_nul x.1) nine
    ≡ digit ∷ digit ∷ digit ∷ digit ∷ digit ∷ digit ∷ digit ∷ digit ∷ digit ∷ []
unfolding until_nul
nine_values = refl

abbrev config : Ptree
config name = some nine

-- Every text of at least two bytes is the path of an ini file.
abbrev read_long : Text → Option Ptree
read_long [] = none
read_long (c ∷ []) = none
read_long (c ∷ d ∷ t) = some config

abbrev only_config : List Item
only_config = record { filename = config_name; file_type = regular } ∷ []

abbrev system : System Unit
system = record {
  files = λ dir. only_config;
  read_ini = read_long;
  hardware = 2;
  connect = λ i j. (i, true);
  starts = λ i. true;
  logger_starts = λ name folder size. true;
  endpoint = λ address port. record {
    address = address;
    port = port;
    address_ec = none;
    open_ec = none;
    option_ec = none;
    bind_ec = none;
    listen_ec = none;
  };
  lost = 0;
  backend = answering;
  database = tt;
  ends = accepted (endpoint digit 4000) ∷ [];
}

answering-Counts : Counts answering
answering-Counts h = rw (answered count_rows true h, get_result_single_three) (λ e. cc)

config_is_read : read_long (path_append (dir_text (up 0 [])) config_name) ≡ some config
unfolding path_append dir_text lit back?
config_is_read = refl

abbrev db_module : DbModule
db_module = made 2 (by_parser (construct parser_db config).0) (λ i j. (i, true)) (λ i. true)

db_module_made :
    Database.construct 2 (by_parser (construct parser_db config).0) (λ i j. (i, true)) (λ i. true)
    ≡ some db_module
db_module_made =
    construct-made 2 (by_parser (construct parser_db config).0) (λ i j. (i, true)) (λ i. true)

two_made : (db_module.conns_established ≡ 2) × (db_module.threads_started ≡ 2)
unfolding connection_pool starting_threads construct constructing_massives
two_made = (refl, refl)

running :
    (r : Running Unit) × (main system [] ≡ some (reached r))
    × IsConfigured system nine digit digit digit digit digit digit digit digit digit [] nine_values
        r
running =
    main-IsConfigured system nine digit digit digit digit digit digit digit digit digit []
      nine_values [] 0 config db_module (omega arith) ([], [], refl) (λ m l. elim l [ ])
      config_is_read refl refl db_module_made (omega (arith, two_made)) (omega (arith, two_made))
      answering-Counts

main-IsConfigured_example :
    (r : Running Unit) × (main system [] ≡ some (reached r))
    × IsConfigured system nine digit digit digit digit digit digit digit digit digit [] nine_values
        r
main-IsConfigured_example =
    main-IsConfigured system nine digit digit digit digit digit digit digit digit digit []
      nine_values [] 0 config db_module (omega arith) ([], [], refl) (λ m l. elim l [ ])
      config_is_read refl refl db_module_made (omega (arith, two_made)) (omega (arith, two_made))
      answering-Counts

up_root : (n : ℕ) → up n [] ≡ []
up_root zero = refl
up_root (suc n) = up_root n

root_is_no_file : read_long (dir_text []) ≡ none
unfolding dir_text lit
root_is_no_file = refl

main-IsFound_example : IsFound system []
main-IsFound_example =
    main-IsFound system [] (reached running.0) refl (λ n. rw (up_root n) root_is_no_file) running.1

-- The same system with a database that cannot be reached.
abbrev alone : System Unit
alone = record system { connect = λ i j. (i, false) }

main-blocked_example : main alone [] ≡ some blocked
main-blocked_example =
    main-blocked alone nine digit digit digit digit digit digit digit digit digit [] nine_values []
      0 config (omega arith) ([], [], refl) (λ m l. elim l [ ]) config_is_read refl refl
      (λ i j. refl)
