-- ===== src/Client/Startup.antt =====
-- Client_HTTP/src/client_http.cpp: the constructor of Client_HTTP, run(), and what a session takes from
-- the lists by its number.
pub mod InRange
use pet_project.Base.{
  ℕ, zero, suc, ◌-◌, Bool, true, false, Option, none, some, List, [], ◌∷◌, length, get_elem?, ltb,
  max, if◌then◌else◌, ◌>>=◌,
}
use pet_project.Base.Text.{Text}
use pet_project.Base.Int.{ℤ}
use pet_project.Client.{parse, version_of, Looper, start}
use pet_project.Server.Startup.{num_threads}

-- The texts of the ini file's section, in the order of its keywords.
pub record IniValues : Type 0 where
  pub host_address : Text
  pub port_service : Text
  pub client_name : Text
  pub version : Text
  pub num_threads : Text
  pub download_dir : Text
  pub targets : Text

pub record ClientHttp : Type 0 where
  pub num_threads : ℕ
  pub client_name : Text
  pub version : ℕ
  pub host_address : List Text
  pub port_service : List Text
  pub download_dirs : List Text
  pub looper : Looper

-- The members, with the four lists.
abbrev pub with_lists :
    ℕ → IniValues → ℤ → List Text → List Text → List Text → List Text → ClientHttp
with_lists hardware v entered host_address port_service download_dirs targets = record {
  num_threads = num_threads hardware v.num_threads;
  client_name = v.client_name;
  version = version_of v.version;
  host_address = host_address;
  port_service = port_service;
  download_dirs = download_dirs;
  looper = start targets entered;
}

-- Client_HTTP(parser), for the number that the user enters
unfoldable pub construct : ℕ → IniValues → ℤ → Option ClientHttp
construct hardware v entered = do
  host_address ← parse v.host_address
  port_service ← parse v.port_service
  download_dirs ← parse v.download_dir
  targets ← parse v.targets
  some (with_lists hardware v entered host_address port_service download_dirs targets)

-- std::min(a, b)
abbrev pub smaller : ℕ → ℕ → ℕ
smaller a b = if ltb b a then b else a

abbrev pub num_coroutines : ClientHttp → ℕ
num_coroutines c = smaller (length c.port_service) (length c.host_address)

-- The host, the port and the download directory of the session `i`; the directory is the last one if
-- there are fewer. `none` is an index behind a list.
unfoldable pub endpoint_of : ClientHttp → ℕ → Option (Text × Text × Text)
endpoint_of c i =
    let n_dir = length c.download_dirs - 1 in
    do
      host ← get_elem? c.host_address i
      port ← get_elem? c.port_service i
      dir ← get_elem? c.download_dirs (if ltb n_dir i then n_dir else i)
      some (host, port, dir)

-- run(): the sessions from number `i` on, `left` of them
unfoldable pub spawn : ClientHttp → ℕ → ℕ → Option (List (Text × Text × Text))
unfolding endpoint_of
spawn c zero i = some []
spawn c (suc left) i = do e ← endpoint_of c i; es ← spawn c left (suc i); some (e ∷ es)

unfoldable pub run : ClientHttp → Option (List (Text × Text × Text))
unfolding spawn
run c = spawn c (num_coroutines c) 0
