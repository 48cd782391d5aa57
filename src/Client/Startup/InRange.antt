-- ===== src/Client/Startup/InRange.antt =====
-- The lists of the client, by the number of a session.
use pet_project.Base.{
  ℕ, zero, suc, ◌+◌, ◌-◌, ◌≤◌, ◌<◌, ◌≡◌, refl, ap, some, List, [], ◌∷◌, length, get_elem?_total,
  ltb, arith, if◌then◌else◌,
}
use pet_project.Base.Text.{Text}
use pet_project.Base.Int.{ℤ}
use pet_project.Client.Fields.{parse_total}
use pet_project.Client.Startup.{
  IniValues, ClientHttp, construct, with_lists, num_coroutines, smaller, endpoint_of, spawn, run,
}

endpoint_of_total :
    (c : ClientHttp) (i : ℕ)
    → i < length c.host_address
    → i < length c.port_service
    → 1 ≤ length c.download_dirs
    → (e : Text × Text × Text) × (endpoint_of c i ≡ some e)
unfolding endpoint_of
endpoint_of_total c i h p d =
    let (host, x) = get_elem?_total c.host_address i h in
    let (port, y) = get_elem?_total c.port_service i p in
    let n_dir = length c.download_dirs - 1 in
    let (dir, z) =
      get_elem?_total c.download_dirs (if ltb n_dir i then n_dir else i) (ground arith) in
    ((host, port, dir), rw (x, y, z) refl)

spawn_total :
    (c : ClientHttp) (left i : ℕ)
    → left + i ≤ length c.host_address
    → left + i ≤ length c.port_service
    → 1 ≤ length c.download_dirs
    → (es : List (Text × Text × Text)) × (spawn c left i ≡ some es) × (length es ≡ left)
unfolding spawn
spawn_total c zero i h p d = ([], refl, refl)
spawn_total c (suc left) i h p d =
    let (e, x) = endpoint_of_total c i (omega arith) (omega arith) d in
    let (es, y, n) = spawn_total c left (suc i) (omega arith) (omega arith) d in
    (e ∷ es, rw (x, y) refl, ap suc n)

abbrev pub Runs : ClientHttp → Type 0
Runs c =
    (es : List (Text × Text × Text)) × (run c ≡ some es)
    × (length es ≡ smaller (length c.port_service) (length c.host_address))
    × (1 ≤ length es)

run-Runs :
    (c : ClientHttp)
    → 1 ≤ length c.host_address
    → 1 ≤ length c.port_service
    → 1 ≤ length c.download_dirs
    → Runs c
unfolding run
run-Runs c h p d =
    let (es, e, n) = spawn_total c (num_coroutines c) 0 (ground arith) (ground arith) d in
    (es, e, n, ground (arith, n))

-- For any texts of the ini file and any number that the user enters the client is made, and run()
-- starts as many sessions as the shorter one of the lists of hosts and of ports has items, at least
-- one; each of them has a host, a port and a download directory, read inside the lists.
pub run_total :
    (hardware : ℕ) (v : IniValues) (entered : ℤ)
    → (c : ClientHttp) × (construct hardware v entered ≡ some c) × Runs c
unfolding construct
run_total hardware v entered =
    let (h, hs, x) = parse_total v.host_address in
    let (p, ps, y) = parse_total v.port_service in
    let (d, ds, z) = parse_total v.download_dir in
    let (t, ts, w) = parse_total v.targets in
    let c = with_lists hardware v entered (h ∷ hs) (p ∷ ps) (d ∷ ds) (t ∷ ts) in
    (c, rw (x, y, z, w) refl, run-Runs c (omega arith) (omega arith) (omega arith))
