-- ===== src/Server/Startup/Listening.antt =====
-- When the server listens, and what it says of it.
use pet_project.Base.{
  ℕ, ◌+◌, ◌≡◌, refl, Bool, true, false, Option, none, some, List, [], ◌∷◌, ◌++◌, length, arith,
  length-append,
}
use pet_project.Base.Text.{Text, lit}
use pet_project.Base.Decimal.{to_string}
use pet_project.Server.Startup.{
  port_of, Helpers, Output, fail_report, make_record, construct, Acceptor, unopened, opened, bound,
  listening, Endpoint, listening_record, bind_and_listen, listener, Remote, no_endpoint, endpoint,
  session, Accepted, accept_failed, accepted, accepting_loop, run,
}

abbrev one_if : Option Text → ℕ
one_if none = 0
one_if (some m) = 1

-- What the constructor of Listener comes to.
abbrev pub acceptor_of : Endpoint → Acceptor
acceptor_of e = elim e.address_ec [
  | some m ↦ unopened
  | none ↦ elim e.open_ec [
    | some m ↦ unopened
    | none ↦ elim e.bind_ec [
      | some m ↦ opened
      | none ↦ elim e.listen_ec [
        | some m ↦ bound (port_of e.port)
        | none ↦ listening (port_of e.port)
      ]
    ]
  ]
]

-- The calls that fail before the constructor returns.
abbrev pub failures : Endpoint → ℕ
failures e = elim e.address_ec [
  | some m ↦ 1
  | none ↦ elim e.open_ec [
    | some m ↦ 1
    | none ↦ one_if e.option_ec + elim e.bind_ec [ some m ↦ 1 | none ↦ one_if e.listen_ec ]
  ]
]

-- The calls that come before the record of listening succeed.
abbrev pub says_listening : Endpoint → Bool
says_listening e = elim e.address_ec [
  | some m ↦ false
  | none ↦ elim e.open_ec [
    | some m ↦ false
    | none ↦ elim e.bind_ec [ some m ↦ false | none ↦ true ]
  ]
]

-- The helpers of a server whose logger has started.
abbrev pub with_logger : Helpers → Helpers
with_logger h = record h { logger = true; if_fail = some true }

-- What is said of a Listener: the number of reports, and the last record of the log.
abbrev pub Says : Helpers → Endpoint → Output → Output → Type 0
Says h e o p =
    (length p.reports ≡ length o.reports + failures e)
    × (says_listening e ≡ true → (log : List Text) × (p.log ≡ log ++ listening_record h e ∷ []))

reported_twice : (xs : List Text) (m n : Text) → length ((xs ++ m ∷ []) ++ n ∷ []) ≡ length xs + 2
reported_twice xs m n =
    omega (arith, length-append (xs ++ m ∷ []) (n ∷ []), length-append xs (m ∷ []))

listener_cases :
    (h : Helpers) (address port : Text) (a op oc b l : Option Text) (o : Output)
    → let e : Endpoint = record {
      address = address;
      port = port;
      address_ec = a;
      open_ec = op;
      option_ec = oc;
      bind_ec = b;
      listen_ec = l;
    } in
      (p : Output) × (listener (with_logger h) e o ≡ some (acceptor_of e, p)) × Says h e o p
unfolding listener bind_and_listen fail_report make_record
listener_cases h address port (some m) op oc b l o =
    (_, refl, (length-append o.reports _, λ e. absurd (ground arith)))
listener_cases h address port none (some m) oc b l o =
    (_, refl, (length-append o.reports _, λ e. absurd (ground arith)))
listener_cases h address port none none none (some m) l o =
    (_, refl, (length-append o.reports _, λ e. absurd (ground arith)))
listener_cases h address port none none (some n) (some m) l o =
    (_, refl, (reported_twice o.reports _ _, λ e. absurd (ground arith)))
listener_cases h address port none none none none none o =
    (_, refl, (omega arith, λ e. (o.log, refl)))
listener_cases h address port none none none none (some m) o =
    (_, refl, (length-append o.reports _, λ e. (_, refl)))
listener_cases h address port none none (some n) none none o =
    (_, refl, (length-append o.reports _, λ e. (_, refl)))
listener_cases h address port none none (some n) none (some m) o =
    (_, refl, (reported_twice o.reports _ _, λ e. (_, refl)))

-- With a logger, the constructor of Listener comes to listen on its port if and only if the address is
-- read and the acceptor opened, bound and set to listen; the option of the address may fail. Each call
-- that fails is reported once. The log ends with the record that the server starts listening if the
-- acceptor has been bound, whether or not listen() has failed.
pub listener-acceptor_of :
    (h : Helpers) (e : Endpoint) (o : Output)
    → (p : Output) × (listener (with_logger h) e o ≡ some (acceptor_of e, p)) × Says h e o p
listener-acceptor_of h e o =
    listener_cases h e.address e.port e.address_ec e.open_ec e.option_ec e.bind_ec e.listen_ec o

-- The ends of the sessions' connections, in their order.
abbrev pub remotes : List Accepted → List Remote
remotes [] = []
remotes (accept_failed m ∷ ends) = remotes ends
remotes (accepted r ∷ ends) = r ∷ remotes ends

-- The ends that are reported.
abbrev pub unreached : List Accepted → ℕ
unreached [] = 0
unreached (accept_failed m ∷ ends) = unreached ends + 1
unreached (accepted (no_endpoint m) ∷ ends) = unreached ends + 1
unreached (accepted (endpoint a p) ∷ ends) = unreached ends

-- The loop makes a session for each connection, and reports the others.
abbrev Accepts : Helpers → List Accepted → Output → Type 0
Accepts h ends o =
    (p : Output) × (accepting_loop (with_logger h) ends o ≡ some (remotes ends, p))
    × (length p.reports ≡ length o.reports + unreached ends)

accepting_loop-Accepts : (h : Helpers) (ends : List Accepted) (o : Output) → Accepts h ends o
unfolding accepting_loop session fail_report make_record
accepting_loop-Accepts h [] o = (o, refl, omega arith)
accepting_loop-Accepts h (accept_failed m ∷ ends) o =
    let (p, e, k) = accepting_loop-Accepts h ends (record {
      log = o.log ++ (lit "Failed to accept: " ++ m) ∷ [];
      reports = o.reports ++ (lit "Failed to accept: " ++ m) ∷ [];
    }) in
    (p, e, omega (arith, k, length-append o.reports ((lit "Failed to accept: " ++ m) ∷ [])))
accepting_loop-Accepts h (accepted (no_endpoint m) ∷ ends) o =
    let (p, e, k) = accepting_loop-Accepts h ends (record {
      log = o.log ++ (lit "Failed to get remote endpoint: " ++ m) ∷ [];
      reports = o.reports ++ (lit "Failed to get remote endpoint: " ++ m) ∷ [];
    }) in
    (
      p,
      rw e refl,
      omega (arith, k, length-append o.reports ((lit "Failed to get remote endpoint: " ++ m) ∷ [])),
    )
accepting_loop-Accepts h (accepted (endpoint a n) ∷ ends) o =
    let (p, e, k) = accepting_loop-Accepts h ends (record o {
      log =
          o.log ++ (lit "Connected to IP-address: " ++ (a ++ (lit ", port: " ++ to_string n))) ∷ [];
    }) in
    (p, rw e refl, k)

-- A server with a logger runs without an exception for any ends of its calls: it makes a session for
-- each accepted connection, in their order, and it goes through its accepting loop also when it does
-- not listen. Each call that fails is reported once.
pub run_with_logger :
    (h : Helpers) (hardware : ℕ) (threads : Text) (e : Endpoint) (ends : List Accepted)
    → (o : Output) × (run e ends (construct hardware threads true h) ≡ some (remotes ends, o))
      × (length o.reports ≡ failures e + unreached ends)
unfolding run construct
run_with_logger h hardware threads e ends =
    let start = (construct hardware threads true h).output in
    let (p, x, (k, _)) = listener-acceptor_of h e start in
    let (q, y, n) = accepting_loop-Accepts h ends p in (q, rw (x, y) refl, omega (arith, k, n))

-- A server whose logger has not started calls a null pointer as soon as its acceptor is bound.
pub run_without_logger :
    (h : Helpers) (hardware : ℕ) (threads : Text) (e : Endpoint) (ends : List Accepted)
    → says_listening e ≡ true
    → run e ends (construct hardware threads false h) ≡ none
unfolding run construct listener bind_and_listen make_record fail_report
run_without_logger h hardware threads e ends s = ground arith
