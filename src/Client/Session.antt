-- ===== src/Client/Session.antt =====
-- Client_HTTP::do_session: a connection from the resolving of its name to its end, with
-- set_params_file_body_parser. What the asynchronous operations end in is an argument, a round of the
-- loop at a time, and so are the texts that the round appends to the target, which `Client/Sessions` is
-- about.
pub mod Reported
pub mod Total
pub mod Requested
use pet_project.Base.{
  ℕ, ◌-◌, Bool, true, false, not, ◌&&◌, ◌||◌, Option, none, some, List, [], ◌∷◌, ◌++◌, length,
  get_elem?, ltb, if◌then◌else◌, ◌>>=◌,
}
use pet_project.Base.Text.{Text, lit, text_eq, is_empty, starts_with}
use pet_project.Handler.Dir.{path_append}
use pet_project.Client.{file_name}

-- An error code, as far as the code tells its values apart.
pub data ErrorCode : Type 0 where
  success timeout not_connected no_such_file : ErrorCode
  other_error : ℕ → ErrorCode

-- operator bool
abbrev pub is_set : ErrorCode → Bool
is_set success = false
is_set _ = true

abbrev pub is_timeout : ErrorCode → Bool
is_timeout timeout = true
is_timeout _ = false

abbrev pub is_not_connected : ErrorCode → Bool
is_not_connected not_connected = true
is_not_connected _ = false

abbrev pub is_no_such_file : ErrorCode → Bool
is_no_such_file no_such_file = true
is_no_such_file _ = false

-- The fields that the client looks at, and the text of the header.
pub record Header : Type 0 where
  pub content_type : Text
  pub content_disposition : Text
  pub text : Text
  -- content_length_remaining()
  pub content_length : Option ℕ

-- What a round of the loop meets: the target that was taken, what the user enters if asked, and how
-- the operations end. `exists` is that of the download directory.
pub record Round : Type 0 where
  pub taken : Option Text
  pub entered : Option Text
  pub written : ErrorCode
  pub header_read : ErrorCode
  pub header : Header
  pub answered_name : Text
  pub exists : Bool
  pub created : ErrorCode
  pub opened : ErrorCode
  pub body_read : ErrorCode
  -- the text that is printed for a page
  pub page : Text

-- host_address[i] and port_service[i], the download directory, ec.message(), the thread's id, and
-- what shutdown() gives.
pub record Surroundings : Type 0 where
  pub host : Text
  pub port : Text
  pub path_to_dwnld_dir : Text
  pub message : ErrorCode → Text
  pub thread_id : Text
  pub shutdown : ErrorCode

-- `target` is the variable that a round appends to, `requests` are the targets that were sent, `opened`
-- the files that a body was to go to with their limits, and the others what went to std::cout and to
-- std::cerr.
pub record Session : Type 0 where
  pub ec : ErrorCode
  pub target : Text
  pub requests : List Text
  pub opened : List (Text × ℕ)
  pub printed : List Text
  pub reports : List Text

abbrev pub no_session : Session
no_session = record {
  ec = success;
  target = b'/' ∷ [];
  requests = [];
  opened = [];
  printed = [];
  reports = [];
}

-- A round ends with break, or the loop goes on.
pub data Flow : Type 0 where
  broken continued : Session → Flow

-- synch_cout to std::cout, without the reminder that another session waits for the user.
abbrev pub print : Text → Session → Session
print t s = record s { printed = s.printed ++ t ∷ [] }

-- What the round's calls of target.append make of the target.
abbrev pub target_of : Text → Round → Text
target_of target r =
    target ++ (elim r.taken [ none ↦ [] | some t ↦ t ] ++ elim r.entered [ none ↦ [] | some t ↦ t ])

abbrev pub append_target : Round → Session → Session
append_target r s = record s { target = target_of s.target r }

-- target.resize(0); target.push_back('/');
abbrev pub clear_target : Session → Session
clear_target s = record s { target = b'/' ∷ [] }

-- The body's limit: numeric_limits<std::uint64_t>::max() without a length
abbrev pub body_limit : Header → ℕ
body_limit h = elim h.content_length [ some n ↦ n | none ↦ 18446744073709551615 ]

abbrev pub set_ec : ErrorCode → Session → Session
set_ec ec s = record s { ec = ec }

-- The contents are to be printed, and not to be saved.
abbrev pub is_page : Header → Bool
is_page h =
    is_empty h.content_disposition
    && (text_eq h.content_type (lit "text/html") || text_eq h.content_type (lit "text/plain"))

-- The user has been asked, and the target is then "/:q".
abbrev pub is_quit : Text → Round → Bool
is_quit target r = elim r.entered [ none ↦ false | some t ↦ text_eq target (lit "/:q") ]

-- The request for the target is sent.
abbrev pub send : Session → Session
send s = record s { requests = s.requests ++ s.target ∷ [] }

module _ (e : Surroundings) where
  -- fail_report(ec, reason)
  abbrev pub fail_report : ErrorCode → Text → Session → Session
  fail_report ec reason s = record s {
    reports = s.reports ++ (reason ++ (e.message ec ++ b'\n' ∷ [])) ∷ [];
  }

  abbrev reason_of : Text → Text
  reason_of before = before ++ (e.host ++ (lit ", port_service: " ++ (e.port ++ lit ", ")))

  -- path_to_dwnld_dir / filename: an absolute path takes the place of the directory.
  unfoldable pub file_path : Text → Text
  unfolding path_append starts_with
  file_path filename =
      if starts_with filename (b'/' ∷ [])
      then filename
      else path_append e.path_to_dwnld_dir filename

  abbrev pub announced : Round → Session → Session
  announced r s =
      if r.exists
      then s
      else print (lit "Download directory doesn't exist, it will be created now\n") s

  -- The rest of set_params_file_body_parser, for the name of the file; the flag is what it returns.
  abbrev pub open_for : Text → Round → Session → Bool × Session
  open_for filename r s =
      if not r.exists && is_set r.created
      then (false, fail_report r.created (lit "Failed to create directory for download: ") s)
      else if is_no_such_file r.opened
      then (false, fail_report r.opened (lit "Directory  for download doesn't exist") s)
      else (true, record s { opened = s.opened ++ (file_path filename, body_limit r.header) ∷ [] })

  -- `none` is a name that is read behind its field.
  unfoldable pub set_params_file_body_parser : Round → Session → Option (Bool × Session)
  unfolding file_name file_path
  set_params_file_body_parser r s = do
    filename ← file_name r.answered_name r.header.content_disposition
    some (open_for filename r (announced r s))

  -- An error is reported and ends the loop; without one `rest` follows.
  abbrev pub checked : ErrorCode → Text → Session → (Session → Option Flow) → Option Flow
  checked ec before s rest =
      if is_set ec
      then some (broken (fail_report ec (reason_of before) (set_ec ec s)))
      else rest (set_ec ec s)

  abbrev pub receive_page : Round → Session → Option Flow
  receive_page r s =
      checked r.body_read
        (lit
          "Error while receiving whole response from resolved IP address with given host_address: ")
        s (λ t. some (continued (print r.page t)))

  -- The body goes to the file, if this has been opened.
  abbrev pub save_body : Round → Bool × Session → Option Flow
  save_body r (true, s) =
      checked r.body_read
        (lit
          "Error while receiving whole response with file from resolved IP address with given host_address: ")
        s (λ t. some (continued (print r.header.text t)))
  save_body r (false, s) = some (broken s)

  abbrev pub receive_file : Round → Session → Option Flow
  receive_file r s = do x ← set_params_file_body_parser r s; save_body r x

  abbrev pub receive_body : Round → Session → Option Flow
  receive_body r s = if is_page r.header then receive_page r s else receive_file r s

  abbrev pub receive : Round → Session → Option Flow
  receive r s =
      checked r.header_read
        (lit
          "Error while receiving header of response from resolved IP address with given host_address: ")
        s (receive_body r)

  unfoldable pub round : Round → Session → Option Flow
  unfolding set_params_file_body_parser
  round r s =
      if is_quit (target_of s.target r) r
      then some (broken (append_target r s))
      else checked r.written
          (lit "Error while writing to resolved IP address with given host_address: ")
          (send (append_target r s)) (receive r)

  -- The loop, which resets the target at the end of each round; it is still going if the rounds end.
  unfoldable pub rounds : List Round → Session → Option Flow
  unfolding round
  rounds [] s = some (continued s)
  rounds (r ∷ rs) s = do
    f ← round r s
    elim f [ broken t ↦ some (broken t) | continued t ↦ rounds rs (clear_target t) ]

  -- What stands behind the loop.
  unfoldable pub shut_down : Session → Session
  shut_down s =
      let said = print (lit "Shutting down (" ++ (e.thread_id ++ lit ")\n")) s in
      let failed =
        fail_report e.shutdown
          (reason_of
            (lit "Error while closing connection to resolved IP address with given host_address: "))
          (set_ec e.shutdown said) in
      if is_timeout s.ec
      then s
      else if is_set e.shutdown && not (is_not_connected e.shutdown)
      then failed
      else set_ec e.shutdown said

  -- do_session, for what the resolver and the connecting end in.
  unfoldable pub do_session : ErrorCode → ErrorCode → List Round → Option Flow
  unfolding rounds shut_down
  do_session resolved connected rs =
      checked resolved (lit "Error while resolving host_address: ") no_session (λ s.
        checked connected
          (lit "Error while connecting to resolved IP address with given host_address: ") s
          (λ t. do
            f ← rounds rs t
            some (elim f [ broken u ↦ broken (shut_down u) | continued u ↦ continued u ])))
