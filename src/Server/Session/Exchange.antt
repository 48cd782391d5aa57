-- ===== src/Server/Session/Exchange.antt =====
-- Session::session_loop: the requests that were read and the responses.
use pet_project.Base.{
  ℕ, ◌≡◌, ◌≢◌, refl, true, false, Option, none, some, List, [], ◌∷◌, ◌++◌, ◌>>=◌, arith, All, sym,
  ap, ◌∙◌, subst, Option-cases, inl, inr,
}
use pet_project.Base.Text.{Text}
use pet_project.Handler.Request.{ReqInfo}
use pet_project.Server.Request as Request
use pet_project.Server.Request.{
  HttpRequest, HttpResponse, Opened, HandleRequest, construct, handler_vector_fill, remove_prefix,
  get, head, other,
}
use pet_project.Server.Session.{
  Fault, Stage, reading, writing, closed, Completion, request_read, read_failed, response_written,
  write_failed, Surroundings, Session, fail_report, read_reason, write_reason, finish, answer,
  resume, session_loop,
}

-- The responses are those that Handle_request gives for the requests, one for each and in their order;
-- each is handled in the state that the ones before it have left.
pub data Exchange {S : Type 0} (e : Surroundings S) (h : HandleRequest) (first : S)
    : List HttpRequest → List HttpResponse → S → Type 0 where
  nothing : Exchange e h first [] [] first
  answered :
      {reqs : List HttpRequest} {sent : List HttpResponse} {s : S} (req : HttpRequest)
      (res : HttpResponse) (told : List Text) (t : S)
      → Exchange e h first reqs sent s
      → Request.handle h req e.run e.open_file s ≡ some (res, told, t)
      → Exchange e h first (reqs ++ req ∷ []) (sent ++ res ∷ []) t

-- The target of a request that is read has a first byte, and `P` holds of what follows.
abbrev pub HasTarget : (Text → Type 0) → Completion → Type 0
HasTarget P (request_read req) = (c : ℕ) × (t : Text) × (req.target ≡ c ∷ t) × P t
HasTarget P _ = Unit

has_vector :
    (req : HttpRequest) (r : ReqInfo) (c : ℕ) (t : Text)
    → req.target ≡ c ∷ t
    → (filled : ReqInfo) × (handler_vector_fill req r ≡ some filled) × (filled.target ≡ t)
unfolding handler_vector_fill remove_prefix
has_vector req r c t e = elim (Option-cases (handler_vector_fill req r)) [
  | inl n ↦ absurd (ground (arith, n, e))
  | inr (filled, q) ↦ (filled, q, ground (arith, q, e))
]

core : {S : Type 0} → Session S → Session S
core s = record s { stage = reading; reports = []; log = [] }

core-finish :
    {S : Type 0} (e : Surroundings S) (ec : Option Fault) (s : Session S)
    → core (finish e ec s) ≡ core s
unfolding core finish fail_report
core-finish e ec s = ground arith

module _ {S : Type 0} (e : Surroundings S) (P : Text → Type 0) (address : Text) (port : ℕ)
    (first : S) where
  abbrev host : HandleRequest
  host = construct e.server_name address port

  -- The session is that of the host, and its responses answer its requests.
  abbrev pub IsInStep : Session S → Type 0
  IsInStep s =
      (s.remote_address ≡ address)
      × (s.remote_port ≡ port)
      × Exchange e host first s.received s.sent s.handler

  finish-IsInStep : (ec : Option Fault) (s : Session S) → IsInStep s → IsInStep (finish e ec s)
  unfolding core
  finish-IsInStep ec s h = subst IsInStep (sym (core-finish e ec s)) h

  handled :
      ((a : S) (r : ReqInfo) → P r.target → e.run a r ≢ none)
      → (req : HttpRequest) (s : S) → HasTarget P (request_read req)
      → (x : HttpResponse × List Text × S) × (Request.handle host req e.run e.open_file s ≡ some x)
  unfolding Request.handle
  handled total req s (c, t, target, plain) =
      let (filled, p, same) = has_vector req host.req_info c t target in
      elim (Option-cases (e.run s filled)) [
        | inl q ↦ absurd (total s filled (subst P (sym same) plain) q)
        | inr (x, q) ↦ elim (Option-cases (Request.handle host req e.run e.open_file s)) [
          | inl n ↦ absurd (ground (arith, n, p, q))
          | inr found ↦ found
        ]
      ]

  answer-IsInStep :
      ((a : S) (r : ReqInfo) → P r.target → e.run a r ≢ none)
      → (req : HttpRequest) (s : Session S) → HasTarget P (request_read req)
      → IsInStep s
      → (t : Session S) × (answer e req s ≡ some t) × IsInStep t
  unfolding answer
  answer-IsInStep total req s target (a, p, x) =
      let ((res, told, after), q) = handled total req s.handler target in
      (
        record s {
          stage = writing;
          handler = after;
          received = s.received ++ req ∷ [];
          sent = s.sent ++ res ∷ [];
          log = s.log ++ told;
          reports = s.reports ++ told;
        },
        ground (arith, a, p, q),
        (a, p, answered req res told after x q),
      )

  resume-IsInStep :
      ((a : S) (r : ReqInfo) → P r.target → e.run a r ≢ none)
      → (stage : Stage) (c : Completion) (s : Session S) → HasTarget P c
      → IsInStep s
      → (t : Session S) × (resume e stage c s ≡ some t) × IsInStep t
  unfolding resume fail_report
  resume-IsInStep total reading (request_read req) s target h = answer-IsInStep total req s target h
  resume-IsInStep total reading (read_failed f) s target h =
      (_, refl, finish-IsInStep (some f) (fail_report e f (read_reason f s) s) h)
  resume-IsInStep total reading (response_written close) s target h = (s, refl, h)
  resume-IsInStep total reading (write_failed f) s target h = (s, refl, h)
  resume-IsInStep total writing (request_read req) s target h = (s, refl, h)
  resume-IsInStep total writing (read_failed f) s target h = (s, refl, h)
  resume-IsInStep total writing (response_written true) s target h =
      (_, refl, finish-IsInStep none s h)
  resume-IsInStep total writing (response_written false) s target h = (_, refl, h)
  resume-IsInStep total writing (write_failed f) s target h =
      (_, refl, finish-IsInStep (some f) (fail_report e f (write_reason s) s) h)
  resume-IsInStep total closed c s target h = (s, refl, h)

  -- If the handler answers every vector with a target of which `P` holds, and every request that is read
  -- has such a target behind its first byte, a session goes
  -- on without undefined behaviour however its operations end; and from a session in which every
  -- request that was read has one response, the one that Handle_request gives for it in the state
  -- that the requests before it have left, and in the same order, it comes to one of which this is
  -- true again.
  pub session_loop-IsInStep :
      ((a : S) (r : ReqInfo) → P r.target → e.run a r ≢ none)
      → (cs : List Completion) (s : Session S) → All (HasTarget P) cs
      → IsInStep s
      → (t : Session S) × (session_loop e cs s ≡ some t) × IsInStep t
  unfolding session_loop
  session_loop-IsInStep total [] s targets h = (s, refl, h)
  session_loop-IsInStep total (c ∷ cs) s targets h =
      let (t, q, k) = resume-IsInStep total s.stage c s targets.0 h in
      let (u, q', k') = session_loop-IsInStep total cs t targets.1 k in
      (u, ap (λ o. o >>= (λ t'. session_loop e cs t')) q ∙ q', k')
