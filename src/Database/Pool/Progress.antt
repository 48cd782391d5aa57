-- ===== src/Database/Pool/Progress.antt =====
-- The pools: that the commands can always be finished.
use pet_project.Base.{ℕ, ◌≡◌, ◌≢◌, refl, sym, ap, ◌∙◌, false, List, [], ◌∷◌, ◌++◌, arith}
use pet_project.Database.Pool.{
  Worker, idle, wanting, using, returning, exited, Pool, task_taken, Reach, held, taken, times,
  tasks,
}
use pet_project.Database.Pool.Runs.{
  Runs, Runs-here, Runs-Step, Runs-append, with_connection, return_connection, with_command,
  finish_command, run_command,
}

-- What the workers do in a first pass, in which every connection is returned, and in a second.
abbrev released : List Worker → List Worker
released [] = []
released (using c k ∷ ws) = idle ∷ released ws
released (returning c ∷ ws) = idle ∷ released ws
released (idle ∷ ws) = idle ∷ released ws
released (wanting k ∷ ws) = wanting k ∷ released ws
released (exited ∷ ws) = exited ∷ released ws

abbrev calmed : List Worker → List Worker
calmed [] = []
calmed (wanting k ∷ ws) = idle ∷ calmed ws
calmed (w ∷ ws) = w ∷ calmed ws

snoc_append :
    (pre : List Worker) (w : Worker) (ws : List Worker) → (pre ++ w ∷ []) ++ ws ≡ pre ++ w ∷ ws
snoc_append [] w ws = refl
snoc_append (v ∷ pre) w ws = ap (v ∷◌) (snoc_append pre w ws)

-- What is kept by a run of the workers.
abbrev Keeps : Pool → Pool → Type 0
Keeps s t = (t.task_deque ≡ s.task_deque) × (t.done ≡ s.done)

-- The first pass, over the workers from `ws` on.
abbrev Releases : Pool → List Worker → List Worker → Type 0
Releases s pre ws =
    (t : Pool) × Runs s t
    × Keeps s t
    × (t.workers ≡ pre ++ released ws)
    × (s.conns_deque ++ held ws ≢ [] → t.conns_deque ≢ [])

release : (ws pre : List Worker) (s : Pool) → s.workers ≡ pre ++ ws → Releases s pre ws
release [] pre s w =
    (s, Runs-here s, (refl, refl), w, λ some_conns e. some_conns (ap (λ cs. cs ++ []) e))
release (using c k ∷ ws) pre s w =
    let (t, r, q, e, n) =
      release ws (pre ++ idle ∷ []) (with_command s pre ws c k) (sym (snoc_append pre idle ws)) in
    (
      t,
      Runs-append (finish_command s pre ws c k w) r,
      q,
      e ∙ snoc_append pre idle (released ws),
      λ _. n (λ z. cc),
    )
release (returning c ∷ ws) pre s w =
    let (t, r, q, e, n) =
      release ws (pre ++ idle ∷ []) (with_connection s pre ws c) (sym (snoc_append pre idle ws)) in
    (
      t,
      Runs-append (return_connection s pre ws c w) r,
      q,
      e ∙ snoc_append pre idle (released ws),
      λ _. n (λ z. cc),
    )
release (x ∷ ws) pre s w =
    let (t, r, q, e, n) = release ws (pre ++ x ∷ []) s (w ∙ sym (snoc_append pre x ws)) in
    (t, r, q, e ∙ snoc_append pre x (released ws), n)

first_of : (cs : List ℕ) → cs ≢ [] → (c : ℕ) × (rest : List ℕ) × (cs ≡ c ∷ rest)
first_of [] n = absurd (n refl)
first_of (c ∷ rest) n = (c, rest, refl)

-- The second pass, which needs a connection.
abbrev Calms : Pool → List Worker → List Worker → Type 0
Calms s pre ws =
    (t : Pool) × Runs s t
    × Keeps s t
    × (t.workers ≡ pre ++ calmed ws)
    × (t.conns_deque ≡ s.conns_deque)

calm :
    (ws pre : List Worker) (s : Pool) → s.conns_deque ≢ [] → s.workers ≡ pre ++ ws → Calms s pre ws
calm [] pre s n w = (s, Runs-here s, (refl, refl), w, refl)
calm (wanting k ∷ ws) pre s n w =
    let (c, rest, d) = first_of s.conns_deque n in
    let (u, run, h) = run_command s pre ws k c rest w d in
    let (t, r, (q, f), e, m) =
      calm ws (pre ++ idle ∷ []) u (λ z. n (sym (ap (λ x. x.conns_deque) h) ∙ z))
        (ap (λ x. x.workers) h ∙ sym (snoc_append pre idle ws)) in
    (
      t,
      Runs-append run r,
      (q ∙ ap (λ x. x.task_deque) h, f ∙ ap (λ x. x.done) h),
      e ∙ snoc_append pre idle (calmed ws),
      m ∙ ap (λ x. x.conns_deque) h,
    )
calm (x ∷ ws) pre s n w =
    let (t, r, q, e, m) = calm ws (pre ++ x ∷ []) s n (w ∙ sym (snoc_append pre x ws)) in
    (t, r, q, e ∙ snoc_append pre x (calmed ws), m)

-- The third: one worker carries out what waits.
drain :
    (ks : List ℕ) (pre post : List Worker) (s : Pool)
    → s.task_deque ≡ ks
    → s.done ≡ false
    → s.conns_deque ≢ []
    → s.workers ≡ pre ++ idle ∷ post
    → (t : Pool) × Runs s t × (t.task_deque ≡ []) × (t.workers ≡ pre ++ idle ∷ post)
drain [] pre post s q f n w = (s, Runs-here s, q, w)
drain (k ∷ ks) pre post s q f n w =
    let s' = record s { task_deque = ks; workers = pre ++ wanting k ∷ post } in
    let (c, rest, d) = first_of s.conns_deque n in
    let (u, run, h) = run_command s' pre post k c rest refl d in
    let (t, r, e, v) =
      drain ks pre post u (ap (λ x. x.task_deque) h) (ap (λ x. x.done) h ∙ f)
        (λ z. n (sym (ap (λ x. x.conns_deque) h) ∙ z)) (ap (λ x. x.workers) h) in
    (
      t,
      Runs-append (Runs-Step (Runs-here s) (task_taken pre post k ks f w q refl) refl)
          (Runs-append run r),
      e,
      v,
    )

abbrev at_rest : List Worker → List Worker
at_rest ws = calmed (released ws)

at_rest-append : (ws vs : List Worker) → at_rest (ws ++ vs) ≡ at_rest ws ++ at_rest vs
at_rest-append [] vs = refl
at_rest-append (idle ∷ ws) vs = ap (idle ∷◌) (at_rest-append ws vs)
at_rest-append (wanting k ∷ ws) vs = ap (idle ∷◌) (at_rest-append ws vs)
at_rest-append (using c k ∷ ws) vs = ap (idle ∷◌) (at_rest-append ws vs)
at_rest-append (returning c ∷ ws) vs = ap (idle ∷◌) (at_rest-append ws vs)
at_rest-append (exited ∷ ws) vs = ap (exited ∷◌) (at_rest-append ws vs)

at_rest-live : (w : Worker) (ws : List Worker) → w ≢ exited → at_rest (w ∷ ws) ≡ idle ∷ at_rest ws
at_rest-live idle ws n = refl
at_rest-live (wanting k) ws n = refl
at_rest-live (using c k) ws n = refl
at_rest-live (returning c) ws n = refl
at_rest-live exited ws n = absurd (n refl)

taken-at_rest : (ws : List Worker) → taken (at_rest ws) ≡ []
taken-at_rest [] = refl
taken-at_rest (idle ∷ ws) = taken-at_rest ws
taken-at_rest (wanting k ∷ ws) = taken-at_rest ws
taken-at_rest (using c k ∷ ws) = taken-at_rest ws
taken-at_rest (returning c ∷ ws) = taken-at_rest ws
taken-at_rest (exited ∷ ws) = taken-at_rest ws

-- The pools can come to a state in which every command that waited or ran is finished, and no other.
abbrev pub CanFinish : Pool → Type 0
CanFinish s =
    (t : Pool) × Reach s t
    × (t.task_deque ≡ [])
    × (taken t.workers ≡ [])
    × ((a : ℕ) → times a t.finished ≡ tasks a s)

finished_all : (s t : Pool) → Runs s t → t.task_deque ≡ [] → taken t.workers ≡ [] → CanFinish s
finished_all s t (r, h) q w = (t, r, q, w, λ a. ground (arith, h a, ap (times a) q, ap (times a) w))

-- The pools do not block: in every state in which the destructor has not begun, a worker has not left
-- its loop and a connection is in the deque or with a worker, there is an order of steps that finishes
-- every command that waits or runs, each as often as it is there, without a new one.
pub all-CanFinish :
    (s : Pool) (pre post : List Worker) (w : Worker)
    → s.workers ≡ pre ++ w ∷ post
    → w ≢ exited
    → s.done ≡ false
    → s.conns_deque ++ held s.workers ≢ []
    → CanFinish s
all-CanFinish s pre post w e live d some_conns =
    let (t, r, (q, f), v, n) = release s.workers [] s refl in
    let (u, r', (q', f'), v', m) = calm t.workers [] t (n some_conns) refl in
    let rest : u.workers ≡ at_rest pre ++ idle ∷ at_rest post =
      v'
      ∙ ap calmed v
      ∙ ap at_rest e
      ∙ at_rest-append pre (w ∷ post)
      ∙ ap (at_rest pre ++◌) (at_rest-live w post live) in
    let (x, r'', q'', v'') =
      drain u.task_deque (at_rest pre) (at_rest post) u refl (f' ∙ f ∙ d)
        (λ z. n some_conns (sym m ∙ z)) rest in
    finished_all s x (Runs-append r (Runs-append r' r'')) q''
      (ap taken (v'' ∙ sym rest ∙ v' ∙ ap calmed v) ∙ taken-at_rest s.workers)
