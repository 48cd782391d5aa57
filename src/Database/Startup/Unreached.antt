-- ===== src/Database/Startup/Unreached.antt =====
-- A new DB_module: how many connections and threads it has, and one whose database is not reached.
use pet_project.Base.{
  ℕ, zero, suc, ◌+◌, ◌≡◌, ◌≤◌, refl, ap, ◌∙◌, Bool, false, none, some, [], length, arith, max,
}
use pet_project.Base.Int.{pos}
use pet_project.Database.Pool.{Pool, Reach, held}
use pet_project.Database.Pool.Starvation.{Reach-IsStarved}
use pet_project.Database.Connect.{
  Connections, attempts, attempts_overall, connections_from, make_connections,
}
use pet_project.Database.Connect.Established.{make_connections-AreOk}
use pet_project.Database.Startup.{
  ConnInfo, by_parser, by_conninfo, DbModule, starting_threads, thread_pool, connection_pool,
  construct, conns_threads_count,
}

length-starting_threads :
    (count : ℕ) (starts : ℕ → Bool) (i : ℕ) → length (starting_threads count starts i) ≤ count
unfolding starting_threads
length-starting_threads zero starts i = omega arith
length-starting_threads (suc count) starts i =
    ground (arith, length-starting_threads count starts (i + 1))

held-starting_threads :
    (count : ℕ) (starts : ℕ → Bool) (i : ℕ) → held (starting_threads count starts i) ≡ []
unfolding starting_threads
held-starting_threads zero starts i = refl
held-starting_threads (suc count) starts i =
    ground (arith, held-starting_threads count starts (i + 1))

thread_pool_lem :
    (n : ℕ) (starts : ℕ → Bool)
    → 1 ≤ n
    → thread_pool (pos n) starts ≡ some (starting_threads n starts 0)
unfolding thread_pool
thread_pool_lem zero starts h = absurd (omega arith)
thread_pool_lem (suc n) starts h = refl

module _ (hardware : ℕ) (info : ConnInfo) (connect : ℕ → ℕ → ℕ × Bool) (starts : ℕ → Bool) where
  abbrev amount : ℕ
  amount = conns_threads_count hardware

  abbrev pub made : DbModule
  made = record {
    pool = record {
      conns_deque = (connection_pool amount info connect).conns_deque;
      task_deque = [];
      workers = starting_threads amount starts 0;
      done = false;
      finished = [];
      lost = [];
    };
    conns_established = (connection_pool amount info connect).conns_established;
    threads_started = length (starting_threads amount starts 0);
  }

  pub construct-made : construct hardware info connect starts ≡ some made
  unfolding construct
  construct-made = rw (thread_pool_lem amount starts (ground arith)) refl

amount_le_max : (hardware : ℕ) → conns_threads_count hardware ≤ max 1 hardware
amount_le_max hardware = ground arith

-- At most as many connections as were asked for, and as many as are in the deque.
AreCounted : ℕ → Connections → Type 0
AreCounted count c = (c.conns_established ≤ count) × (c.conns_established ≡ length c.conns_deque)

make_connections-AreCounted :
    (count : ℕ) (connect : ℕ → ℕ → ℕ × Bool) → AreCounted count (make_connections count connect)
unfolding make_connections AreCounted
make_connections-AreCounted count connect = ((make_connections-AreOk count connect).1, refl)

connection_pool-AreCounted :
    (count : ℕ) (info : ConnInfo) (connect : ℕ → ℕ → ℕ × Bool)
    → AreCounted count (connection_pool count info connect)
unfolding connection_pool AreCounted
connection_pool-AreCounted count (by_parser p) connect =
    ground (arith, make_connections-AreCounted count connect)
connection_pool-AreCounted count (by_conninfo b) connect =
    ground (arith, make_connections-AreCounted count connect)

-- No future gets a connection in any of its attempts.
abbrev pub IsUnreachable : (ℕ → ℕ → ℕ × Bool) → Type 0
IsUnreachable connect = (i j : ℕ) → (connect i j).1 ≡ false

attempts-IsUnreachable :
    (left : ℕ) (connect : ℕ → ℕ × Bool) (j : ℕ)
    → ((k : ℕ) → (connect k).1 ≡ false)
    → (attempts left connect j).0 ≡ none
unfolding attempts
attempts-IsUnreachable zero connect j h = refl
attempts-IsUnreachable (suc left) connect j h =
    ground (arith, h j, attempts-IsUnreachable left connect (j + 1) h)

connections_from-IsUnreachable :
    (count : ℕ) (connect : ℕ → ℕ → ℕ × Bool) (i : ℕ)
    → IsUnreachable connect
    → (connections_from count connect i).0 ≡ []
unfolding connections_from
connections_from-IsUnreachable zero connect i h = refl
connections_from-IsUnreachable (suc count) connect i h = ground (
  arith,
  attempts-IsUnreachable attempts_overall (connect i) 0 (h i),
  connections_from-IsUnreachable count connect (i + 1) h,
)

connection_pool-IsUnreachable :
    (count : ℕ) (info : ConnInfo) (connect : ℕ → ℕ → ℕ × Bool)
    → IsUnreachable connect
    → (connection_pool count info connect).conns_deque ≡ []
unfolding connection_pool make_connections
connection_pool-IsUnreachable count (by_parser p) connect h =
    ground (arith, connections_from-IsUnreachable count connect 0 h)
connection_pool-IsUnreachable count (by_conninfo b) connect h =
    ground (arith, connections_from-IsUnreachable count connect 0 h)

-- A DB_module is always made, without an exception. Its numbers of connections and of threads are at
-- most the number of hardware threads, or 1 if that is not known, and they count what the pools have.
pub construct-amounts :
    (hardware : ℕ) (info : ConnInfo) (connect : ℕ → ℕ → ℕ × Bool) (starts : ℕ → Bool)
    → (m : DbModule) × (construct hardware info connect starts ≡ some m)
      × (m.conns_established ≤ max 1 hardware)
      × (m.threads_started ≤ max 1 hardware)
      × (m.conns_established ≡ length m.pool.conns_deque)
      × (m.threads_started ≡ length m.pool.workers)
unfolding AreCounted
construct-amounts hardware info connect starts =
    let (le, count) = connection_pool-AreCounted (conns_threads_count hardware) info connect in
    let most = amount_le_max hardware in
    let threads = length-starting_threads (conns_threads_count hardware) starts 0 in
    (
      made hardware info connect starts,
      construct-made hardware info connect starts,
      omega arith,
      omega arith,
      count,
      refl,
    )

-- If the database is not reached in any attempt, the DB_module is made all the same, and whatever the
-- clients and its threads then do, no command is ever finished.
pub construct-IsUnreachable :
    (hardware : ℕ) (info : ConnInfo) (connect : ℕ → ℕ → ℕ × Bool) (starts : ℕ → Bool)
    → IsUnreachable connect
    → (m : DbModule) × (construct hardware info connect starts ≡ some m)
      × (m.conns_established ≡ 0)
      × ((s : Pool) → Reach m.pool s → s.finished ≡ [])
unfolding AreCounted
construct-IsUnreachable hardware info connect starts h =
    let none_there = connection_pool-IsUnreachable (conns_threads_count hardware) info connect h in
    let count = (connection_pool-AreCounted (conns_threads_count hardware) info connect).1 in
    (
      made hardware info connect starts,
      construct-made hardware info connect starts,
      count ∙ ap length none_there,
      λ s r.
          (Reach-IsStarved
            (none_there, held-starting_threads (conns_threads_count hardware) starts 0) r).1,
    )
