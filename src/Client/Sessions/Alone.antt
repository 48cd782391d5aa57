-- ===== src/Client/Sessions/Alone.antt =====
-- A session that is alone takes its targets as the loop over the targets does.
use pet_project.Base.{ℕ, zero, suc, ◌<◌, ◌≡◌, Bool, true, false, Option, none, some, arith, ◌>>=◌}
use pet_project.Base.Text.{Text}
use pet_project.Client.{Looper, next_target, begin_loop}
use pet_project.Client.Sessions.{Phase, at_top, requesting, advance}

-- `n` operations of one session without another's between them.
abbrev pub advances : ℕ → Phase × Looper → Phase × Looper
advances zero s = s
advances (suc n) (p, l) = advances n (advance p l)

-- The target of the request that the session waits for, and whether the user was asked.
abbrev pub request_of : Phase × Looper → Option (Option Text × Bool × Looper)
request_of (requesting target asked, l) = some (target, asked, l)
request_of (_, l) = none

abbrev pub is_none : Option Text → Bool
is_none none = true
is_none (some t) = false

-- A session whose operations are not interrupted has after nine of them the target, and the members,
-- that `next_target` gives, and it has asked the user if and only if there is no target; it has no
-- request if `next_target` has none. The index is below the last size_t.
pub advances-next_target :
    (l : Looper)
    → l.targets_index < 18446744073709551615
    → request_of (advances 9 (at_top, l)) ≡ (do r ← next_target l; some (r.0, is_none r.0, r.1))
unfolding advance next_target begin_loop
advances-next_target l h = ground arith
