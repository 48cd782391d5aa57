-- ===== src/Database/Connect/Established.antt =====
-- connection_pool::make_connections: how many connections are established.
use mathlib.Core.Bool.{false≢true}
use pet_project.Base.{
  ℕ, zero, suc, ◌+◌, ◌≡◌, ◌≤◌, ◌<◌, ◌↔◌, ◌⊎◌, refl, inl, inr, Bool, true, false, none, some, List,
  ◌∷◌, length, arith, Bool-cases, ◌==◌, ==_iff, ap, sym, ◌∙◌, subst, All,
}
use pet_project.Database.Connect.{attempts, attempts_overall, connections_from, make_connections}

-- One of `left` attempts from `j` on succeeds with this connection.
abbrev Succeeds : ℕ → (ℕ → ℕ × Bool) → ℕ → ℕ → Type 0
Succeeds left connect j c = (k : ℕ) × (j ≤ k) × (k < j + left) × (connect k ≡ (c, true))

-- None of them does.
abbrev Fail : ℕ → (ℕ → ℕ × Bool) → ℕ → Type 0
Fail left connect j = (k : ℕ) → j ≤ k → k < j + left → (connect k).1 ≡ false

Fail-suc :
    (left : ℕ) (connect : ℕ → ℕ × Bool) (j : ℕ)
    → (connect j).1 ≡ false
    → Fail left connect (j + 1)
    → Fail (suc left) connect j
Fail-suc left connect j n all k le lt = elim (Bool-cases (k == j)) [
  | inl y ↦ ap (λ i. (connect i).1) ((==_iff k j).0 y) ∙ n
  | inr ne ↦ all k (ground (arith, ne, le)) (omega (arith, lt))
]

attempts-cases :
    (left : ℕ) (connect : ℕ → ℕ × Bool) (j : ℕ)
    → (((attempts left connect j).0 ≡ none) × Fail left connect j)
      ⊎ ((c : ℕ) × ((attempts left connect j).0 ≡ some c) × Succeeds left connect j c)
unfolding attempts
attempts-cases zero connect j = inl (refl, λ k le lt. absurd (omega (arith, le, lt)))
attempts-cases (suc left) connect j = elim (Bool-cases (connect j).1) [
  | inl y ↦ inr ((connect j).0, ground (arith, y), (j, omega arith, omega arith, ground (arith, y)))
  | inr n ↦ elim (attempts-cases left connect (j + 1)) [
    | inl (q, all) ↦ inl (ground (arith, n, q), Fail-suc left connect j n all)
    | inr (c, q, (k, le, lt, e)) ↦
        inr (c, ground (arith, n, q), (k, omega (arith, le), omega (arith, lt), e))
  ]
]

-- The future `i` gets a connection in one of its five attempts.
abbrev pub IsReached : (ℕ → ℕ → ℕ × Bool) → ℕ → Type 0
IsReached connect i = (j : ℕ) × (j < 5) × ((connect i j).1 ≡ true)

-- Each connection is one that an attempt gave as being in order.
abbrev pub AreOk : (ℕ → ℕ → ℕ × Bool) → List ℕ → Type 0
AreOk connect = All (λ c. (i : ℕ) × (j : ℕ) × (j < 5) × (connect i j ≡ (c, true)))

-- What holds of the connections of the futures from `i` on, `count` of them.
abbrev AreEstablished : ℕ → (ℕ → ℕ → ℕ × Bool) → ℕ → List ℕ → Type 0
AreEstablished count connect i conns =
    AreOk connect conns
    × (length conns ≤ count)
    × ((length conns ≡ count) ↔ ((k : ℕ) → i ≤ k → k < i + count → IsReached connect k))

without_one :
    (count : ℕ) (connect : ℕ → ℕ → ℕ × Bool) (i : ℕ)
    → (attempts attempts_overall (connect i) 0).0 ≡ none
    → (connections_from count connect (i + 1)).0 ≡ (connections_from (suc count) connect i).0
unfolding connections_from
without_one count connect i q = ground (arith, q)

with_one :
    (count : ℕ) (connect : ℕ → ℕ → ℕ × Bool) (i c : ℕ)
    → (attempts attempts_overall (connect i) 0).0 ≡ some c
    → c ∷ (connections_from count connect (i + 1)).0 ≡ (connections_from (suc count) connect i).0
unfolding connections_from
with_one count connect i c q = ground (arith, q)

IsReached-suc :
    (count : ℕ) (connect : ℕ → ℕ → ℕ × Bool) (i : ℕ)
    → IsReached connect i
    → ((k : ℕ) → i + 1 ≤ k → k < i + 1 + count → IsReached connect k)
    → (k : ℕ) → i ≤ k
    → k < i + suc count
    → IsReached connect k
IsReached-suc count connect i now later k le lt = elim (Bool-cases (k == i)) [
  | inl y ↦ subst (IsReached connect) (sym ((==_iff k i).0 y)) now
  | inr n ↦ later k (ground (arith, n, le)) (omega (arith, lt))
]

connections_from-AreEstablished :
    (count : ℕ) (connect : ℕ → ℕ → ℕ × Bool) (i : ℕ)
    → AreEstablished count connect i (connections_from count connect i).0
unfolding connections_from
connections_from-AreEstablished zero connect i =
    (tt, omega arith, (λ _ k le lt. absurd (omega (arith, le, lt)), λ _. refl))
connections_from-AreEstablished (suc count) connect i =
    let (ok, le, iff) = connections_from-AreEstablished count connect (i + 1) in
    elim (attempts-cases attempts_overall (connect i) 0) [
      | inl (q, all) ↦
          subst (AreEstablished (suc count) connect i) (without_one count connect i q) (
            ok,
            omega (arith, le),
            (
              λ h. absurd (omega (arith, le, h)),
              λ h.
                  let (j, lt, y) = h i (omega arith) (omega arith) in
                  absurd (false≢true (sym (all j (omega arith) (omega (arith, lt))) ∙ y)),
            ),
          )
      | inr (c, q, (j, _, lt, e)) ↦
          subst (AreEstablished (suc count) connect i) (with_one count connect i c q) (
            ((i, j, omega (arith, lt), e), ok),
            omega (arith, le),
            (
              λ h.
                  IsReached-suc count connect i (j, omega (arith, lt), ap (λ x. x.1) e)
                    (iff.0 (omega (arith, h))),
              λ h. ap suc (iff.1 (λ k le' lt'. h k (omega (arith, le')) (omega (arith, lt')))),
            ),
          )
    ]

-- The connections of a new pool are ones whose status was in order after one of five attempts, and
-- there are at most as many as were asked for: as many exactly if each future has an attempt among its
-- five that succeeds.
pub make_connections-AreOk :
    (count : ℕ) (connect : ℕ → ℕ → ℕ × Bool)
    → AreOk connect (make_connections count connect).conns_deque
      × ((make_connections count connect).conns_established ≤ count)
      × (((make_connections count connect).conns_established ≡ count)
          ↔ ((k : ℕ) → k < count → IsReached connect k))
unfolding make_connections
make_connections-AreOk count connect =
    let (ok, le, iff) = connections_from-AreEstablished count connect 0 in
    (
      ok,
      le,
      (
        λ h k lt. iff.0 h k (omega arith) (omega (arith, lt)),
        λ h. iff.1 (λ k _ lt. h k (omega (arith, lt))),
      ),
    )
