-- ===== src/Planner/Candidates/Exact.antt =====
-- The distributions of src/planner/candidates.rs are exact.
use rbot_v.Prelude.{
  ℕ, zero, suc, ◌≤◌, ◌≡◌, ◌⊎◌, refl, sym, Bool, true, false, ◌&&◌, not, Option, none, some, List,
  [], ◌∷◌, arith, length, get_elem?, any, All, All-unit, sum, and_then-some, some_injective,
  try_fold, try_fold_keeps, ltb, max, if◌then◌else◌, ◌==◌, map,
}
use mathlib.Core.Path.{subst}
use rbot_v.Prelude.Words.{saturating_sub}
use rbot_v.Prelude.Order.{lex_lt, ascending}
use rbot_v.Planner.Candidates.{
  insert, set_elem, zeros, indices_from, Partial, extend_lattices, is_infeasible, insert_bounded,
  settle_residual, distribute_to, bounded_distributions,
}
use rbot_v.Planner.Candidates.Writes.{set_elem-sum, set_elem-AtMost, AtMost, LatticesFit, AllowedBy}
use rbot_v.Planner.Candidates.Partials.{IsPartial, zeros-IsPartial, extend_lattices_keeps}

insert_keeps {ℓ} :
    (P : List ℕ → Type ℓ) (x : List ℕ) (xs : List (List ℕ)) → P x → All P xs → All P (insert x xs)
unfolding insert
insert_keeps P x [] p _ = (p, tt)
insert_keeps P x (y ∷ ys) p (q, qs) =
    go (lex_lt (map ascending x) (map ascending y)) (lex_lt (map ascending y) (map ascending x))
      (insert_keeps P x ys p qs)
  where
    go :
        (b c : Bool)
        → All P (insert x ys)
        → All P (if b then x ∷ y ∷ ys else if c then y ∷ insert x ys else y ∷ ys)
    go true c rest = (p, (q, qs))
    go false true rest = (q, rest)
    go false false rest = (q, qs)

-- An amount is nothing, or enough for an action.
abbrev pub IsWorthwhile : ℕ → ℕ → Type 0
IsWorthwhile minimum_action amount = (amount ≡ 0) ⊎ (minimum_action ≤ amount)

-- A distribution: each amount is within the maximum of its endpoint and worthwhile, and together
-- they are the total.
pub record IsDistribution (maximums : List ℕ) (total minimum_action : ℕ) (amounts : List ℕ)
    : Type 0 where
  pub within : AtMost amounts maximums
  pub exact : sum amounts ≡ total
  pub worthwhile : All (IsWorthwhile minimum_action) amounts

All-IsWorthwhile :
    (minimum_action : ℕ) (xs : List ℕ)
    → any (λ amount. not (amount == 0) && ltb amount minimum_action) xs ≡ false
    → All (IsWorthwhile minimum_action) xs
All-IsWorthwhile minimum_action [] h = tt
All-IsWorthwhile minimum_action (x ∷ xs) h =
    (grind arith, All-IsWorthwhile minimum_action xs (grind arith))

set_elem_keeps {ℓ} :
    (P : ℕ → Type ℓ) (index amount : ℕ) (xs ys : List ℕ)
    → set_elem index amount xs ≡ some ys
    → P amount
    → All P xs
    → All P ys
unfolding set_elem
set_elem_keeps P index amount [] ys h p q = cc
set_elem_keeps P zero amount (x ∷ xs) ys h p (q, qs) = subst (All P) (some_injective h) (p, qs)
set_elem_keeps P (suc index) amount (x ∷ xs) ys h p (q, qs) =
    let (zs, e, k) = and_then-some (set_elem index amount xs) (λ ys. some (x ∷ ys)) h in
    subst (All P) (some_injective k) (q, set_elem_keeps P index amount xs zs e p qs)

feasible :
    (minimum_action sink_maximum residual : ℕ) (selected : List ℕ)
    → is_infeasible minimum_action sink_maximum residual selected ≡ false
    → (residual ≤ sink_maximum)
      × IsWorthwhile minimum_action residual
      × All (IsWorthwhile minimum_action) selected
unfolding is_infeasible
feasible minimum_action sink_maximum residual selected h =
    (ground arith, grind arith, All-IsWorthwhile minimum_action selected (ground arith))

module _ (maximums : List ℕ) (total minimum_action limit : ℕ) where
  -- What the set of distributions keeps.
  abbrev IsBounded : List (List ℕ) → Type 0
  IsBounded unique =
      All (IsDistribution maximums total minimum_action) unique × (length unique ≤ limit)

  insert_bounded_keeps :
      (unique after : List (List ℕ)) (selected : Option (List ℕ))
      → IsBounded unique
      → ((amounts : List ℕ)
          → selected ≡ some amounts
          → IsDistribution maximums total minimum_action amounts)
      → insert_bounded limit unique selected ≡ some after
      → IsBounded after
  unfolding insert_bounded
  insert_bounded_keeps unique after none p d h = cc
  insert_bounded_keeps unique after (some amounts) (p, _) d h =
      go (ltb limit (length (insert amounts unique))) refl
        (insert_keeps (IsDistribution maximums total minimum_action) amounts unique (d amounts refl)
          p)
        h
    where
      go :
          (b : Bool)
          → ltb limit (length (insert amounts unique)) ≡ b
          → All (IsDistribution maximums total minimum_action) (insert amounts unique)
          → (if b then none else some (insert amounts unique)) ≡ some after
          → IsBounded after
      go true e q h = cc
      go false e q h = subst IsBounded (some_injective h) (q, ground arith)

  settled :
      (sink sink_maximum end : ℕ) (partial : Partial) (amounts : List ℕ)
      → get_elem? maximums sink ≡ some sink_maximum
      → IsPartial maximums total sink end partial
      → is_infeasible minimum_action sink_maximum (saturating_sub total partial.1) partial.0 ≡ false
      → set_elem sink (saturating_sub total partial.1) partial.0 ≡ some amounts
      → IsDistribution maximums total minimum_action amounts
  settled sink sink_maximum end partial amounts at p h k =
      let residual = saturating_sub total partial.1 in
      let (room, sink_worthwhile, rest) =
        feasible minimum_action sink_maximum residual partial.0 h in
      let (old, was, total_of) = set_elem-sum sink residual partial.0 amounts k in
      record {
        within =
            set_elem-AtMost sink residual partial.0 maximums amounts k
              (subst (λ o. AllowedBy o residual) (sym at) room) p.fits;
        exact = omega (arith, total_of, p.summed, p.bounded, p.clear_sink old was);
        worthwhile =
            set_elem_keeps (IsWorthwhile minimum_action) sink residual partial.0 amounts k
              sink_worthwhile rest;
      }

  settle_residual_keeps :
      (sink end : ℕ) (partial : Partial) (unique after : List (List ℕ))
      → IsPartial maximums total sink end partial
      → IsBounded unique
      → settle_residual maximums total minimum_action limit sink partial unique ≡ some after
      → IsBounded after
  unfolding settle_residual
  settle_residual_keeps sink end partial unique after p q h =
      let residual = saturating_sub total partial.1 in
      let (sink_maximum, at, k) =
        and_then-some (get_elem? maximums sink)
          (λ sink_maximum.
            if is_infeasible minimum_action sink_maximum residual partial.0
            then some unique
            else insert_bounded limit unique (set_elem sink residual partial.0))
          h in
      go sink_maximum at (is_infeasible minimum_action sink_maximum residual partial.0) refl k
    where
      go :
          (sink_maximum : ℕ)
          → get_elem? maximums sink ≡ some sink_maximum
          → (b : Bool)
          → is_infeasible minimum_action sink_maximum (saturating_sub total partial.1) partial.0 ≡ b
          → (if b
              then some unique
              else insert_bounded limit unique
                  (set_elem sink (saturating_sub total partial.1) partial.0))
            ≡ some after
          → IsBounded after
      go sink_maximum at true e h = subst IsBounded (some_injective h) q
      go sink_maximum at false e h =
          insert_bounded_keeps unique after
            (set_elem sink (saturating_sub total partial.1) partial.0) q
            (λ amounts k. settled sink sink_maximum end partial amounts at p e k) h

  distribute_to_keeps :
      (lattices : List (List ℕ)) (sink : ℕ) (unique after : List (List ℕ))
      → LatticesFit maximums 0 lattices
      → IsBounded unique
      → distribute_to maximums lattices total minimum_action limit sink unique ≡ some after
      → IsBounded after
  unfolding distribute_to
  distribute_to_keeps lattices sink unique after fits q h =
      let start : Partial = (zeros maximums, 0) in
      let (partials, e, k) =
        and_then-some (extend_lattices total limit sink 0 lattices (start ∷ []))
          (λ partials.
            try_fold (settle_residual maximums total minimum_action limit sink) partials unique)
          h in
      let (end, kept) =
        extend_lattices_keeps maximums total sink limit 0 lattices (start ∷ []) partials fits
          (zeros-IsPartial maximums total sink, tt) e in
      try_fold_keeps (settle_residual maximums total minimum_action limit sink)
        (IsPartial maximums total sink end) IsBounded
        (λ partial unique after p. settle_residual_keeps sink end partial unique after p) partials
        unique after kept q k

-- When every lattice keeps to the maximum of its endpoint and distributions are found, they are
-- exact: in each of them every amount is at most the maximum of its endpoint and is either zero or
-- at least the minimum action, and the amounts add up to the total. There are no more of them than
-- the limit.
pub bounded_distributions-exact :
    (maximums : List ℕ) (lattices : List (List ℕ)) (total minimum_action limit : ℕ)
    (found : List (List ℕ))
    → LatticesFit maximums 0 lattices
    → bounded_distributions maximums lattices total minimum_action limit ≡ some found
    → All (IsDistribution maximums total minimum_action) found × (length found ≤ max limit 1)
unfolding bounded_distributions
bounded_distributions-exact maximums lattices total minimum_action limit found fits h =
    try_fold_keeps (distribute_to maximums lattices total minimum_action (max limit 1))
      (λ _. Unit {0}) (IsBounded maximums total minimum_action (max limit 1))
      (λ sink unique after _.
        distribute_to_keeps maximums total minimum_action (max limit 1) lattices sink unique after
          fits)
      (indices_from 0 maximums) [] found (All-unit (indices_from 0 maximums)) (tt, omega arith) h
