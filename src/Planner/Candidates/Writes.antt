-- ===== src/Planner/Candidates/Writes.antt =====
-- The writes of src/planner/candidates.rs to a selection, and the maxima that it keeps to.
use rbot_v.Prelude.{
  ℕ, zero, suc, ◌+◌, ◌≤◌, ◌≡◌, ◌≢◌, refl, sym, ap, ◌∙◌, Option, none, some, List, [], ◌∷◌, arith,
  get_elem?, All, sum, and_then-some, some_injective,
}
use mathlib.Core.Path.{subst}
use rbot_v.Planner.Candidates.{set_elem, zeros}

-- A write replaces one element and keeps the others.
pub set_elem-sum :
    (index amount : ℕ) (xs ys : List ℕ)
    → set_elem index amount xs ≡ some ys
    → (old : ℕ) × (get_elem? xs index ≡ some old) × (sum ys + old ≡ sum xs + amount)
unfolding set_elem
set_elem-sum index amount [] ys h = cc
set_elem-sum zero amount (x ∷ xs) ys h =
    (x, refl, rw (sym (ap sum (some_injective h))) (omega arith))
set_elem-sum (suc index) amount (x ∷ xs) ys h =
    let (zs, e, k) = and_then-some (set_elem index amount xs) (λ ys. some (x ∷ ys)) h in
    let (old, at, total) = set_elem-sum index amount xs zs e in
    (old, at, rw (sym (ap sum (some_injective k))) (omega (arith, total)))

pub set_elem-other :
    (index amount other : ℕ) (xs ys : List ℕ)
    → set_elem index amount xs ≡ some ys
    → index ≢ other
    → get_elem? ys other ≡ get_elem? xs other
unfolding set_elem
set_elem-other index amount other [] ys h ne = cc
set_elem-other zero amount zero (x ∷ xs) ys h ne = absurd (ne refl)
set_elem-other zero amount (suc other) (x ∷ xs) ys h ne =
    ap (λ zs. get_elem? zs (suc other)) (sym (some_injective h))
set_elem-other (suc index) amount zero (x ∷ xs) ys h ne =
    let (zs, e, k) = and_then-some (set_elem index amount xs) (λ ys. some (x ∷ ys)) h in
    ap (λ zs. get_elem? zs zero) (sym (some_injective k))
set_elem-other (suc index) amount (suc other) (x ∷ xs) ys h ne =
    let (zs, e, k) = and_then-some (set_elem index amount xs) (λ ys. some (x ∷ ys)) h in
    ap (λ zs. get_elem? zs (suc other)) (sym (some_injective k))
    ∙ set_elem-other index amount other xs zs e (λ same. ne (ap suc same))

-- Nothing is chosen yet at an index.
abbrev pub IsClear : ℕ → List ℕ → Type 0
IsClear index xs = (v : ℕ) → get_elem? xs index ≡ some v → v ≡ 0

pub zeros-IsClear : (index : ℕ) (xs : List ℕ) → IsClear index (zeros xs)
unfolding zeros
zeros-IsClear index [] v h = cc
zeros-IsClear zero (x ∷ xs) v h = sym (some_injective h)
zeros-IsClear (suc index) (x ∷ xs) v h = zeros-IsClear index xs v h

pub zeros-sum : (xs : List ℕ) → sum (zeros xs) ≡ 0
unfolding zeros
zeros-sum [] = refl
zeros-sum (x ∷ xs) = omega (arith, zeros-sum xs)

-- An amount that the maximum of an endpoint allows.
abbrev pub AllowedBy : Option ℕ → ℕ → Type 0
AllowedBy none _ = Unit
AllowedBy (some maximum) amount = amount ≤ maximum

abbrev pub FitsAt : List ℕ → ℕ → ℕ → Type 0
FitsAt maximums index amount = AllowedBy (get_elem? maximums index) amount

-- Each amount is at most the maximum of its endpoint, of which there are as many.
abbrev pub AtMost : List ℕ → List ℕ → Type 0
AtMost [] [] = Unit
AtMost (x ∷ xs) (m ∷ ms) = (x ≤ m) × AtMost xs ms
AtMost _ _ = ⊥

-- The lattices from an index on hold amounts that the maxima allow.
abbrev pub LatticesFit : List ℕ → ℕ → List (List ℕ) → Type 0
LatticesFit maximums index [] = Unit
LatticesFit maximums index (amounts ∷ lattices) =
    All (FitsAt maximums index) amounts × LatticesFit maximums (suc index) lattices

pub zeros-AtMost : (xs : List ℕ) → AtMost (zeros xs) xs
unfolding zeros
zeros-AtMost [] = tt
zeros-AtMost (x ∷ xs) = (omega arith, zeros-AtMost xs)

pub set_elem-AtMost :
    (index amount : ℕ) (xs ms ys : List ℕ)
    → set_elem index amount xs ≡ some ys
    → FitsAt ms index amount
    → AtMost xs ms
    → AtMost ys ms
unfolding set_elem
set_elem-AtMost index amount [] ms ys h fits p = cc
set_elem-AtMost index amount (x ∷ xs) [] ys h fits p = absurd p
set_elem-AtMost zero amount (x ∷ xs) (m ∷ ms) ys h fits (p, ps) =
    subst (λ zs. AtMost zs (m ∷ ms)) (some_injective h) (fits, ps)
set_elem-AtMost (suc index) amount (x ∷ xs) (m ∷ ms) ys h fits (p, ps) =
    let (zs, e, k) = and_then-some (set_elem index amount xs) (λ ys. some (x ∷ ys)) h in
    subst (λ zs. AtMost zs (m ∷ ms)) (some_injective k)
      (p, set_elem-AtMost index amount xs ms zs e fits ps)
