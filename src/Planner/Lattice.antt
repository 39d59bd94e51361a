-- ===== src/Planner/Lattice.antt =====
-- src/planner/candidates.rs: the lattice of candidate amounts for one position.
pub mod Sorted
pub mod Selection
pub mod Bounded
use rbot_v.Prelude.{
  ℕ, zero, suc, ◌+◌, Bool, true, false, ◌&&◌, not, Option, none, some, and_then, List, [], ◌∷◌,
  ◌++◌, length, contains, map, min, max, ltb, leb, ◌==◌, if◌then◌else◌,
}
use rbot_v.Prelude.Words.{
  u64_limit, fits, checked_add, checked_sub, checked_mul, checked_div, checked_add_u64,
}

pub record CandidateLattice : Type 0 where
  pub amounts : List ℕ
  pub hash : ℕ

-- `BTreeSet<U256>::insert`, on the members in their order.
unfoldable pub insert_amount : ℕ → List ℕ → List ℕ
insert_amount x [] = x ∷ []
insert_amount x (y ∷ ys) =
    let rest = insert_amount x ys in
    if ltb x y then x ∷ y ∷ ys else if ltb y x then y ∷ rest else y ∷ ys

abbrev insert_some : Option ℕ → List ℕ → List ℕ
insert_some none output = output
insert_some (some value) output = insert_amount value output

unfoldable pub neighbors : ℕ → ℕ → List ℕ → List ℕ
neighbors value maximum output =
    let own = if leb value maximum then insert_amount value output else output in
    let below = if not (value == 0) then insert_some (checked_sub value 1) own else own in
    if ltb value maximum then insert_some (checked_add value 1) below else below

unfoldable pub neighbors_of : ℕ → List ℕ → List ℕ
neighbors_of maximum [] = []
neighbors_of maximum (boundary ∷ boundaries) =
    neighbors (min boundary maximum) maximum [] ++ neighbors_of maximum boundaries

abbrev push_some : Option ℕ → List ℕ → List ℕ
push_some none rest = rest
push_some (some fraction) rest = fraction ∷ rest

abbrev or_same : Option ℕ → ℕ → ℕ
or_same none divisor = divisor
or_same (some next) _ = next

-- The binary fractions, as many as there are turns.
unfoldable pub fractions : ℕ → ℕ → ℕ → List ℕ
fractions zero divisor maximum = []
fractions (suc turns) divisor maximum =
    push_some (checked_div maximum divisor)
      (fractions turns (or_same (checked_mul divisor 2) divisor) maximum)

unfoldable pub priority_of : ℕ → ℕ → List ℕ → List ℕ
priority_of minimum_action maximum boundaries =
    0
    ∷ min minimum_action maximum
    ∷ maximum
    ∷ (map (λ boundary. min boundary maximum) boundaries
        ++ (neighbors_of maximum (0 ∷ minimum_action ∷ maximum ∷ boundaries)
            ++ fractions 16 2 maximum))

-- Whether an amount is selected; the set of the amounts seen has the members of the selection.
unfoldable pub admits : ℕ → List ℕ → ℕ → Bool
admits maximum selected amount = leb amount maximum && not (contains selected amount)

abbrev pub select_if : Bool → List ℕ → ℕ → List ℕ
select_if true selected amount = selected ++ (amount ∷ [])
select_if false selected _ = selected

unfoldable pub select_amounts : ℕ → ℕ → List ℕ → List ℕ → List ℕ
select_amounts maximum limit selected [] = selected
select_amounts maximum limit selected (amount ∷ priority) =
    let next = select_if (admits maximum selected amount) selected amount in
    let rest = select_amounts maximum limit next priority in
    if admits maximum selected amount && length next == limit then next else rest

-- `sort_unstable`.
unfoldable pub insert_sorted : ℕ → List ℕ → List ℕ
insert_sorted x [] = x ∷ []
insert_sorted x (y ∷ ys) = let rest = insert_sorted x ys in if leb x y then x ∷ y ∷ ys else y ∷ rest

unfoldable pub sort_unstable : List ℕ → List ℕ
sort_unstable [] = []
sort_unstable (x ∷ xs) = insert_sorted x (sort_unstable xs)

-- `(start..start + turns)`.
unfoldable pub range_from : ℕ → ℕ → List ℕ
range_from start zero = []
range_from start (suc turns) = start ∷ range_from (suc start) turns

-- Whether every amount up to the maximum is within the limit.
unfoldable pub is_complete_range : ℕ → ℕ → Bool
is_complete_range maximum limit =
    elim (and_then (fits u64_limit maximum) (λ small. checked_add_u64 small 1)) [
      | none ↦ false
      | some count ↦ leb count (max limit 1)
    ]

unfoldable pub lattice_amounts : ℕ → ℕ → List ℕ → ℕ → List ℕ
lattice_amounts minimum_action maximum boundaries limit =
    if is_complete_range maximum limit
    then range_from 0 (suc maximum)
    else sort_unstable
        (select_amounts maximum (max limit 1) [] (priority_of minimum_action maximum boundaries))

-- The hash is over the encodings of the amounts.
unfoldable pub build_candidate_lattice : (List ℕ → ℕ) → ℕ → ℕ → List ℕ → ℕ → CandidateLattice
build_candidate_lattice keccak minimum_action maximum boundaries limit = record {
  amounts = lattice_amounts minimum_action maximum boundaries limit;
  hash = keccak (lattice_amounts minimum_action maximum boundaries limit);
}
