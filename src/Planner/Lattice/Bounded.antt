-- ===== src/Planner/Lattice/Bounded.antt =====
-- What the lattice in src/planner/candidates.rs promises.
use rbot_v.Prelude.{
  ℕ, suc, ◌+◌, ◌≤◌, ◌<◌, ◌≡◌, refl, ◌∙◌, Bool, true, false, List, [], ◌∷◌, ◌++◌, length, contains,
  All, All-map, map, min, max, if◌then◌else◌, arith,
}
use rbot_v.Planner.Lattice.{
  select_amounts, priority_of, sort_unstable, range_from, is_complete_range, lattice_amounts,
  build_candidate_lattice, neighbors_of, fractions,
}
use rbot_v.Planner.Lattice.Sorted.{
  IsAscending, contains-sort_unstable, sort_unstable-All, sort_unstable-length,
  sort_unstable-IsAscending, range_from-IsAscending, range_from-length, contains-range_from,
}
use rbot_v.Planner.Lattice.Selection.{select_amounts-IsSelection, select_amounts_reached}

-- What a lattice is: strictly ascending amounts, none above the maximum, no more than the limit.
pub record IsLattice (maximum limit : ℕ) (amounts : List ℕ) : Type 0 where
  pub ascending : IsAscending amounts
  pub bounded : All (λ a. a ≤ maximum) amounts
  pub limited : length amounts ≤ max limit 1

range-IsLattice :
    (maximum limit : ℕ)
    → is_complete_range maximum limit ≡ true
    → IsLattice maximum limit (range_from 0 (suc maximum))
unfolding is_complete_range
range-IsLattice maximum limit h =
    let (sorted, inside) = range_from-IsAscending 0 (suc maximum) in
    record {
      ascending = sorted;
      bounded =
          All-map (λ a. (0 ≤ a) × (a < 0 + suc maximum)) (λ a. a ≤ maximum)
            (λ a h. omega (arith, h.1)) (range_from 0 (suc maximum)) inside;
      limited = ground (arith, range_from-length 0 (suc maximum));
    }

selection-IsLattice :
    (maximum limit : ℕ) (priority : List ℕ)
    → IsLattice maximum limit (sort_unstable (select_amounts maximum (max limit 1) [] priority))
selection-IsLattice maximum limit priority =
    let (distinct, small, within) =
      select_amounts-IsSelection maximum (max limit 1) [] priority (ground arith)
        (tt, tt, omega arith) in
    let selected = select_amounts maximum (max limit 1) [] priority in
    record {
      ascending = sort_unstable-IsAscending selected distinct;
      bounded = sort_unstable-All (λ a. a ≤ maximum) selected small;
      limited = omega (arith, sort_unstable-length selected, within);
    }

selected_in :
    (maximum limit : ℕ) (before after : List ℕ) (a : ℕ)
    → length before < max limit 1
    → a ≤ maximum
    → contains (sort_unstable (select_amounts maximum (max limit 1) [] (before ++ (a ∷ after)))) a
      ≡ true
selected_in maximum limit before after a room h =
    contains-sort_unstable a (select_amounts maximum (max limit 1) [] (before ++ (a ∷ after)))
    ∙ select_amounts_reached maximum (max limit 1) [] before after a (omega (arith, room)) h

-- A lattice with the three amounts that are never left out.
abbrev pub HasEnds : ℕ → ℕ → ℕ → List ℕ → Type 0
HasEnds minimum_action maximum limit amounts =
    IsLattice maximum limit amounts
    × (contains amounts 0 ≡ true)
    × (contains amounts (min minimum_action maximum) ≡ true)
    × (contains amounts maximum ≡ true)

range-HasEnds :
    (minimum_action maximum limit : ℕ)
    → is_complete_range maximum limit ≡ true
    → HasEnds minimum_action maximum limit (range_from 0 (suc maximum))
range-HasEnds minimum_action maximum limit e = (
  range-IsLattice maximum limit e,
  contains-range_from 0 (suc maximum) 0 (omega arith) (omega arith),
  contains-range_from 0 (suc maximum) (min minimum_action maximum) (omega arith) (ground arith),
  contains-range_from 0 (suc maximum) maximum (omega arith) (omega arith),
)

selection-HasEnds :
    (minimum_action maximum limit : ℕ) (rest : List ℕ)
    → 3 ≤ limit
    → HasEnds minimum_action maximum limit (
        sort_unstable (
          select_amounts maximum
            (max limit 1)
            []
            (0 ∷ min minimum_action maximum ∷ maximum ∷ rest)))
selection-HasEnds minimum_action maximum limit rest three =
    let least = min minimum_action maximum in
    (
      selection-IsLattice maximum limit (0 ∷ least ∷ maximum ∷ rest),
      selected_in maximum limit [] (least ∷ maximum ∷ rest) 0 (ground arith) (omega arith),
      selected_in maximum limit (0 ∷ []) (maximum ∷ rest) least (ground arith) (ground arith),
      selected_in maximum limit (0 ∷ least ∷ []) rest maximum (ground arith) (omega arith),
    )

-- Where the limit is three or more, the amounts of a lattice are strictly ascending, none is above
-- the maximum, there are no more of them than the limit, and zero, the maximum and the minimum
-- action, or the maximum where that is less, are among them.
pub build_candidate_lattice-HasEnds :
    (keccak : List ℕ → ℕ) (minimum_action maximum : ℕ) (boundaries : List ℕ) (limit : ℕ)
    → 3 ≤ limit
    → HasEnds minimum_action maximum limit
        (build_candidate_lattice keccak minimum_action maximum boundaries limit).amounts
unfolding build_candidate_lattice lattice_amounts priority_of
build_candidate_lattice-HasEnds keccak minimum_action maximum boundaries limit three =
    go (is_complete_range maximum limit) refl (
      selection-HasEnds minimum_action maximum limit
        (map (λ boundary. min boundary maximum) boundaries
          ++ (neighbors_of maximum (0 ∷ minimum_action ∷ maximum ∷ boundaries)
              ++ fractions 16 2 maximum))
        three)
  where
    go :
        {selected : List ℕ} (b : Bool)
        → is_complete_range maximum limit ≡ b
        → HasEnds minimum_action maximum limit selected
        → HasEnds minimum_action maximum limit (if b then range_from 0 (suc maximum) else selected)
    go true e _ = range-HasEnds minimum_action maximum limit e
    go false e h = h
