-- ===== src/Planner/Candidates.antt =====
-- src/planner/candidates.rs: the exact distributions of a total over endpoints.
pub mod Writes
pub mod Partials
pub mod Exact
use rbot_v.Prelude.{
  ℕ, zero, suc, ◌+◌, ◌≤◌, ◌<◌, ◌≡◌, ◌⊎◌, inl, inr, refl, Bool, true, false, ◌&&◌, ◌||◌, not, Option,
  none, some, List, [], ◌∷◌, ◌++◌, arith, length, get_elem?, any, All, sum, and_then, try_fold, ltb,
  leb, max, map, if◌then◌else◌, ◌==◌,
}
use rbot_v.Prelude.Words.{checked_add, saturating_sub}
use rbot_v.Prelude.Order.{Key, ascending, lex_lt}

-- `BTreeSet<Vec<U256>>::insert`, on the members in their order.
unfoldable pub insert : List ℕ → List (List ℕ) → List (List ℕ)
insert x [] = x ∷ []
insert x (y ∷ ys) =
    let rest = insert x ys in
    if lex_lt (map ascending x) (map ascending y)
    then x ∷ y ∷ ys
    else if lex_lt (map ascending y) (map ascending x)
    then y ∷ rest
    else y ∷ ys

-- A write through `get_mut(index)?`.
unfoldable pub set_elem : ℕ → ℕ → List ℕ → Option (List ℕ)
set_elem _ _ [] = none
set_elem zero amount (_ ∷ xs) = some (amount ∷ xs)
set_elem (suc index) amount (x ∷ xs) = and_then (set_elem index amount xs) (λ ys. some (x ∷ ys))

-- `vec![U256::ZERO; maximums.len()]`.
unfoldable pub zeros : List ℕ → List ℕ
zeros [] = []
zeros (_ ∷ xs) = 0 ∷ zeros xs

unfoldable pub indices_from : ℕ → List ℕ → List ℕ
indices_from _ [] = []
indices_from index (_ ∷ xs) = index ∷ indices_from (suc index) xs

-- The amounts chosen so far, and their sum.
abbrev pub Partial : Type 0
Partial = List ℕ × ℕ

unfoldable pub push_candidate :
    ℕ → ℕ → ℕ → List ℕ → ℕ → Option ℕ → List Partial → Option (List Partial)
push_candidate _ _ _ _ _ none next = some next
push_candidate total limit index selected amount (some updated) next =
    if ltb total updated
    then some next
    else if leb limit (length next)
    then none
    else and_then (set_elem index amount selected)
        (λ candidate. some (next ++ ((candidate, updated) ∷ [])))

unfoldable pub extend_partial : ℕ → ℕ → ℕ → List ℕ → Partial → List Partial → Option (List Partial)
extend_partial total limit index amounts (selected, subtotal) next =
    try_fold
      (λ amount. push_candidate total limit index selected amount (checked_add subtotal amount))
      amounts next

unfoldable pub extend_lattices :
    ℕ → ℕ → ℕ → ℕ → List (List ℕ) → List Partial → Option (List Partial)
extend_lattices _ _ _ _ [] partials = some partials
extend_lattices total limit sink index (amounts ∷ lattices) partials =
    and_then
      (if index == sink
        then some partials
        else try_fold (extend_partial total limit index amounts) partials [])
      (extend_lattices total limit sink (suc index) lattices)

-- Whether a partial selection is left out for its residual.
unfoldable pub is_infeasible : ℕ → ℕ → ℕ → List ℕ → Bool
is_infeasible minimum_action sink_maximum residual selected =
    ltb sink_maximum residual
    || (not (residual == 0) && ltb residual minimum_action)
    || any (λ amount. not (amount == 0) && ltb amount minimum_action) selected

unfoldable pub insert_bounded : ℕ → List (List ℕ) → Option (List ℕ) → Option (List (List ℕ))
insert_bounded _ _ none = none
insert_bounded limit unique (some selected) =
    let inserted = insert selected unique in
    if ltb limit (length inserted) then none else some inserted

unfoldable pub settle_residual :
    List ℕ → ℕ → ℕ → ℕ → ℕ → Partial → List (List ℕ) → Option (List (List ℕ))
settle_residual maximums total minimum_action limit sink (selected, subtotal) unique =
    and_then (get_elem? maximums sink) (λ sink_maximum.
      if is_infeasible minimum_action sink_maximum (saturating_sub total subtotal) selected
      then some unique
      else insert_bounded limit unique (set_elem sink (saturating_sub total subtotal) selected))

unfoldable pub distribute_to :
    List ℕ → List (List ℕ) → ℕ → ℕ → ℕ → ℕ → List (List ℕ) → Option (List (List ℕ))
distribute_to maximums lattices total minimum_action limit sink unique =
    and_then (extend_lattices total limit sink 0 lattices ((zeros maximums, 0) ∷ [])) (λ partials.
      try_fold (settle_residual maximums total minimum_action limit sink) partials unique)

unfoldable pub bounded_distributions : List ℕ → List (List ℕ) → ℕ → ℕ → ℕ → Option (List (List ℕ))
bounded_distributions maximums lattices total minimum_action limit =
    try_fold (distribute_to maximums lattices total minimum_action (max limit 1))
      (indices_from 0 maximums) []
