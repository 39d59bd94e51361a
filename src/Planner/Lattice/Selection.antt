-- ===== src/Planner/Lattice/Selection.antt =====
-- The selection of amounts for the lattice in src/planner/candidates.rs.
use rbot_v.Prelude.{
  ℕ, suc, ◌+◌, ◌≤◌, ◌<◌, ◌≡◌, refl, Bool, true, false, ◌&&◌, ◌||◌, List, [], ◌∷◌, ◌++◌, length,
  length-append, contains, All, All-append, ◌==◌, if◌then◌else◌, arith,
}
use rbot_v.Planner.Lattice.{admits, select_if, select_amounts}
use rbot_v.Planner.Lattice.Sorted.{IsDistinct}

contains-append :
    (xs ys : List ℕ) (a : ℕ) → contains (xs ++ ys) a ≡ (contains xs a || contains ys a)
contains-append [] ys a = refl
contains-append (x ∷ xs) ys a = ground (arith, contains-append xs ys a)

append-IsDistinct :
    (xs : List ℕ) (a : ℕ) → contains xs a ≡ false → IsDistinct xs → IsDistinct (xs ++ (a ∷ []))
append-IsDistinct [] a new _ = (refl, tt)
append-IsDistinct (x ∷ xs) a new (here, rest) =
    (ground (arith, contains-append xs (a ∷ []) x), append-IsDistinct xs a (ground arith) rest)

module _ (maximum limit : ℕ) where
  -- What the loop keeps of the selection.
  abbrev pub IsSelection : List ℕ → Type 0
  IsSelection xs = IsDistinct xs × All (λ a. a ≤ maximum) xs × (length xs ≤ limit)

  select_if-IsSelection :
      (b : Bool) (selected : List ℕ) (amount : ℕ)
      → admits maximum selected amount ≡ b
      → length selected < limit
      → IsSelection selected
      → IsSelection (select_if b selected amount)
  unfolding admits
  select_if-IsSelection true selected amount e room (distinct, small, _) = (
    append-IsDistinct selected amount (ground arith) distinct,
    All-append (λ a. a ≤ maximum) selected (amount ∷ []) small (ground arith, tt),
    omega (arith, length-append selected (amount ∷ []), room),
  )
  select_if-IsSelection false selected amount e room h = h

  room_left :
      (b : Bool) (selected : List ℕ) (amount : ℕ)
      → length selected < limit
      → (b && length (select_if b selected amount) == limit) ≡ false
      → length (select_if b selected amount) < limit
  room_left true selected amount room h = ground (arith, length-append selected (amount ∷ []))
  room_left false selected amount room h = room

  pub select_amounts-IsSelection :
      (selected priority : List ℕ)
      → length selected < limit
      → IsSelection selected
      → IsSelection (select_amounts maximum limit selected priority)
  unfolding select_amounts
  select_amounts-IsSelection selected [] room h = h
  select_amounts-IsSelection selected (amount ∷ priority) room h =
      let b = admits maximum selected amount in
      let next = select_if b selected amount in
      go (b && length next == limit) refl (select_if-IsSelection b selected amount refl room h)
        (select_amounts-IsSelection next priority)
    where
      go :
          (done : Bool)
          → (admits maximum selected amount
              && length (select_if (admits maximum selected amount) selected amount) == limit)
            ≡ done
          → IsSelection (select_if (admits maximum selected amount) selected amount)
          → (length (select_if (admits maximum selected amount) selected amount) < limit
              → IsSelection (select_if (admits maximum selected amount) selected amount)
              → IsSelection (
                  select_amounts maximum limit
                    (select_if (admits maximum selected amount) selected amount)
                    priority))
          → IsSelection (
              if done
              then select_if (admits maximum selected amount) selected amount
              else select_amounts maximum limit
                  (select_if (admits maximum selected amount) selected amount)
                  priority)
      go true e kept rest = kept
      go false e kept rest =
          rest (room_left (admits maximum selected amount) selected amount room e) kept

  select_if_kept :
      (b : Bool) (selected : List ℕ) (amount a : ℕ)
      → contains selected a ≡ true
      → contains (select_if b selected amount) a ≡ true
  select_if_kept true selected amount a h = ground (arith, contains-append selected (amount ∷ []) a)
  select_if_kept false selected amount a h = h

  choice :
      (b : Bool) (xs ys : List ℕ) (a : ℕ)
      → contains xs a ≡ true
      → contains ys a ≡ true
      → contains (if b then xs else ys) a ≡ true
  choice true xs ys a h k = h
  choice false xs ys a h k = k

  select_amounts_kept :
      (selected priority : List ℕ) (a : ℕ)
      → contains selected a ≡ true
      → contains (select_amounts maximum limit selected priority) a ≡ true
  unfolding select_amounts
  select_amounts_kept selected [] a h = h
  select_amounts_kept selected (amount ∷ priority) a h =
      let b = admits maximum selected amount in
      let next = select_if b selected amount in
      let kept = select_if_kept b selected amount a h in
      choice (b && length next == limit) next (select_amounts maximum limit next priority) a kept
        (select_amounts_kept next priority a kept)

  admitted :
      (b : Bool) (selected : List ℕ) (a : ℕ)
      → admits maximum selected a ≡ b
      → a ≤ maximum
      → contains (select_if b selected a) a ≡ true
  unfolding admits
  admitted true selected a e h = ground (arith, contains-append selected (a ∷ []) a)
  admitted false selected a e h = ground arith

  grown :
      (b : Bool) (selected : List ℕ) (a : ℕ)
      → length (select_if b selected a) ≤ suc (length selected)
  grown true selected a = omega (arith, length-append selected (a ∷ []))
  grown false selected a = omega arith

  -- An amount whose place is within the limit is selected.
  pub select_amounts_reached :
      (selected before after : List ℕ) (a : ℕ)
      → length selected + length before < limit
      → a ≤ maximum
      → contains (select_amounts maximum limit selected (before ++ (a ∷ after))) a ≡ true
  unfolding select_amounts
  select_amounts_reached selected [] after a room h =
      let b = admits maximum selected a in
      let next = select_if b selected a in
      let there = admitted b selected a refl h in
      choice (b && length next == limit) next (select_amounts maximum limit next after) a there
        (select_amounts_kept next after a there)
  select_amounts_reached selected (x ∷ before) after a room h =
      let b = admits maximum selected x in
      let next = select_if b selected x in
      let larger : length next ≤ suc (length selected) = grown b selected x in
      let more : (b && length next == limit) ≡ false = ground arith in
      rw more (select_amounts_reached next before after a (omega (arith, larger, room)) h)
