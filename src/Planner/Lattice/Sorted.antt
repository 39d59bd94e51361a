-- ===== src/Planner/Lattice/Sorted.antt =====
-- The sort of the lattice in src/planner/candidates.rs.
use rbot_v.Prelude.{
  ℕ, zero, suc, ◌+◌, ◌≤◌, ◌<◌, ◌≡◌, refl, ap, ◌∙◌, Bool, true, false, ◌||◌, List, [], ◌∷◌, length,
  contains, All, All-map, leb, ◌==◌, if◌then◌else◌, Bool-cases, inl, inr, arith,
}
use rbot_v.Planner.Lattice.{insert_sorted, sort_unstable, range_from}

-- Strictly ascending.
abbrev pub IsAscending : List ℕ → Type 0
IsAscending [] = Unit
IsAscending (x ∷ xs) = All (λ y. x < y) xs × IsAscending xs

-- No element twice.
abbrev pub IsDistinct : List ℕ → Type 0
IsDistinct [] = Unit
IsDistinct (x ∷ xs) = (contains xs x ≡ false) × IsDistinct xs

pub contains-insert_sorted :
    (x a : ℕ) (xs : List ℕ) → contains (insert_sorted x xs) a ≡ ((x == a) || contains xs a)
unfolding insert_sorted
contains-insert_sorted x a [] = refl
contains-insert_sorted x a (y ∷ ys) = ground (arith, contains-insert_sorted x a ys)

pub contains-sort_unstable : (a : ℕ) (xs : List ℕ) → contains (sort_unstable xs) a ≡ contains xs a
unfolding sort_unstable
contains-sort_unstable a [] = refl
contains-sort_unstable a (x ∷ xs) =
    contains-insert_sorted x a (sort_unstable xs)
    ∙ ap (λ b. (x == a) || b) (contains-sort_unstable a xs)

insert_sorted-All {ℓ} :
    (P : ℕ → Type ℓ) (x : ℕ) (xs : List ℕ) → P x → All P xs → All P (insert_sorted x xs)
unfolding insert_sorted
insert_sorted-All P x [] p _ = (p, tt)
insert_sorted-All P x (y ∷ ys) p (q, qs) = go (leb x y) (insert_sorted-All P x ys p qs)
  where
    go :
        (b : Bool)
        → All P (insert_sorted x ys)
        → All P (if b then x ∷ y ∷ ys else y ∷ insert_sorted x ys)
    go true _ = (p, (q, qs))
    go false rest = (q, rest)

pub sort_unstable-All {ℓ} : (P : ℕ → Type ℓ) (xs : List ℕ) → All P xs → All P (sort_unstable xs)
unfolding sort_unstable
sort_unstable-All P [] _ = tt
sort_unstable-All P (x ∷ xs) (p, ps) =
    insert_sorted-All P x (sort_unstable xs) p (sort_unstable-All P xs ps)

insert_sorted-length : (x : ℕ) (xs : List ℕ) → length (insert_sorted x xs) ≡ suc (length xs)
unfolding insert_sorted
insert_sorted-length x [] = refl
insert_sorted-length x (y ∷ ys) = ground (arith, insert_sorted-length x ys)

pub sort_unstable-length : (xs : List ℕ) → length (sort_unstable xs) ≡ length xs
unfolding sort_unstable
sort_unstable-length [] = refl
sort_unstable-length (x ∷ xs) =
    insert_sorted-length x (sort_unstable xs) ∙ ap suc (sort_unstable-length xs)

insert_sorted-IsAscending :
    (x : ℕ) (xs : List ℕ)
    → contains xs x ≡ false
    → IsAscending xs
    → IsAscending (insert_sorted x xs)
unfolding insert_sorted
insert_sorted-IsAscending x [] new _ = (tt, tt)
insert_sorted-IsAscending x (y ∷ ys) new (above, rest) = elim (Bool-cases (leb x y)) [
  | inl le ↦
      let less : x < y = ground arith in
      rw le (
        (less, All-map (λ z. y < z) (λ z. x < z) (λ z h. omega (arith, less, h)) ys above),
        (above, rest),
      )
  | inr gt ↦ rw gt (
    insert_sorted-All (λ z. y < z) x ys (ground arith) above,
    insert_sorted-IsAscending x ys (ground arith) rest,
  )
]

pub sort_unstable-IsAscending : (xs : List ℕ) → IsDistinct xs → IsAscending (sort_unstable xs)
unfolding sort_unstable
sort_unstable-IsAscending [] _ = tt
sort_unstable-IsAscending (x ∷ xs) (new, rest) =
    insert_sorted-IsAscending x (sort_unstable xs) (contains-sort_unstable x xs ∙ new)
      (sort_unstable-IsAscending xs rest)

-- A range ascends, from its start to before its end.
pub range_from-IsAscending :
    (start turns : ℕ)
    → IsAscending (range_from start turns)
      × All (λ a. (start ≤ a) × (a < start + turns)) (range_from start turns)
unfolding range_from
range_from-IsAscending start zero = (tt, tt)
range_from-IsAscending start (suc turns) =
    let (sorted, inside) = range_from-IsAscending (suc start) turns in
    let within = All-map (λ a. (suc start ≤ a) × (a < suc start + turns)) in
    (
      (
        within (λ a. start < a) (λ a h. omega (arith, h.0)) (range_from (suc start) turns) inside,
        sorted,
      ),
      (
        (omega arith, omega arith),
        within (λ a. (start ≤ a) × (a < start + suc turns))
            (λ a h. (omega (arith, h.0), omega (arith, h.1))) (range_from (suc start) turns) inside,
      ),
    )

pub range_from-length : (start turns : ℕ) → length (range_from start turns) ≡ turns
unfolding range_from
range_from-length start zero = refl
range_from-length start (suc turns) = ap suc (range_from-length (suc start) turns)

pub contains-range_from :
    (start turns a : ℕ) → start ≤ a → a < start + turns → contains (range_from start turns) a ≡ true
unfolding range_from
contains-range_from start zero a h k = absurd (omega (arith, h, k))
contains-range_from start (suc turns) a h k =
    ground (arith, contains-range_from (suc start) turns a)
