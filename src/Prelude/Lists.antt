-- ===== src/Prelude/Lists.antt =====
-- Lists over the native numbers, under the library's names.
use Prim.Native.Nat.{ℕ, zero, suc, ◌+◌, ◌≤◌}
use mathlib.Core.Path.{◌≡◌, refl, sym, ap, subst, ◌∙◌}
use mathlib.Core.Bool.{Bool, true, false, ◌&&◌, ◌||◌, not}
use rbot_v.Prelude.Tests.{◌==◌, if◌then◌else◌}
use mathlib.Core.Logic.{◌⊎◌, inl, inr}
use mathlib.Core.Option.{Option, none, some}
use mathlib.Core.List.{List, [], ◌∷◌, ◌++◌, Memᴰ}
use native.Mathlib.Omega.{arith}

module _ {ℓ} {A : Type ℓ} where
  abbrev pub length : List A → ℕ
  length [] = 0
  length (x ∷ xs) = suc (length xs)

  abbrev pub get_elem? : List A → ℕ → Option A
  get_elem? [] _ = none
  get_elem? (x ∷ _) zero = some x
  get_elem? (_ ∷ xs) (suc i) = get_elem? xs i

  -- `Iterator::any`.
  abbrev pub any : (A → Bool) → List A → Bool
  any p [] = false
  any p (x ∷ xs) = p x || any p xs

  -- A predicate by recursion, which the tactics take apart.
  abbrev pub All {κ} : (A → Type κ) → List A → Type κ
  All P [] = Unit
  All P (x ∷ xs) = P x × All P xs

pub length-append {ℓ} : {A : Type ℓ} (xs ys : List A) → length (xs ++ ys) ≡ length xs + length ys
length-append [] ys = omega arith
length-append (x ∷ xs) ys = omega (arith, length-append xs ys)

abbrev pub sum : List ℕ → ℕ
sum [] = 0
sum (x ∷ xs) = x + sum xs

-- `BTreeSet`s of identifiers, as lists of their members.
abbrev pub contains : List ℕ → ℕ → Bool
contains xs a = any (λ x. x == a) xs

abbrev pub is_subset : List ℕ → List ℕ → Bool
is_subset [] ys = true
is_subset (x ∷ xs) ys = contains ys x && is_subset xs ys

module _ {ℓ} {A : Type ℓ} (same : A → A → Bool) where
  abbrev pub is_disjoint_by : List A → List A → Bool
  is_disjoint_by [] ys = true
  is_disjoint_by (x ∷ xs) ys = not (any (λ y. same y x) ys) && is_disjoint_by xs ys

  module _ (same_comm : (x y : A) → same x y ≡ same y x) where
    is_disjoint_by_nil : (ys : List A) → is_disjoint_by ys [] ≡ true
    is_disjoint_by_nil [] = refl
    is_disjoint_by_nil (y ∷ ys) = is_disjoint_by_nil ys

    is_disjoint_by-∷ :
        (x : A) (xs ys : List A)
        → is_disjoint_by ys (x ∷ xs) ≡ (not (any (λ y. same y x) ys) && is_disjoint_by ys xs)
    is_disjoint_by-∷ x xs [] = refl
    is_disjoint_by-∷ x xs (y ∷ ys) = ground (arith, is_disjoint_by-∷ x xs ys, same_comm x y)

    pub is_disjoint_by_comm : (xs ys : List A) → is_disjoint_by xs ys ≡ is_disjoint_by ys xs
    is_disjoint_by_comm [] ys = sym (is_disjoint_by_nil ys)
    is_disjoint_by_comm (x ∷ xs) ys = rw (is_disjoint_by-∷ x xs ys, is_disjoint_by_comm xs ys) refl

abbrev pub is_disjoint : List ℕ → List ℕ → Bool
is_disjoint xs ys = is_disjoint_by (λ a b. a == b) xs ys

module _ {ℓ} {A : Type ℓ} where
  abbrev pub head? : List A → Option A
  head? [] = none
  head? (x ∷ _) = some x

  abbrev pub get_last? : List A → Option A
  get_last? [] = none
  get_last? (x ∷ []) = some x
  get_last? (_ ∷ y ∷ ys) = get_last? (y ∷ ys)

  abbrev pub is_empty : List A → Bool
  is_empty [] = true
  is_empty _ = false

  -- `Vec::retain`.
  abbrev pub retain : (A → Bool) → List A → List A
  retain p [] = []
  retain p (x ∷ xs) = if p x then x ∷ retain p xs else retain p xs

  -- `Iterator::all`.
  abbrev pub all : (A → Bool) → List A → Bool
  all p [] = true
  all p (x ∷ xs) = p x && all p xs

  pub all→All : (p : A → Bool) (xs : List A) → all p xs ≡ true → All (λ x. p x ≡ true) xs
  all→All p [] h = tt
  all→All p (x ∷ xs) h = ground (arith, all→All p xs)

  -- `Iterator::find`.
  abbrev pub find : (A → Bool) → List A → Option A
  find p [] = none
  find p (x ∷ xs) = if p x then some x else find p xs

  -- A write through the reference that `iter_mut().find(p)` returns.
  abbrev pub update_first : (A → Bool) → (A → A) → List A → List A
  update_first p f [] = []
  update_first p f (x ∷ xs) = let rest = update_first p f xs in if p x then f x ∷ xs else x ∷ rest

  -- How many elements satisfy a predicate.
  abbrev pub count : (A → Bool) → List A → ℕ
  count p [] = 0
  count p (x ∷ xs) = if p x then suc (count p xs) else count p xs

  pub any-count : (p : A → Bool) (xs : List A) → any p xs ≡ false → count p xs ≡ 0
  any-count p [] h = refl
  any-count p (x ∷ xs) h = ground (arith, any-count p xs)

  pub count-append : (p : A → Bool) (xs ys : List A) → count p (xs ++ ys) ≡ count p xs + count p ys
  count-append p [] ys = omega arith
  count-append p (x ∷ xs) ys = ground (arith, count-append p xs ys)

  pub find_at :
      (b : Bool) (y : A) (o : Option A) (x : A)
      → (if b then some y else o) ≡ some x
      → ((b ≡ true) × (y ≡ x)) ⊎ ((b ≡ false) × (o ≡ some x))
  find_at true y o x h = inl (refl, cc)
  find_at false y o x h = inr (refl, h)

  -- A write that makes no new element satisfy the predicate does not raise its count.
  pub count-update_first-le :
      (q p : A → Bool) (f : A → A) (xs : List A) (x : A)
      → find p xs ≡ some x
      → (q (f x) ≡ true → q x ≡ true)
      → count q (update_first p f xs) ≤ count q xs
  count-update_first-le q p f [] x h k = omega arith
  count-update_first-le q p f (y ∷ ys) x h k = elim (find_at (p y) y (find p ys) x h) [
    | inl (here, at_head) ↦
        rw here (ground (arith, subst (λ z. q (f z) ≡ true → q z ≡ true) (sym at_head) k))
    | inr (past, later) ↦ rw past (ground (arith, count-update_first-le q p f ys x later k))
  ]

  pub find_mem : (p : A → Bool) (xs : List A) (x : A) → find p xs ≡ some x → Memᴰ x xs
  find_mem p [] x h = cc
  find_mem p (y ∷ ys) x h = elim (find_at (p y) y (find p ys) x h) [
    | inl (here, at_head) ↦ Memᴰ.head (sym at_head)
    | inr (past, later) ↦ Memᴰ.tail (find_mem p ys x later)
  ]

  pub find-eq-some : (p : A → Bool) (xs : List A) (x : A) → find p xs ≡ some x → p x ≡ true
  find-eq-some p [] x h = cc
  find-eq-some p (y ∷ ys) x h = elim (find_at (p y) y (find p ys) x h) [
    | inl (here, at_head) ↦ ap p (sym at_head) ∙ here
    | inr (past, later) ↦ find-eq-some p ys x later
  ]
