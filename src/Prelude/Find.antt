-- ===== src/Prelude/Find.antt =====
-- What `find` sees of a list after a write to its first match, and after an append.
use rbot_v.Prelude.Tests.{if◌then◌else◌, Bool-cases}
use rbot_v.Prelude.Lists.{find, update_first, retain, count}
use rbot_v.Prelude.Folds.{and_then, some_injective}
use mathlib.Core.Path.{◌≡◌, refl, sym, ap, subst}
use mathlib.Core.Logic.{inl, inr}
use mathlib.Core.Bool.{Bool, true, false}
use mathlib.Core.Option.{none, some}
use mathlib.Core.List.{List, [], ◌∷◌, ◌++◌}
use native.Mathlib.Omega.{arith}
use Prim.Native.Nat.{◌≤◌}

module _ {ℓ} {A : Type ℓ} where
  pub find-update_first :
      (p : A → Bool) (f : A → A) (xs : List A) (x : A)
      → find p xs ≡ some x
      → p (f x) ≡ true
      → find p (update_first p f xs) ≡ some (f x)
  find-update_first p f [] x h k = cc
  find-update_first p f (y ∷ ys) x h k = go (p y) refl (find-update_first p f ys x) h
    where
      go :
          (b : Bool)
          → p y ≡ b
          → (find p ys ≡ some x → p (f x) ≡ true → find p (update_first p f ys) ≡ some (f x))
          → (if b then some y else find p ys) ≡ some x
          → find p (if b then f y ∷ ys else y ∷ update_first p f ys) ≡ some (f x)
      go true e rest h =
          subst (λ z. find p (f y ∷ ys) ≡ some (f z)) (some_injective h)
            (rw (subst (λ z. p (f z) ≡ true) (sym (some_injective h)) k) refl)
      go false e rest h = rw e (rest h k)

  pub find-update_first-other :
      (q p : A → Bool) (f : A → A) (xs : List A)
      → ((x : A) → p x ≡ true → q x ≡ false)
      → ((x : A) → p x ≡ true → q (f x) ≡ false)
      → find q (update_first p f xs) ≡ find q xs
  find-update_first-other q p f [] old new = refl
  find-update_first-other q p f (y ∷ ys) old new = elim (Bool-cases (p y)) [
    | inl here ↦ rw (here, old y here, new y here) refl
    | inr past ↦
        rw past
          (ap (λ rest. if q y then some y else rest) (find-update_first-other q p f ys old new))
  ]

  pub find-append-some :
      (p : A → Bool) (xs ys : List A) (x : A) → find p xs ≡ some x → find p (xs ++ ys) ≡ some x
  find-append-some p [] ys x h = cc
  find-append-some p (y ∷ xs) ys x h = ground (arith, find-append-some p xs ys x)

  pub find-append-none :
      (p : A → Bool) (xs ys : List A) → find p xs ≡ none → find p (xs ++ ys) ≡ find p ys
  find-append-none p [] ys h = refl
  find-append-none p (y ∷ xs) ys h = ground (arith, find-append-none p xs ys)

  find-retain-none : (p q : A → Bool) (xs : List A) → find p xs ≡ none → find p (retain q xs) ≡ none
  find-retain-none p q [] h = refl
  find-retain-none p q (y ∷ ys) h = ground (arith, find-retain-none p q ys)

  pub count-retain-le : (p q : A → Bool) (xs : List A) → count p (retain q xs) ≤ count p xs
  count-retain-le p q [] = omega arith
  count-retain-le p q (y ∷ ys) = ground (arith, count-retain-le p q ys)

  find-none-count : (p : A → Bool) (xs : List A) → count p xs ≤ 0 → find p xs ≡ none
  find-none-count p [] h = refl
  find-none-count p (y ∷ ys) h = ground (arith, find-none-count p ys)

  -- What is found of a single match after a `retain`: it, nothing where it was dropped, or nothing
  -- where there was no match.
  pub find-retain :
      (p q : A → Bool) (xs : List A)
      → count p xs ≤ 1
      → find p (retain q xs) ≡ and_then (find p xs) (λ x. if q x then some x else none)
  find-retain p q [] h = refl
  find-retain p q (y ∷ ys) h = elim (Bool-cases (p y)) [
    | inl here ↦ ground (arith, here, find-retain-none p q ys, find-none-count p ys)
    | inr past ↦ ground (arith, past, find-retain p q ys)
  ]
