-- ===== src/Prelude/Order.antt =====
-- Rust's lexicographic comparison of tuples, whose fields may be wrapped in `std::cmp::Reverse`,
-- and `Iterator::min_by_key` over such tuples.
use rbot_v.Prelude.Tests.{ltb, if◌then◌else◌}
use rbot_v.Prelude.Int.{ℤ, pos_part, neg_part}
use Prim.Native.Nat.{ℕ, ◌+◌}
use mathlib.Core.Path.{◌≡◌, refl, sym, subst, ◌∙◌}
use mathlib.Core.Bool.{Bool, true, false, ◌&&◌, ◌||◌, not}
use mathlib.Core.Option.{Option, none, some}
use mathlib.Core.List.{List, [], ◌∷◌, Memᴰ}
use mathlib.Core.List.Memᴰ
use native.Mathlib.Omega.{arith}

-- A field of a tuple, by the difference of two numbers: `up` raises it and `down` lowers it.
pub record Key : Type 0 where
  pub up : ℕ
  pub down : ℕ

abbrev pub ascending : ℕ → Key
ascending n = record { up = n; down = 0 }

-- `Reverse(n)`.
abbrev pub descending : ℕ → Key
descending n = record { up = 0; down = n }

-- `Reverse(z)`.
abbrev pub descending_ℤ : ℤ → Key
descending_ℤ z = record { up = neg_part z; down = pos_part z }

abbrev pub key_lt : Key → Key → Bool
key_lt a b = ltb (a.up + b.down) (b.up + a.down)

abbrev pub lex_lt : List Key → List Key → Bool
lex_lt [] [] = false
lex_lt [] (_ ∷ _) = true
lex_lt (_ ∷ _) [] = false
lex_lt (a ∷ xs) (b ∷ ys) = key_lt a b || (not (key_lt b a) && lex_lt xs ys)

pub lex_lt_irrefl : (xs : List Key) → lex_lt xs xs ≡ false
lex_lt_irrefl [] = refl
lex_lt_irrefl (a ∷ xs) = ground (arith, lex_lt_irrefl xs)

pub lex_lt_trans :
    (xs ys zs : List Key) → lex_lt xs ys ≡ true → lex_lt ys zs ≡ true → lex_lt xs zs ≡ true
lex_lt_trans [] [] _ h k = cc
lex_lt_trans [] (b ∷ ys) [] h k = cc
lex_lt_trans [] (b ∷ ys) (c ∷ zs) h k = refl
lex_lt_trans (a ∷ xs) [] _ h k = cc
lex_lt_trans (a ∷ xs) (b ∷ ys) [] h k = cc
lex_lt_trans (a ∷ xs) (b ∷ ys) (c ∷ zs) h k = ground (arith, lex_lt_trans xs ys zs)

-- To be no less composes.
pub lex_ge_trans :
    (xs ys zs : List Key) → lex_lt xs ys ≡ false → lex_lt ys zs ≡ false → lex_lt xs zs ≡ false
lex_ge_trans [] [] zs h k = k
lex_ge_trans [] (b ∷ ys) _ h k = cc
lex_ge_trans (a ∷ xs) [] [] h k = refl
lex_ge_trans (a ∷ xs) [] (c ∷ zs) h k = cc
lex_ge_trans (a ∷ xs) (b ∷ ys) [] h k = refl
lex_ge_trans (a ∷ xs) (b ∷ ys) (c ∷ zs) h k = ground (arith, lex_ge_trans xs ys zs)

pub lex_lt_asym : (xs ys : List Key) → lex_lt xs ys ≡ true → lex_lt ys xs ≡ false
lex_lt_asym [] [] h = cc
lex_lt_asym [] (b ∷ ys) h = refl
lex_lt_asym (a ∷ xs) [] h = cc
lex_lt_asym (a ∷ xs) (b ∷ ys) h = ground (arith, lex_lt_asym xs ys)

module _ {ℓ} {A : Type ℓ} (key : A → List Key) where
  abbrev least_of : A → Option A → Option A
  least_of x none = some x
  least_of x (some y) = if lex_lt (key y) (key x) then some y else some x

  -- `Iterator::min_by_key`: the first of the least elements.
  abbrev pub min_by_key : List A → Option A
  min_by_key [] = none
  min_by_key (x ∷ xs) = least_of x (min_by_key xs)

  least_of_some : (x : A) (below : Option A) → least_of x below ≡ none → ⊥
  least_of_some x none h = cc
  least_of_some x (some y) h = ground arith

  pub min_by_key-none : (xs : List A) → min_by_key xs ≡ none → xs ≡ []
  min_by_key-none [] h = refl
  min_by_key-none (x ∷ xs) h = absurd (least_of_some x (min_by_key xs) h)

  -- The least element is one of the list, and no element is less.
  pub data IsLeast (m : A) (xs : List A) : Type ℓ where
    least : Memᴰ m xs → ((y : A) → Memᴰ y xs → lex_lt (key y) (key m) ≡ false) → IsLeast m xs

  IsLeast-singleton : (x m : A) → x ≡ m → IsLeast m (x ∷ [])
  IsLeast-singleton x m e = least (Memᴰ.head (sym e)) (λ y q.
      subst (λ z. lex_lt (key z) (key m) ≡ false) (sym (Memᴰ.eq_of_singleton q ∙ e))
        (lex_lt_irrefl (key m)))

  IsLeast-∷ :
      (b : Bool) (x y m : A) (xs : List A)
      → lex_lt (key y) (key x) ≡ b
      → (if b then some y else some x) ≡ some m
      → IsLeast y xs
      → IsLeast m (x ∷ xs)
  IsLeast-∷ true x y m xs less h (least q below) =
      subst (λ z. IsLeast z (x ∷ xs)) (cc) (least (Memᴰ.tail q) (go less below))
    where
      go :
          lex_lt (key y) (key x) ≡ true
          → ((z : A) → Memᴰ z xs → lex_lt (key z) (key y) ≡ false)
          → (z : A) → Memᴰ z (x ∷ xs)
          → lex_lt (key z) (key y) ≡ false
      go less below z (Memᴰ.head e) =
          subst (λ w. lex_lt (key w) (key y) ≡ false) (sym e) (lex_lt_asym (key y) (key x) less)
      go less below z (Memᴰ.tail r) = below z r
  IsLeast-∷ false x y m xs more h (least q below) =
      subst (λ z. IsLeast z (x ∷ xs)) (cc) (least (Memᴰ.head refl) (go more below))
    where
      go :
          lex_lt (key y) (key x) ≡ false
          → ((z : A) → Memᴰ z xs → lex_lt (key z) (key y) ≡ false)
          → (z : A) → Memᴰ z (x ∷ xs)
          → lex_lt (key z) (key x) ≡ false
      go more below z (Memᴰ.head e) =
          subst (λ w. lex_lt (key w) (key x) ≡ false) (sym e) (lex_lt_irrefl (key x))
      go more below z (Memᴰ.tail r) = lex_ge_trans (key z) (key y) (key x) (below z r) more

  pub min_by_key-IsLeast : (xs : List A) (m : A) → min_by_key xs ≡ some m → IsLeast m xs
  min_by_key-IsLeast [] m h = cc
  min_by_key-IsLeast (x ∷ xs) m h = go (min_by_key xs) refl (min_by_key-IsLeast xs) h
    where
      go :
          (below : Option A)
          → min_by_key xs ≡ below
          → ((y : A) → min_by_key xs ≡ some y → IsLeast y xs)
          → least_of x below ≡ some m
          → IsLeast m (x ∷ xs)
      go none e rest h =
          subst (λ ys. IsLeast m (x ∷ ys)) (sym (min_by_key-none xs e)) (IsLeast-singleton x m (cc))
      go (some y) e rest h = IsLeast-∷ (lex_lt (key y) (key x)) x y m xs refl h (rest y e)
