-- ===== src/Prelude/Checked.antt =====
-- What a checked operation returned, read back from the success of the step that made it.
use rbot_v.Prelude.Results.{Result, ok, err, ok_or, map_err, fail_if}
use rbot_v.Prelude.Folds.{and_then}
use rbot_v.Prelude.Words.{u256_limit, checked_add, checked_sub, checked_mul}
use Prim.Native.Nat.{ℕ, ◌+◌, ◌*◌, ◌<◌}
use mathlib.Core.Path.{◌≡◌}
use mathlib.Core.Bool.{Bool, false}
use native.Mathlib.Omega.{arith}

module _ {ℓ} {E : Type ℓ} (e : E) where
  pub add_ok : (a b c : ℕ) → ok_or (checked_add a b) e ≡ ok c → (c ≡ a + b) × (a + b < u256_limit)
  add_ok a b c h = ground arith

  pub add_ok_twice :
      (a b c d : ℕ)
      → ok_or (and_then (checked_add a b) (λ value. checked_add value c)) e ≡ ok d
      → d ≡ a + b + c
  add_ok_twice a b c d h = ground arith

  pub sub_ok : (a b c : ℕ) → ok_or (checked_sub a b) e ≡ ok c → c + b ≡ a
  sub_ok a b c h = ground arith

  pub sub_ok_twice :
      (a b c d : ℕ)
      → ok_or (and_then (checked_sub a b) (λ value. checked_sub value c)) e ≡ ok d
      → d + b + c ≡ a
  sub_ok_twice a b c d h = ground arith

  pub mul_ok : (a b c : ℕ) → ok_or (checked_mul a b) e ≡ ok c → c ≡ a * b
  mul_ok a b c h = ground arith

  pub fail_if_ok : (b : Bool) (u : Unit {0}) → fail_if b e ≡ ok u → b ≡ false
  fail_if_ok b u h = ground arith

pub map_err_ok {ℓ κ ι} :
    {E : Type ℓ} {F : Type κ} {A : Type ι} (f : E → F) (r : Result E A) (a : A)
    → map_err f r ≡ ok a
    → r ≡ ok a
map_err_ok f (ok b) a h = cc
map_err_ok f (err e) a h = cc
