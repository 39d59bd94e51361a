-- ===== src/Prelude/Results.antt =====
-- Rust's `Result<A, E>`, its `?` operator as a monad, and the conversions `ok_or`, `map_err`.
use mathlib.Core.Path.{◌≡◌, refl, subst}
use mathlib.Core.Logic.{◌⊎◌, inl, inr}
use mathlib.Core.Bool.{Bool, true, false}
use mathlib.Core.Option.{Option, none, some}
use rbot_v.Prelude.Tests.{if◌then◌else◌}

pub data Result {ℓ κ} (E : Type ℓ) (A : Type κ) : Type (ℓ ⊔ κ) where
  ok : A → Result E A
  err : E → Result E A

infixl 5 ◌>>=◌ ◌>>◌
abbrev pub ◌>>=◌ {ℓ κ ι} :
    {E : Type ℓ} {A : Type κ} {B : Type ι} → Result E A → (A → Result E B) → Result E B
err e >>= _ = err e
ok value >>= rest = rest value

abbrev pub ◌>>◌ {ℓ κ} : {E : Type ℓ} {B : Type κ} → Result E (Unit {0}) → Result E B → Result E B
m >> k = m >>= λ _. k

abbrev pub ok_or {ℓ κ} : {E : Type ℓ} {A : Type κ} → Option A → E → Result E A
ok_or none e = err e
ok_or (some a) _ = ok a

abbrev pub map_err {ℓ κ ι} :
    {E : Type ℓ} {F : Type κ} {A : Type ι} → (E → F) → Result E A → Result F A
map_err f (ok a) = ok a
map_err f (err e) = err (f e)

-- `if test { return Err(e) }`.
abbrev pub fail_if {ℓ} : {E : Type ℓ} → Bool → E → Result E (Unit {0})
fail_if true e = err e
fail_if false _ = ok tt

pub >>=-eq-ok {ℓ κ ι} :
    {E : Type ℓ} {A : Type κ} {B : Type ι} {result : B} (first : Result E A) (rest : A → Result E B)
    → (first >>= rest) ≡ ok result
    → (value : A) × (first ≡ ok value) × (rest value ≡ ok result)
>>=-eq-ok (err _) rest failed = cc
>>=-eq-ok (ok value) rest done = (value, refl, done)

pub ok_injective {ℓ κ} :
    {E : Type ℓ} {A : Type κ} {a b : A} (r : Result E A) → r ≡ ok a → r ≡ ok b → a ≡ b
ok_injective r h k = cc

pub ok_or_ok {ℓ κ} :
    {E : Type ℓ} {A : Type κ} {a : A} (o : Option A) (e : E) → ok_or o e ≡ ok a → o ≡ some a
ok_or_ok none e h = cc
ok_or_ok (some b) e h = cc

pub Result-cases {ℓ κ} :
    {E : Type ℓ} {A : Type κ} (r : Result E A) → ((a : A) × (r ≡ ok a)) ⊎ ((e : E) × (r ≡ err e))
Result-cases (ok a) = inl (a, refl)
Result-cases (err e) = inr (e, refl)

-- A postcondition of a successful run; an error has none.
module _ {ℓ κ ι} {E : Type ℓ} {A : Type κ} (P : A → Type ι) where
  pub data Ensures : Result E A → Type (ℓ ⊔ κ ⊔ ι) where
    returns : {a : A} → P a → Ensures (ok a)
    fails : {e : E} → Ensures (err e)

  pub ensured : {r : Result E A} {a : A} → Ensures r → r ≡ ok a → P a
  ensured (returns p) h = subst P (cc) p
  ensured fails h = cc

  pub ensures : (r : Result E A) → ((a : A) → r ≡ ok a → P a) → Ensures r
  ensures (ok a) h = returns (h a refl)
  ensures (err e) h = fails

  -- What a step returned is at hand, with its equation, in all that follows it.
  pub step {μ} :
      {B : Type μ} (m : Result E B) {f : B → Result E A}
      → ((b : B) → m ≡ ok b → Ensures (f b))
      → Ensures (m >>= f)
  step (ok b) h = h b refl
  step (err e) h = fails

  pub branch :
      (b : Bool) {r s : Result E A}
      → (b ≡ true → Ensures r)
      → (b ≡ false → Ensures s)
      → Ensures (if b then r else s)
  branch true h k = h refl
  branch false h k = k refl
