-- ===== src/Prelude/Actions.antt =====
-- Methods on `&mut self` that return a `Result`: what was written before an error stays written,
-- so the new state comes back on every path.
use rbot_v.Prelude.Results.{Result, ok, err}
use mathlib.Core.Bool.{Bool, true, false}
use mathlib.Core.Option.{Option, none, some}

abbrev pub Action : Type 0 → Type 0 → Type 0 → Type 0
Action S E A = S → S × Result E A

module _ {S E : Type 0} where
  infixl 5 ◌>>=◌ ◌>>◌
  abbrev pub ◌>>=◌ : {A B : Type 0} → Action S E A → (A → Action S E B) → Action S E B
  ◌>>=◌ m f s = let (s', r) = m s in elim r [ ok a ↦ f a s' | err e ↦ (s', err e) ]

  abbrev pub ◌>>◌ : {A B : Type 0} → Action S E A → Action S E B → Action S E B
  m >> k = m >>= λ _. k

  abbrev pub pure : {A : Type 0} → A → Action S E A
  pure a s = (s, ok a)

  abbrev pub raise : {A : Type 0} → E → Action S E A
  raise e s = (s, err e)

  abbrev pub raise_if : Bool → E → Action S E (Unit {0})
  raise_if true e s = (s, err e)
  raise_if false _ s = (s, ok tt)

  abbrev pub modify : (S → S) → Action S E (Unit {0})
  modify f s = (f s, ok tt)

  -- A value read from the state, or the error.
  abbrev pub read_or : {A : Type 0} → (S → Option A) → E → Action S E A
  read_or f e s = elim (f s) [ some a ↦ (s, ok a) | none ↦ (s, err e) ]

  -- The state after a call whose caller drops it on an error.
  abbrev pub committed : S → S × Result E (Unit {0}) → S
  committed old (new, ok _) = new
  committed old (_, err _) = old

  -- The same as a result.
  abbrev pub outcome : S × Result E (Unit {0}) → Result E S
  outcome (new, ok _) = ok new
  outcome (_, err e) = err e
