-- ===== src/Prelude/Folds.antt =====
-- Lookups, collections and loops that may return early, and the members of lists.
use Prim.Native.Nat.{ℕ}
use mathlib.Core.Path.{◌≡◌, refl, sym, ap, subst, ◌∙◌}
use mathlib.Core.Bool.{Bool, true, false}
use rbot_v.Prelude.Tests.{◌==◌, if◌then◌else◌}
use mathlib.Core.Option.{Option, none, some}
use mathlib.Core.List.{List, [], ◌∷◌, ◌++◌, map, Memᴰ}
use mathlib.Core.List.Memᴰ
use rbot_v.Prelude.Lists.{All, retain}

module _ {ℓ} {A : Type ℓ} where
  -- `BTreeMap::get`, on the entries of the map.
  abbrev pub lookup : ℕ → List (ℕ × A) → Option A
  lookup k [] = none
  lookup k ((i, x) ∷ xs) = if i == k then some x else lookup k xs

  abbrev add_to : A → Option (List A) → Option (List A)
  add_to x none = none
  add_to x (some xs) = some (x ∷ xs)

  add_to-some :
      (x : A) (o : Option (List A)) (ys : List A)
      → add_to x o ≡ some ys
      → (zs : List A) × (o ≡ some zs) × (x ∷ zs ≡ ys)
  add_to-some x none ys h = cc
  add_to-some x (some zs) ys h = (zs, refl, cc)

  -- `Iterator::collect` into an `Option`.
  abbrev collect_step : Option A → Option (List A) → Option (List A)
  collect_step none _ = none
  collect_step (some x) rest = add_to x rest

  abbrev pub collect : List (Option A) → Option (List A)
  collect [] = some []
  collect (x ∷ xs) = collect_step x (collect xs)

  collect_step-some :
      (o : Option A) (rest : Option (List A)) (ys : List A)
      → collect_step o rest ≡ some ys
      → (x : A) × (zs : List A) × (o ≡ some x) × (rest ≡ some zs) × (x ∷ zs ≡ ys)
  collect_step-some none rest ys h = cc
  collect_step-some (some x) rest ys h =
      let (zs, e, d) = add_to-some x rest ys h in (x, zs, refl, e, d)

-- `Option::and_then`.
abbrev pub and_then {ℓ κ} : {A : Type ℓ} {B : Type κ} → Option A → (A → Option B) → Option B
and_then none _ = none
and_then (some a) f = f a

pub some_injective {ℓ} : {A : Type ℓ} {a b : A} → some a ≡ some b → a ≡ b
some_injective h = cc

pub and_then-some {ℓ κ} :
    {A : Type ℓ} {B : Type κ} {b : B} (o : Option A) (f : A → Option B)
    → and_then o f ≡ some b
    → (a : A) × (o ≡ some a) × (f a ≡ some b)
and_then-some none f h = cc
and_then-some (some a) f h = (a, refl, h)

module _ {ℓ κ} {A : Type ℓ} {B : Type κ} (f : A → B → Option B) where
  -- A loop that changes an accumulator and may return early with nothing.
  abbrev pub try_fold : List A → B → Option B
  try_fold [] b = some b
  try_fold (x ∷ xs) b = and_then (f x b) (try_fold xs)

  -- What each turn of the loop keeps, the loop keeps.
  pub try_fold_keeps {ι μ} :
      (Q : A → Type ι) (P : B → Type μ)
      → ((x : A) (b c : B) → Q x → P b → f x b ≡ some c → P c)
      → (xs : List A) (b c : B) → All Q xs
      → P b
      → try_fold xs b ≡ some c
      → P c
  try_fold_keeps Q P turn [] b c q p h = subst P (cc) p
  try_fold_keeps Q P turn (x ∷ xs) b c (q, qs) p h =
      let (d, e, k) = and_then-some (f x b) (try_fold xs) h in
      try_fold_keeps Q P turn xs d c qs (turn x b d q p e) k

pub All-unit {ℓ} : {A : Type ℓ} (xs : List A) → All (λ _. Unit {0}) xs
All-unit [] = tt
All-unit (x ∷ xs) = (tt, All-unit xs)

module _ {ℓ κ} {A : Type ℓ} (P : A → Type κ) where
  pub All-append : (xs ys : List A) → All P xs → All P ys → All P (xs ++ ys)
  All-append [] ys _ k = k
  All-append (x ∷ xs) ys (p, ps) k = (p, All-append xs ys ps k)

  pub All-map {ι} : (Q : A → Type ι) → ((x : A) → P x → Q x) → (xs : List A) → All P xs → All Q xs
  All-map Q f [] _ = tt
  All-map Q f (x ∷ xs) (p, ps) = (f x p, All-map Q f xs ps)

  pub All_mem : (x : A) (xs : List A) → All P xs → Memᴰ x xs → P x
  All_mem x [] p q = absurd (Memᴰ.not-nil q)
  All_mem x (y ∷ ys) (p, ps) (Memᴰ.head at) = subst P (sym at) p
  All_mem x (y ∷ ys) (p, ps) (Memᴰ.tail q) = All_mem x ys ps q

module _ {ℓ} {A : Type ℓ} (p : A → Bool) where
  pub retain_mem : (x : A) (xs : List A) → Memᴰ x (retain p xs) → Memᴰ x xs × (p x ≡ true)
  retain_mem x [] q = absurd (Memᴰ.not-nil q)
  retain_mem x (y ∷ xs) q = go (p y) refl (retain_mem x xs) q
    where
      go :
          (b : Bool)
          → p y ≡ b
          → (Memᴰ x (retain p xs) → Memᴰ x xs × (p x ≡ true))
          → Memᴰ x (if b then y ∷ retain p xs else retain p xs)
          → Memᴰ x (y ∷ xs) × (p x ≡ true)
      go true e rest (Memᴰ.head at) = (Memᴰ.head at, ap p at ∙ e)
      go true e rest (Memᴰ.tail q) = let (r, k) = rest q in (Memᴰ.tail r, k)
      go false e rest q = let (r, k) = rest q in (Memᴰ.tail r, k)

  pub retain_kept : (x : A) (xs : List A) → Memᴰ x xs → p x ≡ true → Memᴰ x (retain p xs)
  retain_kept x [] q h = absurd (Memᴰ.not-nil q)
  retain_kept x (y ∷ xs) (Memᴰ.head at) h = rw (sym (ap p at) ∙ h) (Memᴰ.head at)
  retain_kept x (y ∷ xs) (Memᴰ.tail q) h = go (p y) (retain_kept x xs q h)
    where
      go : (b : Bool) → Memᴰ x (retain p xs) → Memᴰ x (if b then y ∷ retain p xs else retain p xs)
      go true r = Memᴰ.tail r
      go false r = r

module _ {ℓ κ} {A : Type ℓ} {B : Type κ} (f : A → Option B) where
  -- What is collected comes from the list.
  pub collect_mem :
      (xs : List A) (ys : List B) (y : B)
      → collect (map f xs) ≡ some ys
      → Memᴰ y ys
      → (x : A) × Memᴰ x xs × (f x ≡ some y)
  collect_mem [] ys y h m = absurd (Memᴰ.not-nil (subst (Memᴰ y) (cc) m))
  collect_mem (x ∷ xs) ys y h m =
      let (z, zs, e, d, c) = collect_step-some (f x) (collect (map f xs)) ys h in
      go z zs e (subst (Memᴰ y) (sym c) m) (collect_mem xs zs y d)
    where
      go :
          (z : B) (zs : List B)
          → f x ≡ some z
          → Memᴰ y (z ∷ zs)
          → (Memᴰ y zs → (w : A) × Memᴰ w xs × (f w ≡ some y))
          → (w : A) × Memᴰ w (x ∷ xs) × (f w ≡ some y)
      go z zs e (Memᴰ.head at) rest = (x, Memᴰ.head refl, e ∙ ap some (sym at))
      go z zs e (Memᴰ.tail q) rest = let (w, r, c) = rest q in (w, Memᴰ.tail r, c)

  -- All of the list is collected.
  pub collect-All {ι} :
      (P : B → Type ι) (xs : List A) (ys : List B)
      → collect (map f xs) ≡ some ys
      → All P ys
      → All (λ x. (y : B) × (f x ≡ some y) × P y) xs
  collect-All P [] ys h p = tt
  collect-All P (x ∷ xs) ys h p =
      let (z, zs, e, d, c) = collect_step-some (f x) (collect (map f xs)) ys h in
      let (q, qs) = subst (All P) (sym c) p in ((z, e, q), collect-All P xs zs d qs)
