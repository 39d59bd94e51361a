-- ===== src/Planner/Scheduler/Resources.antt =====
-- What `conflicts` of src/planner/scheduler.rs tests: a resource that both sides hold.
use rbot_v.Prelude.{
  ℕ, ◌≡◌, ◌≢◌, ◌↔◌, refl, sym, ap, ◌∙◌, Bool, true, false, List, [], ◌∷◌, arith, any, is_disjoint,
  is_disjoint_by, Memᴰ, ◌==◌, ==_iff, inl, inr, Bool-cases,
}
use mathlib.Core.List.Memᴰ
use rbot_v.Domain.{CapRef}
use rbot_v.Planner.Scheduler.{ResourceReservations, same_cap, conflicts}

-- No element of one list is an element of the other.
abbrev pub AreApart {ℓ} : {A : Type ℓ} → List A → List A → Type ℓ
AreApart {A} xs ys = (x y : A) → Memᴰ x xs → Memᴰ y ys → x ≢ y

-- Two plans hold no resource in common.
pub record AreFree (a b : ResourceReservations) : Type 0 where
  pub vaults : AreApart a.vaults b.vaults
  pub signer_lanes : AreApart a.signer_lanes b.signer_lanes
  pub markets : AreApart a.markets b.markets
  pub loan_tokens : AreApart a.loan_tokens b.loan_tokens
  pub caps : AreApart a.caps b.caps
  pub idle_lock_vaults : AreApart a.idle_lock_vaults b.idle_lock_vaults

module _ {ℓ} {A : Type ℓ} where
  any-none : (p : A → Bool) (ys : List A) (y : A) → any p ys ≡ false → Memᴰ y ys → p y ≡ false
  any-none p [] y h q = absurd (Memᴰ.not-nil q)
  any-none p (z ∷ ys) y h (Memᴰ.head at) = ap p at ∙ ground arith
  any-none p (z ∷ ys) y h (Memᴰ.tail q) = any-none p ys y (ground arith) q

  none-any : (p : A → Bool) (ys : List A) → ((y : A) → Memᴰ y ys → p y ≡ false) → any p ys ≡ false
  none-any p [] h = refl
  none-any p (z ∷ ys) h =
      ground (arith, h z (Memᴰ.head refl), none-any p ys (λ y q. h y (Memᴰ.tail q)))

  module _ (same : A → A → Bool) (same_iff : (x y : A) → (same x y ≡ true) ↔ (x ≡ y)) where
    disjoint-AreApart : (xs ys : List A) → is_disjoint_by same xs ys ≡ true → AreApart xs ys
    disjoint-AreApart [] ys h x y q r = absurd (Memᴰ.not-nil q)
    disjoint-AreApart (z ∷ xs) ys h x y (Memᴰ.head at) r = λ e.
        let differs : same y z ≡ false = any-none (λ y. same y z) ys y (ground arith) r in
        let agrees : same y z ≡ true = (same_iff y z).1 (sym e ∙ at) in cc
    disjoint-AreApart (z ∷ xs) ys h x y (Memᴰ.tail q) r =
        disjoint-AreApart xs ys (ground arith) x y q r

    AreApart-disjoint : (xs ys : List A) → AreApart xs ys → is_disjoint_by same xs ys ≡ true
    AreApart-disjoint [] ys h = refl
    AreApart-disjoint (z ∷ xs) ys h =
        let first =
          none-any (λ y. same y z) ys
            (λ y r. elim (Bool-cases (same y z)) [
              | inl agrees ↦ absurd (h z y (Memᴰ.head refl) r (sym ((same_iff y z).0 agrees)))
              | inr differs ↦ differs
            ]) in
        ground (arith, first, AreApart-disjoint xs ys (λ x y q. h x y (Memᴰ.tail q)))

    disjoint_iff : (xs ys : List A) → (is_disjoint_by same xs ys ≡ true) ↔ AreApart xs ys
    disjoint_iff xs ys = (disjoint-AreApart xs ys, AreApart-disjoint xs ys)

same_cap_iff : (a b : CapRef) → (same_cap a b ≡ true) ↔ (a ≡ b)
same_cap_iff a b = (λ h. ground arith, λ e. ground (arith, ap (λ c. c.vault) e, ap (λ c. c.id) e))

-- Two plans conflict unless they hold no resource in common.
pub conflicts_iff : (a b : ResourceReservations) → (conflicts a b ≡ false) ↔ AreFree a b
unfolding conflicts
conflicts_iff a b = (
  λ h. record {
    vaults = (numbers a.vaults b.vaults).0 (ground arith);
    signer_lanes = (numbers a.signer_lanes b.signer_lanes).0 (ground arith);
    markets = (numbers a.markets b.markets).0 (ground arith);
    loan_tokens = (numbers a.loan_tokens b.loan_tokens).0 (ground arith);
    caps = (disjoint_iff same_cap same_cap_iff a.caps b.caps).0 (ground arith);
    idle_lock_vaults = (numbers a.idle_lock_vaults b.idle_lock_vaults).0 (ground arith);
  },
  λ free.
      rw
        (
          (numbers a.vaults b.vaults).1 free.vaults,
          (numbers a.signer_lanes b.signer_lanes).1 free.signer_lanes,
          (numbers a.markets b.markets).1 free.markets,
          (numbers a.loan_tokens b.loan_tokens).1 free.loan_tokens,
          (disjoint_iff same_cap same_cap_iff a.caps b.caps).1 free.caps,
          (numbers a.idle_lock_vaults b.idle_lock_vaults).1 free.idle_lock_vaults,
        )
        refl,
)
  where
    numbers : (xs ys : List ℕ) → (is_disjoint xs ys ≡ true) ↔ AreApart xs ys
    numbers = disjoint_iff (λ a b. a == b) ==_iff
