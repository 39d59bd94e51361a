-- ===== src/Chain/Consensus.antt =====
-- src/chain/provider_consensus.rs: one optional value from the views of independent providers.
use rbot_v.Prelude.{
  ◌≡◌, refl, sym, ap, ◌∙◌, Bool, true, false, not, Option, none, some, Result, ok, err, List, [],
  ◌∷◌, All, Memᴰ, if◌then◌else◌, ◌⊎◌, inl, inr, Bool-cases,
}
use mathlib.Core.Path.{subst}

pub data OptionalViewSelectionError (E : Type 0) : Type 0 where
  disagreement : OptionalViewSelectionError E
  unavailable : E → OptionalViewSelectionError E

-- A provider's answer.
abbrev pub View : Type 0 → Type 0 → Type 0
View T E = Result E (Option T)

-- The first error is kept.
abbrev pub first_of : {E : Type 0} → Option E → E → Option E
first_of none error = some error
first_of (some first) _ = some first

-- Values are compared by `PartialEq`.
abbrev pub conflicts_with : {T : Type 0} → (T → T → Bool) → Option T → T → Bool
conflicts_with same none _ = false
conflicts_with same (some known) value = not (same known value)

module _ {T : Type 0} {E : Type 0} where
  unfoldable pub conclude : Option T → Option E → Result (OptionalViewSelectionError E) (Option T)
  conclude (some value) _ = ok (some value)
  conclude none none = ok none
  conclude none (some error) = err (unavailable error)

  module _ (same : T → T → Bool) where
    unfoldable pub select_loop :
        Option T → Option E → List (View T E) → Result (OptionalViewSelectionError E) (Option T)
    select_loop observed first_error [] = conclude observed first_error
    select_loop observed first_error (ok (some value) ∷ views) =
        let rest = select_loop (some value) first_error views in
        if conflicts_with same observed value then err disagreement else rest
    select_loop observed first_error (ok none ∷ views) = select_loop observed first_error views
    select_loop observed first_error (err error ∷ views) =
        select_loop observed (first_of first_error error) views

    unfoldable pub select_consistent_optional_view :
        List (View T E) → Result (OptionalViewSelectionError E) (Option T)
    select_consistent_optional_view views = select_loop none none views

  -- A view that has no other value.
  abbrev pub Agrees : T → View T E → Type 0
  Agrees value (ok (some other)) = other ≡ value
  Agrees value _ = Unit

  -- A view without a value.
  abbrev pub IsSilent : View T E → Type 0
  IsSilent (ok (some _)) = ⊥
  IsSilent _ = Unit

  abbrev pub first_error_of : Option E → List (View T E) → Option E
  first_error_of first [] = first
  first_error_of first (ok _ ∷ views) = first_error_of first views
  first_error_of first (err error ∷ views) = first_error_of (first_of first error) views

module _ {T : Type 0} {E : Type 0} (same : T → T → Bool) (views : List (View T E)) where
  -- What a selection means.
  pub data Selects : Result (OptionalViewSelectionError E) (Option T) → Type 0 where
    agreed :
        (value : T)
        → Memᴰ (ok (some value)) views
        → All (Agrees value) views
        → Selects (ok (some value))
    absent : All IsSilent views → first_error_of none views ≡ none → Selects (ok none)
    failed :
        (error : E)
        → All IsSilent views
        → first_error_of none views ≡ some error
        → Selects (err (unavailable error))
    conflicting :
        (value other : T)
        → Memᴰ (ok (some value)) views
        → Memᴰ (ok (some other)) views
        → same value other ≡ false
        → Selects (err disagreement)

module _ {T : Type 0} {E : Type 0} (same : T → T → Bool)
    (same_lem : (x y : T) → same x y ≡ true → x ≡ y) where
  -- The loop after a value was seen.
  abbrev Settles : T → Option E → List (View T E) → Type 0
  Settles value first views =
      (All (Agrees value) views × (select_loop same (some value) first views ≡ ok (some value)))
      ⊎ ((other : T) × Memᴰ (ok (some other)) views
          × (same value other ≡ false)
          × (select_loop same (some value) first views ≡ err disagreement))

  settles : (value : T) (first : Option E) (views : List (View T E)) → Settles value first views
  unfolding select_loop conclude
  settles value first [] = inl (tt, refl)
  settles value first (ok none ∷ views) = elim (settles value first views) [
    | inl (p, e) ↦ inl ((tt, p), e)
    | inr (other, q, d, e) ↦ inr (other, Memᴰ.tail q, d, e)
  ]
  settles value first (err error ∷ views) = elim (settles value (first_of first error) views) [
    | inl (p, e) ↦ inl ((tt, p), e)
    | inr (other, q, d, e) ↦ inr (other, Memᴰ.tail q, d, e)
  ]
  settles value first (ok (some other) ∷ views) = elim (Bool-cases (same value other)) [
    | inr different ↦ inr (other, Memᴰ.head refl, different, rw different refl)
    | inl alike ↦ elim (settles value first views) [
      | inl (p, e) ↦ inl (
        (sym (same_lem value other alike), p),
        rw alike (
            subst (λ v. select_loop same (some v) first views ≡ ok (some value))
              (same_lem value other alike) e),
      )
      | inr (w, q, d, e) ↦ inr (
        w,
        Memᴰ.tail q,
        d,
        rw alike (
            subst (λ v. select_loop same (some v) first views ≡ err disagreement)
              (same_lem value other alike) e),
      )
    ]
  ]

  -- The loop before a value is seen.
  abbrev SelectsAfter : Option E → List (View T E) → Type 0
  SelectsAfter first views =
      ((value : T) × Memᴰ (ok (some value)) views
        × All (Agrees value) views
        × (select_loop same none first views ≡ ok (some value)))
      ⊎ (((value : T) × (other : T) × Memᴰ (ok (some value)) views
            × Memᴰ (ok (some other)) views
            × (same value other ≡ false)
            × (select_loop same none first views ≡ err disagreement))
          ⊎ (All IsSilent views
              × (select_loop same none first views ≡ conclude none (first_error_of first views))))

  -- A view without a value changes nothing but the first error.
  carry :
      (first next : Option E) (view : View T E) (views : List (View T E))
      → IsSilent view
      → ((value : T) → Agrees value view)
      → select_loop same none first (view ∷ views) ≡ select_loop same none next views
      → first_error_of first (view ∷ views) ≡ first_error_of next views
      → SelectsAfter next views
      → SelectsAfter first (view ∷ views)
  carry first next view views silent agrees same_loop same_error (inl (value, q, p, e)) =
      inl (value, Memᴰ.tail q, (agrees value, p), same_loop ∙ e)
  carry first next view views silent agrees same_loop same_error
        (inr (inl (value, other, q, r, d, e))) =
      inr (inl (value, other, Memᴰ.tail q, Memᴰ.tail r, d, same_loop ∙ e))
  carry first next view views silent agrees same_loop same_error (inr (inr (p, e))) =
      inr (inr ((silent, p), same_loop ∙ e ∙ ap (conclude none) (sym same_error)))

  selects_after : (first : Option E) (views : List (View T E)) → SelectsAfter first views
  unfolding select_loop conclude
  selects_after first [] = inr (inr (tt, refl))
  selects_after first (ok none ∷ views) =
      carry first first (ok none) views tt (λ _. tt) refl refl (selects_after first views)
  selects_after first (err error ∷ views) =
      carry first (first_of first error) (err error) views tt (λ _. tt) refl refl
        (selects_after (first_of first error) views)
  selects_after first (ok (some value) ∷ views) = elim (settles value first views) [
    | inl (p, e) ↦ inl (value, Memᴰ.head refl, (refl, p), e)
    | inr (other, q, d, e) ↦ inr (inl (value, other, Memᴰ.head refl, Memᴰ.tail q, d, e))
  ]

  concluded :
      (views : List (View T E)) (first : Option E)
      → All IsSilent views
      → first_error_of none views ≡ first
      → Selects same views (conclude none first)
  unfolding conclude
  concluded views none p e = absent p e
  concluded views (some error) p e = failed error p e

  -- Every selection is justified by the views: a value is one that a provider reported and no
  -- provider contradicted, an absence is that all providers reported nothing and none failed, an
  -- error is the first in the order of the providers and comes without any value, and a
  -- disagreement is that two providers reported different values.
  pub select_consistent_optional_view-Selects :
      (views : List (View T E)) → Selects same views (select_consistent_optional_view same views)
  unfolding select_consistent_optional_view
  select_consistent_optional_view-Selects views = elim (selects_after none views) [
    | inl (value, q, p, e) ↦ subst (Selects same views) (sym e) (agreed value q p)
    | inr (inl (value, other, q, r, d, e)) ↦
        subst (Selects same views) (sym e) (conflicting value other q r d)
    | inr (inr (p, e)) ↦
        subst (Selects same views) (sym e) (concluded views (first_error_of none views) p refl)
  ]
