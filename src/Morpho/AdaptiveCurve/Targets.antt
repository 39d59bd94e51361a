-- ===== src/Morpho/AdaptiveCurve/Targets.antt =====
-- The target rate that src/morpho/adaptive_curve.rs stores after an interaction stays in its range.
use rbot_v.Prelude.{
  ℕ, ◌≤◌, ◌≡◌, ◌⊎◌, ok, arith, false, ok_or, Ensures, returns, ensured, step, branch,
}
use rbot_v.Prelude.Int.{is_zero, checked_div_i256, checked_mul_i256, ℤ, pos, ◌≤ℤ◌}
use rbot_v.Domain.{invariant, StoredMarketState}
use rbot_v.Morpho.AdaptiveCurve.{
  Shifts, AdaptiveCurveProjection, min_rate_at_target, max_rate_at_target, positive, unsigned,
  new_rate, average_target, w_mul_to_zero, adjustment_speed, initial_rate_at_target,
  normalized_error, curve, targets_of, utilization_of, moved_targets, adapted_targets,
  adaptive_curve_borrow_rate,
}

abbrev InRange : ℤ → Type 0
InRange r = (pos min_rate_at_target ≤ℤ r) × (r ≤ℤ pos max_rate_at_target)

-- A target rate within the pinned bounds.
abbrev pub IsStorable : ℕ → Type 0
IsStorable r = (min_rate_at_target ≤ r) × (r ≤ max_rate_at_target)

initial_InRange : (r : ℤ) → positive initial_rate_at_target ≡ ok r → InRange r
unfolding positive
initial_InRange r h = ground arith

start_InRange :
    (n : ℕ) (s : ℤ) → (n ≡ 0) ⊎ IsStorable n → is_zero s ≡ false → positive n ≡ ok s → InRange s
unfolding positive
start_InRange n s h nz e = ground arith

unsigned-IsStorable : (r : ℤ) (n : ℕ) → InRange r → unsigned r ≡ ok n → IsStorable n
unfolding unsigned
unsigned-IsStorable r n h e = ground arith

module _ (shifts : Shifts) where
  -- Every new target rate is clamped into the pinned range, whatever the exponential was.
  new_rate_bounds : (start linear r : ℤ) → new_rate shifts start linear ≡ ok r → InRange r
  unfolding new_rate positive
  new_rate_bounds s l r h = ground arith

  moved_targets_bounds :
      (start linear : ℤ) → Ensures (λ (t : ℤ × ℤ). InRange t.1) (moved_targets shifts start linear)
  unfolding moved_targets
  moved_targets_bounds s l = step _ (new_rate shifts s l) λ ending h.
      step _ (ok_or (checked_div_i256 l (pos 2)) invariant) λ half _.
        step _ (new_rate shifts s half) λ midpoint _.
          step _ (average_target s ending midpoint)
            λ average _. returns (new_rate_bounds s l ending h)

  adapted_targets_bounds :
      (start error : ℤ) (elapsed : ℕ)
      → InRange start
      → Ensures (λ (t : ℤ × ℤ). InRange t.1) (adapted_targets shifts start error elapsed)
  unfolding adapted_targets
  adapted_targets_bounds s e d h = step _ (w_mul_to_zero (pos adjustment_speed) e) λ speed _.
      step _ (positive d) λ elapsed _.
        step _ (ok_or (checked_mul_i256 speed elapsed) invariant) λ linear _.
          branch _ (is_zero linear) (λ _. returns {a = (s, s)} h)
            (λ _. moved_targets_bounds s linear)

  targets_bounds :
      (stored : ℕ) (start error : ℤ) (elapsed : ℕ)
      → (stored ≡ 0) ⊎ IsStorable stored
      → positive stored ≡ ok start
      → Ensures (λ (t : ℤ × ℤ). InRange t.1) (targets_of shifts start error elapsed)
  unfolding targets_of
  targets_bounds n s e d h hs =
      branch _ (is_zero s)
        (λ _.
          step _ (positive initial_rate_at_target)
            λ initial hi. returns {a = (initial, initial)} (initial_InRange initial hi))
        (λ nz. adapted_targets_bounds s e d (start_InRange n s h nz hs))

  -- From a stored target rate that is unset or in the pinned range, a successful call returns an
  -- ending target rate, the one to be stored, in the pinned range.
  pub ending_rate_bounds :
      (market : StoredMarketState) (stored elapsed : ℕ) (p : AdaptiveCurveProjection)
      → (stored ≡ 0) ⊎ IsStorable stored
      → adaptive_curve_borrow_rate shifts market stored elapsed ≡ ok p
      → IsStorable p.ending_rate_at_target
  unfolding adaptive_curve_borrow_rate
  ending_rate_bounds m s d p h =
      ensured (λ (q : AdaptiveCurveProjection). IsStorable q.ending_rate_at_target)
        (step _ (utilization_of m.total_borrow_assets m.total_supply_assets) λ u _.
          step _ (normalized_error u) λ error _. step _ (positive s) λ start hs.
            step _ (targets_of shifts start error d) λ targets ht.
              step _ (curve targets.0 error) λ average _.
                step _ (unsigned average) λ average_rate _. step _ (unsigned targets.1) λ ending he.
                  returns (
                    unsigned-IsStorable targets.1 ending
                      (ensured _ (targets_bounds s start error d h hs) ht) he))
