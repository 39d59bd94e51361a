-- ===== src/Planner/Episodes/Budget.antt =====
-- The movement budget of an episode in src/planner/episodes.rs.
pub mod Commands
pub mod Invariant
pub mod Frozen
use rbot_v.Prelude.{
  ℕ, ◌+◌, Bool, true, false, ◌&&◌, ◌||◌, not, Option, none, some, and_then, List, [], ◌∷◌, ◌++◌,
  map, Result, ok, err, any, retain, head?, get_last?, is_empty, is_subset, is_disjoint, length,
  ltb, leb, ◌==◌, max, if◌then◌else◌,
}
use rbot_v.Prelude.Words.{
  u32_limit, checked_add, checked_sub, checked_add_u64, saturating_add_u64, saturating_sub,
}
use rbot_v.Prelude.Actions.{Action, ◌>>=◌, ◌>>◌, pure, raise, raise_if, modify, read_or}
use rbot_v.Domain.{BlockRef, RateObjectiveBranch, portfolio, controllable}
use rbot_v.Planner.Episodes.State.{
  RateEpisodeState, detecting, immediate, persistent, complete_state, RateEpisodeStopReason,
  EpisodeError, invalid_direction, invalid_budget, budget_exceeded, incompatible_direction,
  already_complete, non_consecutive, observation_overflow, IndependentRateEvent, RateSignalEpisode,
  EpisodeAction, is_complete, is_detecting,
}

unfoldable pub unlocked_budget : RateSignalEpisode → RateEpisodeState → ℕ
unlocked_budget e detecting = 0
unlocked_budget e complete_state = 0
unlocked_budget e immediate = e.immediate_budget
unlocked_budget e persistent = e.baseline_desired_movement

unfoldable pub available_budget : RateSignalEpisode → Option ℕ
unfolding unlocked_budget
available_budget e =
    and_then (checked_sub (unlocked_budget e e.state) e.confirmed_movement)
      (λ value. checked_sub value e.pending_movement)

unfoldable pub remaining_budget : RateSignalEpisode → Option ℕ
remaining_budget e =
    and_then (checked_sub e.baseline_desired_movement e.confirmed_movement)
      (λ value. checked_sub value e.pending_movement)

-- The two cumulative sums, written where the checked operation succeeds.
abbrev store_pending : (ℕ → Option ℕ) → EpisodeAction (Unit {0})
store_pending f = do
  value ← read_or (λ s. f s.pending_movement) budget_exceeded
  modify (λ s. record s { pending_movement = value })

abbrev store_confirmed : (ℕ → Option ℕ) → EpisodeAction (Unit {0})
store_confirmed f = do
  value ← read_or (λ s. f s.confirmed_movement) budget_exceeded
  modify (λ s. record s { confirmed_movement = value })

unfoldable pub reserve_pending : ℕ → EpisodeAction (Unit {0})
unfolding available_budget
reserve_pending movement = do
  available ← read_or available_budget budget_exceeded
  raise_if (ltb available movement) budget_exceeded
  store_pending (λ pending. checked_add pending movement)

unfoldable pub release_pending : ℕ → EpisodeAction (Unit {0})
release_pending movement = store_pending (λ pending. checked_sub pending movement)

unfoldable pub confirm_pending : ℕ → EpisodeAction (Unit {0})
confirm_pending movement = do
  store_pending (λ pending. checked_sub pending movement)
  store_confirmed (λ confirmed. checked_add confirmed movement)

unfoldable pub reopen_confirmed : ℕ → ℕ → EpisodeAction (Unit {0})
reopen_confirmed movement budget_before = do
  store_confirmed (λ confirmed. checked_sub confirmed movement)
  store_pending (λ pending. checked_add pending movement)
  before ← read_or (λ s. checked_sub s.immediate_budget s.confirmed_movement) budget_exceeded
  modify (λ s. record s {
    state = if leb budget_before before then immediate else persistent;
    stop_reason = none;
  })
