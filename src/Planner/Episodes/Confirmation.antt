-- ===== src/Planner/Episodes/Confirmation.antt =====
-- The short confirmation of an episode in src/planner/episodes.rs.
use rbot_v.Prelude.{
  ℕ, Bool, err, true, false, ◌&&◌, ◌||◌, not, Option, none, some, and_then, ltb, leb, ◌==◌, max,
  if◌then◌else◌,
}
use rbot_v.Prelude.Words.{checked_sub, checked_add_u64, saturating_add_u64}
use rbot_v.Prelude.Actions.{◌>>◌, pure, raise_if, modify}
use rbot_v.Domain.{BlockRef}
use rbot_v.Planner.Episodes.State.{
  immediate, invalid_budget, already_complete, non_consecutive, observation_overflow, EpisodeAction,
  is_complete, is_detecting,
}

unfoldable pub confirm_short : BlockRef → ℕ → EpisodeAction (Unit {0})
confirm_short block baseline e =
    (do
      raise_if (is_complete e.state) already_complete
      raise_if (not (is_detecting e.state) || baseline == 0) invalid_budget
      modify (λ s. record s {
        baseline_desired_movement = baseline;
        immediate_budget = baseline;
        confirmation_block = some block;
        last_observation_block = some block;
        state = immediate;
      }))
      e

-- `BlockRef::eq`.
abbrev pub same_block : BlockRef → BlockRef → Bool
same_block a b =
    a.number == b.number
    && a.hash == b.hash
    && a.parent_hash == b.parent_hash
    && a.timestamp == b.timestamp
    && a.gas_limit == b.gas_limit

abbrev pub unwrap_or {ℓ} : {A : Type ℓ} → Option A → A → A
unwrap_or none d = d
unwrap_or (some a) _ = a

-- A block that cannot follow the last observed one.
unfoldable pub breaks_order : BlockRef → BlockRef → Bool
breaks_order block previous =
    leb block.number previous.number
    || ltb block.timestamp previous.timestamp
    || (block.number == saturating_add_u64 previous.number 1
        && not (block.parent_hash == previous.hash))

-- The blocks covered from the detection to an observation, both included.
unfoldable pub observed_span : BlockRef → BlockRef → Option ℕ
observed_span block detection =
    and_then (checked_sub block.number detection.number) (λ distance. checked_add_u64 distance 1)

-- The confirmation is due once the span is covered; otherwise the caller waits.
unfoldable pub confirm_if_due : BlockRef → ℕ → ℕ → EpisodeAction Bool
confirm_if_due block required_span baseline e =
    (if leb required_span e.consecutive_observations
        then (do confirm_short block baseline; pure true)
        else pure false)
      e

unfoldable pub store_span : Option ℕ → BlockRef → ℕ → ℕ → EpisodeAction Bool
store_span none _ _ _ e = (e, err observation_overflow)
store_span (some span) block required_span baseline e =
    confirm_if_due block required_span baseline (record e { consecutive_observations = span })

-- The block is kept as the last one before its span is computed.
unfoldable pub observe_span : BlockRef → ℕ → ℕ → EpisodeAction Bool
observe_span block required_span baseline e =
    store_span (observed_span block e.detection_block) block required_span baseline
      (record e { last_observation_block = some block })

unfoldable pub observe_new : BlockRef → ℕ → ℕ → EpisodeAction Bool
observe_new block required_span baseline e =
    (let previous = unwrap_or e.last_observation_block e.detection_block in
        if same_block block previous then pure false else (do
          raise_if (breaks_order block previous) non_consecutive
          observe_span block required_span baseline))
      e

unfoldable pub observe_short_confirmation : BlockRef → ℕ → ℕ → EpisodeAction Bool
observe_short_confirmation block required_opportunities baseline e =
    (do
      raise_if (is_complete e.state) already_complete
      (if not (is_detecting e.state)
          then pure true
          else if leb (max required_opportunities 1) e.consecutive_observations
          then (do confirm_short block baseline; pure true)
          else observe_new block (max required_opportunities 1) baseline))
      e
