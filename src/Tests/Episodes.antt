-- ===== src/Tests/Episodes.antt =====
-- Runs of an episode through its life.
use rbot_v.Prelude.{ℕ, none, some, List, [], ◌∷◌, ◌≢◌, sum, arith}
use rbot_v.Domain.{BlockRef, portfolio}
use rbot_v.Planner.Episodes.State.{RateSignalEpisode, detecting, target_reached}
use rbot_v.Planner.Episodes.Budget.Commands.{
  EpisodeCommand, observe, reserve, release, confirm, reopen, unlock, stop,
}
use rbot_v.Planner.Episodes.Budget.Invariant.{IsFunded, run-IsFunded}
use rbot_v.Planner.Episodes.Budget.Frozen.{KeepsDirection, run-KeepsDirection}
use rbot_v.Prelude.Words.{u256_limit}
use rbot_v.Prelude.Int.{i256_limit}
use rbot_v.Planner.Episodes.State.{
  stable_code, tagged, direction_material, start, unlock_persistent, validate_direction, complete,
}
use rbot_v.Planner.Episodes.Confirmation.{
  confirm_short, breaks_order, observed_span, confirm_if_due, store_span, observe_span, observe_new,
  observe_short_confirmation,
}
use rbot_v.Planner.Episodes.Events.{
  precedes, record_independent_event, covers_span, independent_confirmation_ready,
  rewind_independent_events,
}
use rbot_v.Planner.Episodes.Budget.{
  unlocked_budget, available_budget, remaining_budget, reserve_pending, release_pending,
  confirm_pending, reopen_confirmed,
}
use rbot_v.Planner.Episodes.Budget.Commands.{apply, run}

abbrev block_at : ℕ → BlockRef
block_at n = record { number = n; hash = n; parent_hash = 0; timestamp = n; gas_limit = 0 }

-- An episode over two markets, as `start` makes it.
abbrev started : RateSignalEpisode
started = record {
  episode_id = sum (0 ∷ 1 ∷ 1 ∷ 2 ∷ 0 ∷ 3 ∷ 4 ∷ 8 ∷ 9 ∷ 10 ∷ []);
  vault = 8;
  rate_group = 9;
  state = detecting;
  stop_reason = none;
  objective_branch = portfolio;
  detection_block = block_at 10;
  confirmation_block = none;
  last_observation_block = some (block_at 10);
  consecutive_observations = 1;
  config_revision = 3;
  topology_revision = 4;
  evaluation_markets = 1 ∷ 2 ∷ [];
  controllable_markets = 1 ∷ 2 ∷ [];
  source_markets = 1 ∷ [];
  destination_markets = 2 ∷ [];
  direction_hash = sum (0 ∷ 1 ∷ 1 ∷ 2 ∷ 0 ∷ 3 ∷ 4 ∷ []);
  baseline_desired_movement = 0;
  immediate_budget = 0;
  confirmed_movement = 0;
  pending_movement = 0;
  independent_events = [];
  started_at = 100;
  expires_at = 200;
}

started-IsFunded : IsFunded started
started-IsFunded = ground arith

abbrev calls : List EpisodeCommand
calls =
    observe (block_at 12) 3 1000
    ∷ reserve 600
    ∷ confirm 600
    ∷ reserve 300
    ∷ release 300
    ∷ reserve 500
    ∷ reopen 100 900
    ∷ unlock
    ∷ stop target_reached
    ∷ []

run-IsFunded_example : IsFunded (run calls started)
unfolding u256_limit i256_limit stable_code tagged direction_material start unlock_persistent
    validate_direction complete confirm_short breaks_order observed_span confirm_if_due store_span
    observe_span observe_new observe_short_confirmation precedes record_independent_event
    covers_span independent_confirmation_ready rewind_independent_events unlocked_budget
    available_budget remaining_budget reserve_pending release_pending confirm_pending
    reopen_confirmed apply run
run-IsFunded_example = run-IsFunded calls started started-IsFunded

abbrev confirmed_episode : RateSignalEpisode
unfolding u256_limit i256_limit stable_code tagged direction_material start unlock_persistent
    validate_direction complete confirm_short breaks_order observed_span confirm_if_due store_span
    observe_span observe_new observe_short_confirmation precedes record_independent_event
    covers_span independent_confirmation_ready rewind_independent_events unlocked_budget
    available_budget remaining_budget reserve_pending release_pending confirm_pending
    reopen_confirmed apply run
confirmed_episode = run (observe (block_at 12) 3 1000 ∷ reserve 600 ∷ []) started

confirmed_episode-state : confirmed_episode.state ≢ detecting
unfolding u256_limit i256_limit stable_code tagged direction_material start unlock_persistent
    validate_direction complete confirm_short breaks_order observed_span confirm_if_due store_span
    observe_span observe_new observe_short_confirmation precedes record_independent_event
    covers_span independent_confirmation_ready rewind_independent_events unlocked_budget
    available_budget remaining_budget reserve_pending release_pending confirm_pending
    reopen_confirmed apply run
confirmed_episode-state = ground arith

run-KeepsDirection_example : KeepsDirection confirmed_episode (run calls confirmed_episode)
unfolding u256_limit i256_limit stable_code tagged direction_material start unlock_persistent
    validate_direction complete confirm_short breaks_order observed_span confirm_if_due store_span
    observe_span observe_new observe_short_confirmation precedes record_independent_event
    covers_span independent_confirmation_ready rewind_independent_events unlocked_budget
    available_budget remaining_budget reserve_pending release_pending confirm_pending
    reopen_confirmed apply run
run-KeepsDirection_example = run-KeepsDirection calls confirmed_episode confirmed_episode-state
