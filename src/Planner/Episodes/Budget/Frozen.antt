-- ===== src/Planner/Episodes/Budget/Frozen.antt =====
-- What an episode of src/planner/episodes.rs freezes, and the exact terms of a reservation.
use rbot_v.Prelude.{◌∙◌, ℕ, ◌≡◌, ◌≢◌, List, [], ◌∷◌, Result, ok, err, arith}
use rbot_v.Domain.{BlockRef}
use rbot_v.Planner.Episodes.State.{
  detecting, EpisodeError, IndependentRateEvent, RateSignalEpisode, unlock_persistent, complete,
}
use rbot_v.Planner.Episodes.Confirmation.{observe_short_confirmation}
use rbot_v.Planner.Episodes.Events.{record_independent_event, rewind_independent_events}
use rbot_v.Planner.Episodes.Budget.{
  reserve_pending, release_pending, confirm_pending, reopen_confirmed,
}
use rbot_v.Planner.Episodes.Budget.Commands.{
  EpisodeCommand, observe, reserve, release, confirm, reopen, unlock, record_event, rewind, stop,
  kept, apply, run,
}

-- What an episode freezes at its short confirmation, kept between two of its states.
pub record KeepsDirection (e e' : RateSignalEpisode) : Type 0 where
  pub sources : e'.source_markets ≡ e.source_markets
  pub destinations : e'.destination_markets ≡ e.destination_markets
  pub direction : e'.direction_hash ≡ e.direction_hash
  pub branch : e'.objective_branch ≡ e.objective_branch
  pub confirmed_state : e'.state ≢ detecting
  pub baseline : e'.baseline_desired_movement ≡ e.baseline_desired_movement

observe_short_confirmation-KeepsDirection :
    (b : BlockRef) (r n : ℕ) (e : RateSignalEpisode)
    → e.state ≢ detecting
    → KeepsDirection e (observe_short_confirmation b r n e).0
unfolding observe_short_confirmation
observe_short_confirmation-KeepsDirection b r n e h = ground arith

reserve_pending-KeepsDirection :
    (m : ℕ) (e : RateSignalEpisode) → e.state ≢ detecting → KeepsDirection e (reserve_pending m e).0
unfolding reserve_pending
reserve_pending-KeepsDirection m e h = ground arith

release_pending-KeepsDirection :
    (m : ℕ) (e : RateSignalEpisode) → e.state ≢ detecting → KeepsDirection e (release_pending m e).0
unfolding release_pending
release_pending-KeepsDirection m e h = ground arith

confirm_pending-KeepsDirection :
    (m : ℕ) (e : RateSignalEpisode) → e.state ≢ detecting → KeepsDirection e (confirm_pending m e).0
unfolding confirm_pending
confirm_pending-KeepsDirection m e h = ground arith

reopen_confirmed-KeepsDirection :
    (m b : ℕ) (e : RateSignalEpisode)
    → e.state ≢ detecting
    → KeepsDirection e (reopen_confirmed m b e).0
unfolding reopen_confirmed
reopen_confirmed-KeepsDirection m b e h = ground arith

unlock_persistent-KeepsDirection :
    (e : RateSignalEpisode) → e.state ≢ detecting → KeepsDirection e (unlock_persistent e).0
unfolding unlock_persistent
unlock_persistent-KeepsDirection e h = ground arith

record_independent_event-KeepsDirection :
    (v : IndependentRateEvent) (e : RateSignalEpisode)
    → e.state ≢ detecting
    → KeepsDirection e (record_independent_event v e).0
unfolding record_independent_event
record_independent_event-KeepsDirection v e h = ground arith

kept-KeepsDirection :
    {A : Type 0} (e : RateSignalEpisode) (x : RateSignalEpisode × Result EpisodeError A)
    → e.state ≢ detecting
    → KeepsDirection e x.0
    → KeepsDirection e (kept e x)
kept-KeepsDirection e (new, ok _) h k = k
kept-KeepsDirection e (new, err _) h k = ground arith

apply-KeepsDirection :
    (c : EpisodeCommand) (e : RateSignalEpisode)
    → e.state ≢ detecting
    → KeepsDirection e (apply c e)
unfolding apply rewind_independent_events complete
apply-KeepsDirection (observe b r n) e h =
    kept-KeepsDirection e _ h (observe_short_confirmation-KeepsDirection b r n e h)
apply-KeepsDirection (reserve m) e h =
    kept-KeepsDirection e _ h (reserve_pending-KeepsDirection m e h)
apply-KeepsDirection (release m) e h =
    kept-KeepsDirection e _ h (release_pending-KeepsDirection m e h)
apply-KeepsDirection (confirm m) e h =
    kept-KeepsDirection e _ h (confirm_pending-KeepsDirection m e h)
apply-KeepsDirection (reopen m b) e h =
    kept-KeepsDirection e _ h (reopen_confirmed-KeepsDirection m b e h)
apply-KeepsDirection unlock e h = kept-KeepsDirection e _ h (unlock_persistent-KeepsDirection e h)
apply-KeepsDirection (record_event v) e h =
    kept-KeepsDirection e _ h (record_independent_event-KeepsDirection v e h)
apply-KeepsDirection (rewind ancestor) e h = ground arith
apply-KeepsDirection (stop reason) e h = ground arith

-- After its short confirmation an episode keeps its direction and its baseline under every
-- sequence of calls, and never goes back to detecting.
pub run-KeepsDirection :
    (cs : List EpisodeCommand) (e : RateSignalEpisode)
    → e.state ≢ detecting
    → KeepsDirection e (run cs e)
unfolding run
run-KeepsDirection [] e h = ground arith
run-KeepsDirection (c ∷ cs) e h =
    let one = apply-KeepsDirection c e h in
    let rest = run-KeepsDirection cs (apply c e) one.confirmed_state in
    record {
      sources = rest.sources ∙ one.sources;
      destinations = rest.destinations ∙ one.destinations;
      direction = rest.direction ∙ one.direction;
      branch = rest.branch ∙ one.branch;
      confirmed_state = rest.confirmed_state;
      baseline = rest.baseline ∙ one.baseline;
    }
