-- ===== src/Planner/Episodes/Budget/Invariant.antt =====
-- The budget invariant of an episode, over every call of src/planner/episodes.rs.
use rbot_v.Prelude.{
  max, ℕ, ◌+◌, ◌≤◌, ◌≡◌, Bool, true, false, Option, none, some, List, [], ◌∷◌, Result, ok, err,
  arith,
}
use rbot_v.Domain.{BlockRef, RateObjectiveBranch}
use rbot_v.Planner.Episodes.State.{
  detecting, EpisodeError, IndependentRateEvent, RateSignalEpisode, is_complete, start,
  unlock_persistent, complete,
}
use rbot_v.Planner.Episodes.Confirmation.{
  confirm_short, confirm_if_due, store_span, observe_span, observe_new, observe_short_confirmation,
  observed_span,
}
use rbot_v.Planner.Episodes.Events.{record_independent_event, rewind_independent_events}
use rbot_v.Planner.Episodes.Budget.{
  reserve_pending, release_pending, confirm_pending, reopen_confirmed,
}
use rbot_v.Planner.Episodes.Budget.Commands.{
  EpisodeCommand, observe, reserve, release, confirm, reopen, unlock, record_event, rewind, stop,
  kept, apply, run,
}

abbrev is_some {ℓ} : {A : Type ℓ} → Option A → Bool
is_some none = false
is_some (some _) = true

-- The confirmed and the pending movement never pass the frozen baseline, which the two tranches
-- share and which is zero while the signal is being detected; a stop reason is recorded exactly in
-- the terminal state.
pub record IsFunded (e : RateSignalEpisode) : Type 0 where
  pub within : e.confirmed_movement + e.pending_movement ≤ e.baseline_desired_movement
  pub frozen : e.immediate_budget ≡ e.baseline_desired_movement
  pub unset : e.state ≡ detecting → e.baseline_desired_movement ≡ 0
  pub stopped : is_some e.stop_reason ≡ is_complete e.state

confirm_short-IsFunded :
    (b : BlockRef) (n : ℕ) (e : RateSignalEpisode) → IsFunded e → IsFunded (confirm_short b n e).0
unfolding confirm_short
confirm_short-IsFunded b n e h = ground arith

confirm_if_due-IsFunded :
    (b : BlockRef) (r n : ℕ) (e : RateSignalEpisode)
    → IsFunded e
    → IsFunded (confirm_if_due b r n e).0
unfolding confirm_if_due
confirm_if_due-IsFunded b r n e h = ground (arith, confirm_short-IsFunded b n e h)

store_span-IsFunded :
    (span : Option ℕ) (b : BlockRef) (r n : ℕ) (e : RateSignalEpisode)
    → IsFunded e
    → IsFunded (store_span span b r n e).0
unfolding store_span
store_span-IsFunded none b r n e h = h
store_span-IsFunded (some k) b r n e h =
    confirm_if_due-IsFunded b r n _
      (record { within = h.within; frozen = h.frozen; unset = h.unset; stopped = h.stopped })

observe_span-IsFunded :
    (b : BlockRef) (r n : ℕ) (e : RateSignalEpisode)
    → IsFunded e
    → IsFunded (observe_span b r n e).0
unfolding observe_span
observe_span-IsFunded b r n e h =
    store_span-IsFunded (observed_span b e.detection_block) b r n _
      (record { within = h.within; frozen = h.frozen; unset = h.unset; stopped = h.stopped })

observe_new-IsFunded :
    (b : BlockRef) (r n : ℕ) (e : RateSignalEpisode) → IsFunded e → IsFunded (observe_new b r n e).0
unfolding observe_new
observe_new-IsFunded b r n e h = ground (arith, observe_span-IsFunded b r n e h)

observe-IsFunded :
    (b : BlockRef) (r n : ℕ) (e : RateSignalEpisode)
    → IsFunded e
    → IsFunded (observe_short_confirmation b r n e).0
unfolding observe_short_confirmation
observe-IsFunded b r n e h =
    ground (arith, confirm_short-IsFunded b n e h, observe_new-IsFunded b (max r 1) n e h)

reserve_pending-IsFunded :
    (m : ℕ) (e : RateSignalEpisode) → IsFunded e → IsFunded (reserve_pending m e).0
unfolding reserve_pending
reserve_pending-IsFunded m e h = ground arith

release_pending-IsFunded :
    (m : ℕ) (e : RateSignalEpisode) → IsFunded e → IsFunded (release_pending m e).0
unfolding release_pending
release_pending-IsFunded m e h = ground arith

confirm_pending-IsFunded :
    (m : ℕ) (e : RateSignalEpisode) → IsFunded e → IsFunded (confirm_pending m e).0
unfolding confirm_pending
confirm_pending-IsFunded m e h = ground arith

reopen_confirmed-IsFunded :
    (m b : ℕ) (e : RateSignalEpisode) → IsFunded e → IsFunded (reopen_confirmed m b e).0
unfolding reopen_confirmed
reopen_confirmed-IsFunded m b e h = ground arith

unlock_persistent-IsFunded : (e : RateSignalEpisode) → IsFunded e → IsFunded (unlock_persistent e).0
unfolding unlock_persistent
unlock_persistent-IsFunded e h = ground arith

record_independent_event-IsFunded :
    (v : IndependentRateEvent) (e : RateSignalEpisode)
    → IsFunded e
    → IsFunded (record_independent_event v e).0
unfolding record_independent_event
record_independent_event-IsFunded v e h = ground arith

kept-IsFunded :
    {A : Type 0} (e : RateSignalEpisode) (x : RateSignalEpisode × Result EpisodeError A)
    → IsFunded e
    → IsFunded x.0
    → IsFunded (kept e x)
kept-IsFunded e (new, ok _) h k = k
kept-IsFunded e (new, err _) h k = h

apply-IsFunded : (c : EpisodeCommand) (e : RateSignalEpisode) → IsFunded e → IsFunded (apply c e)
unfolding apply rewind_independent_events complete
apply-IsFunded (observe b r n) e h = kept-IsFunded e _ h (observe-IsFunded b r n e h)
apply-IsFunded (reserve m) e h = kept-IsFunded e _ h (reserve_pending-IsFunded m e h)
apply-IsFunded (release m) e h = kept-IsFunded e _ h (release_pending-IsFunded m e h)
apply-IsFunded (confirm m) e h = kept-IsFunded e _ h (confirm_pending-IsFunded m e h)
apply-IsFunded (reopen m b) e h = kept-IsFunded e _ h (reopen_confirmed-IsFunded m b e h)
apply-IsFunded unlock e h = kept-IsFunded e _ h (unlock_persistent-IsFunded e h)
apply-IsFunded (record_event v) e h = kept-IsFunded e _ h (record_independent_event-IsFunded v e h)
apply-IsFunded (rewind ancestor) e h = ground arith
apply-IsFunded (stop reason) e h = ground arith

-- An episode that starts is funded: nothing is confirmed, pending or unlocked, and no stop reason is
-- recorded.
start-IsFunded :
    (keccak : List ℕ → ℕ) (vault group : ℕ) (branch : RateObjectiveBranch) (block : BlockRef)
    (config topology : ℕ) (evaluation controllable sources destinations : List ℕ)
    (started expires : ℕ) (e : RateSignalEpisode)
    → start keccak vault group branch block config topology evaluation controllable sources
        destinations started expires
      ≡ ok e
    → IsFunded e
unfolding start
start-IsFunded keccak vault group branch block config topology evaluation controllable sources
      destinations started expires e h =
    ground arith

-- From a funded episode, no sequence of calls moves more than the baseline: what is confirmed and
-- what is pending stay within it, the two tranches stay one budget, and a stop reason is recorded
-- exactly in the terminal state.
pub run-IsFunded :
    (cs : List EpisodeCommand) (e : RateSignalEpisode) → IsFunded e → IsFunded (run cs e)
unfolding run
run-IsFunded [] e h = h
run-IsFunded (c ∷ cs) e h = run-IsFunded cs (apply c e) (apply-IsFunded c e h)
