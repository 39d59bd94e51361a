-- ===== src/Planner/Episodes/Budget/Commands.antt =====
-- Every call that changes an episode of src/planner/episodes.rs, as a command. A caller drops what
-- a failed call wrote.
use rbot_v.Prelude.{ℕ, List, [], ◌∷◌, Result, ok, err}
use rbot_v.Domain.{BlockRef}
use rbot_v.Planner.Episodes.State.{
  RateEpisodeStopReason, IndependentRateEvent, RateSignalEpisode, EpisodeError, unlock_persistent,
  complete,
}
use rbot_v.Planner.Episodes.Confirmation.{observe_short_confirmation}
use rbot_v.Planner.Episodes.Events.{record_independent_event, rewind_independent_events}
use rbot_v.Planner.Episodes.Budget.{
  reserve_pending, release_pending, confirm_pending, reopen_confirmed,
}

pub data EpisodeCommand : Type 0 where
  observe : BlockRef → ℕ → ℕ → EpisodeCommand
  reserve release confirm : ℕ → EpisodeCommand
  reopen : ℕ → ℕ → EpisodeCommand
  unlock : EpisodeCommand
  record_event : IndependentRateEvent → EpisodeCommand
  rewind : BlockRef → EpisodeCommand
  stop : RateEpisodeStopReason → EpisodeCommand

-- The state that a caller keeps: the new one after a success, the old one after an error.
abbrev pub kept :
    {A : Type 0} → RateSignalEpisode → RateSignalEpisode × Result EpisodeError A → RateSignalEpisode
kept old (new, ok _) = new
kept old (_, err _) = old

unfoldable pub apply : EpisodeCommand → RateSignalEpisode → RateSignalEpisode
apply (observe block required baseline) e =
    kept e (observe_short_confirmation block required baseline e)
apply (reserve movement) e = kept e (reserve_pending movement e)
apply (release movement) e = kept e (release_pending movement e)
apply (confirm movement) e = kept e (confirm_pending movement e)
apply (reopen movement budget_before) e = kept e (reopen_confirmed movement budget_before e)
apply unlock e = kept e (unlock_persistent e)
apply (record_event event) e = kept e (record_independent_event event e)
apply (rewind ancestor) e = rewind_independent_events ancestor e
apply (stop reason) e = complete reason e

unfoldable pub run : List EpisodeCommand → RateSignalEpisode → RateSignalEpisode
run [] e = e
run (c ∷ cs) e = run cs (apply c e)
