-- ===== src/Planner/Episodes/Events.antt =====
-- The independent events of an episode in src/planner/episodes.rs.
use rbot_v.Prelude.{
  ℕ, Bool, true, false, ◌&&◌, ◌||◌, not, Option, none, some, [], ◌∷◌, ◌++◌, any, retain, head?,
  get_last?, length, ltb, leb, ◌==◌, if◌then◌else◌,
}
use rbot_v.Prelude.Words.{u32_limit, saturating_sub}
use rbot_v.Prelude.Actions.{◌>>=◌, ◌>>◌, pure, raise_if, modify, read_or}
use rbot_v.Domain.{BlockRef}
use rbot_v.Planner.Episodes.State.{
  already_complete, non_consecutive, IndependentRateEvent, RateSignalEpisode, EpisodeAction,
  is_complete,
}

-- An event that cannot follow the last recorded one.
unfoldable pub precedes : IndependentRateEvent → Option IndependentRateEvent → Bool
precedes event none = false
precedes event (some last) =
    ltb event.block.number last.block.number
    || (event.block.number == last.block.number && not (event.block.hash == last.block.hash))
    || ltb event.block.timestamp last.block.timestamp

unfoldable pub record_independent_event : IndependentRateEvent → EpisodeAction Bool
record_independent_event event e =
    (do
      raise_if (is_complete e.state) already_complete
      confirmation ← read_or (λ s. s.confirmation_block) non_consecutive
      raise_if (leb event.block.number confirmation.number) non_consecutive
      (if any (λ recorded. recorded.transaction_hash == event.transaction_hash) e.independent_events
          then pure false
          else (do
            raise_if (precedes event (get_last? e.independent_events)) non_consecutive
            modify (λ s. record s { independent_events = s.independent_events ++ (event ∷ []) })
            pure true)))
      e

unfoldable pub covers_span :
    ℕ → ℕ → ℕ → Option IndependentRateEvent → Option IndependentRateEvent → Bool
covers_span count minimum_events minimum_span none _ = false
covers_span count minimum_events minimum_span (some first) none = false
covers_span count minimum_events minimum_span (some first) (some last) =
    ltb count u32_limit
    && leb minimum_events count
    && leb minimum_span (saturating_sub last.block.timestamp first.block.timestamp)

unfoldable pub independent_confirmation_ready : RateSignalEpisode → ℕ → ℕ → Bool
unfolding covers_span
independent_confirmation_ready e minimum_events minimum_span_seconds =
    covers_span (length e.independent_events) minimum_events minimum_span_seconds
      (head? e.independent_events) (get_last? e.independent_events)

unfoldable pub rewind_independent_events : BlockRef → RateSignalEpisode → RateSignalEpisode
rewind_independent_events ancestor e = record e {
  independent_events =
      retain
        (λ event.
          ltb event.block.number ancestor.number
          || (event.block.number == ancestor.number && event.block.hash == ancestor.hash))
        e.independent_events;
}
