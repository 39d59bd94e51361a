-- ===== src/Planner/Episodes/State.antt =====
-- The data of src/planner/episodes.rs, the start of an episode, its end and its frozen direction.
-- Sets of markets are lists of their members; the hash function is library code, so it is a
-- parameter, over the list of the hashed fields.
use rbot_v.Prelude.{
  ℕ, Bool, true, false, ◌||◌, not, Option, none, some, List, [], ◌∷◌, ◌++◌, Result, ok, err,
  is_empty, is_subset, is_disjoint, leb, if◌then◌else◌,
}
use rbot_v.Prelude.Actions.{Action, ◌>>◌, raise_if, modify}
use rbot_v.Domain.{BlockRef, RateObjectiveBranch, portfolio, controllable}

pub data RateEpisodeState : Type 0 where
  detecting immediate persistent complete_state : RateEpisodeState

pub data RateEpisodeStopReason : Type 0 where
  target_reached config_or_topology_changed direction_changed : RateEpisodeStopReason
  expired_stalled non_consecutive_observation higher_priority_plan : RateEpisodeStopReason

pub data EpisodeError : Type 0 where
  invalid_direction invalid_budget budget_exceeded incompatible_direction : EpisodeError
  already_complete non_consecutive observation_overflow : EpisodeError

pub record IndependentRateEvent : Type 0 where
  pub transaction_hash : ℕ
  pub block : BlockRef

pub record RateSignalEpisode : Type 0 where
  pub episode_id : ℕ
  pub vault : ℕ
  pub rate_group : ℕ
  pub state : RateEpisodeState
  pub stop_reason : Option RateEpisodeStopReason
  pub objective_branch : RateObjectiveBranch
  pub detection_block : BlockRef
  pub confirmation_block : Option BlockRef
  pub last_observation_block : Option BlockRef
  pub consecutive_observations : ℕ
  pub config_revision : ℕ
  pub topology_revision : ℕ
  pub evaluation_markets : List ℕ
  pub controllable_markets : List ℕ
  pub source_markets : List ℕ
  pub destination_markets : List ℕ
  pub direction_hash : ℕ
  pub baseline_desired_movement : ℕ
  pub immediate_budget : ℕ
  pub confirmed_movement : ℕ
  pub pending_movement : ℕ
  pub independent_events : List IndependentRateEvent
  pub started_at : ℕ
  pub expires_at : ℕ

abbrev pub EpisodeAction : Type 0 → Type 0
EpisodeAction A = Action RateSignalEpisode EpisodeError A

abbrev pub is_complete : RateEpisodeState → Bool
is_complete complete_state = true
is_complete _ = false

abbrev pub is_detecting : RateEpisodeState → Bool
is_detecting detecting = true
is_detecting _ = false

-- `RateObjectiveBranch::stable_code`.
unfoldable pub stable_code : RateObjectiveBranch → ℕ
stable_code portfolio = 0
stable_code controllable = 1

unfoldable pub tagged : ℕ → List ℕ → List ℕ
tagged tag [] = []
tagged tag (market ∷ rest) = tag ∷ market ∷ tagged tag rest

-- The fields of a direction in the order in which they are hashed.
unfoldable pub direction_material : RateObjectiveBranch → ℕ → ℕ → List ℕ → List ℕ → List ℕ
direction_material branch config_revision topology_revision sources destinations =
    tagged 0 sources
    ++ (tagged 1 destinations ++ (stable_code branch ∷ config_revision ∷ topology_revision ∷ []))

unfoldable pub start :
    (List ℕ → ℕ)
    → ℕ
    → ℕ
    → RateObjectiveBranch
    → BlockRef
    → ℕ
    → ℕ
    → List ℕ
    → List ℕ
    → List ℕ
    → List ℕ
    → ℕ
    → ℕ
    → Result EpisodeError RateSignalEpisode
start keccak vault rate_group branch detection_block config_revision topology_revision
      evaluation_markets controllable_markets source_markets destination_markets started_at
      expires_at =
    if is_empty source_markets
      || is_empty destination_markets
      || not (is_disjoint source_markets destination_markets)
      || leb expires_at started_at
    then err invalid_direction
    else (let direction =
          direction_material branch config_revision topology_revision source_markets
            destination_markets in
        ok (record {
          episode_id = keccak (direction ++ (vault ∷ rate_group ∷ detection_block.number ∷ []));
          vault = vault;
          rate_group = rate_group;
          state = detecting;
          stop_reason = none;
          objective_branch = branch;
          detection_block = detection_block;
          confirmation_block = none;
          last_observation_block = some detection_block;
          consecutive_observations = 1;
          config_revision = config_revision;
          topology_revision = topology_revision;
          evaluation_markets = evaluation_markets;
          controllable_markets = controllable_markets;
          source_markets = source_markets;
          destination_markets = destination_markets;
          direction_hash = keccak direction;
          baseline_desired_movement = 0;
          immediate_budget = 0;
          confirmed_movement = 0;
          pending_movement = 0;
          independent_events = [];
          started_at = started_at;
          expires_at = expires_at;
        }))

unfoldable pub unlock_persistent : EpisodeAction (Unit {0})
unlock_persistent e =
    (do
      raise_if (is_complete e.state) already_complete
      modify (λ s. record s { state = persistent }))
      e

abbrev same_branch : RateObjectiveBranch → RateObjectiveBranch → Bool
same_branch portfolio portfolio = true
same_branch controllable controllable = true
same_branch _ _ = false

unfoldable pub validate_direction :
    RateSignalEpisode → RateObjectiveBranch → List ℕ → List ℕ → Result EpisodeError (Unit {0})
validate_direction e branch sources destinations =
    if not (same_branch branch e.objective_branch)
      || not (is_subset sources e.source_markets)
      || not (is_subset destinations e.destination_markets)
      || not (is_disjoint sources destinations)
    then err incompatible_direction
    else ok tt

unfoldable pub complete : RateEpisodeStopReason → RateSignalEpisode → RateSignalEpisode
complete reason e = record e { state = complete_state; stop_reason = some reason }
