-- ===== src/Runtime/Readiness.antt =====
-- The readiness gate of src/runtime/readiness.rs. The set of reasons is the list of its members in
-- their order of declaration, in which a `BTreeSet` yields them.
use rbot_v.Prelude.{
  Bool, true, false, ◌&&◌, not, List, [], ◌∷◌, ◌++◌, ◌≡◌, ◌↔◌, arith, if◌then◌else◌,
}

-- `RuntimeMode` of src/config.
pub data RuntimeMode : Type 0 where
  observe_mode shadow_mode execute_mode : RuntimeMode

pub data ReadinessReason : Type 0 where
  configuration protocol_identity provider chain_lag storage exact_state : ReadinessReason
  signer runtime_state pending_transaction operator_pause non_execute_mode : ReadinessReason

pub record ReadinessInputs : Type 0 where
  pub mode : RuntimeMode
  pub configuration_valid : Bool
  pub protocol_identity_valid : Bool
  pub providers_ready : Bool
  pub chain_caught_up : Bool
  pub storage_ready : Bool
  pub exact_state_ready : Bool
  pub signer_ready : Bool
  pub execution_scopes_ready : Bool
  pub pending_lane : Bool
  pub operator_paused : Bool

pub record ReadinessReport : Type 0 where
  pub ready : Bool
  pub ready_for_observation : Bool
  pub ready_for_shadow : Bool
  pub ready_for_execute : Bool
  pub reasons : List ReadinessReason

abbrev is_execute : RuntimeMode → Bool
is_execute execute_mode = true
is_execute _ = false

-- A reason that is inserted where a gate is closed.
abbrev unless : Bool → ReadinessReason → List ReadinessReason
unless true _ = []
unless false reason = reason ∷ []

unfoldable pub reasons_of : ReadinessInputs → List ReadinessReason
reasons_of input =
    unless input.configuration_valid configuration
    ++ (unless input.protocol_identity_valid protocol_identity
        ++ (unless input.providers_ready provider
            ++ (unless input.chain_caught_up chain_lag
                ++ (unless input.storage_ready storage
                    ++ (unless input.exact_state_ready exact_state
                        ++ ((if is_execute input.mode
                              then unless input.signer_ready signer
                                ++ (unless input.execution_scopes_ready runtime_state
                                    ++ unless (not input.pending_lane) pending_transaction)
                              else [])
                            ++ (unless (not input.operator_paused) operator_pause
                                ++ unless (is_execute input.mode) non_execute_mode)))))))

unfoldable pub observation : ReadinessInputs → Bool
observation input =
    input.configuration_valid
    && input.protocol_identity_valid
    && input.providers_ready
    && input.chain_caught_up
    && input.storage_ready
    && not input.operator_paused

unfoldable pub execution : ReadinessInputs → Bool
execution input =
    (observation input && input.exact_state_ready)
    && is_execute input.mode
    && input.signer_ready
    && input.execution_scopes_ready
    && not input.pending_lane

abbrev ready_in : RuntimeMode → Bool → Bool → Bool → Bool
ready_in observe_mode o s e = o
ready_in shadow_mode o s e = s
ready_in execute_mode o s e = e

unfoldable pub evaluate_readiness : ReadinessInputs → ReadinessReport
evaluate_readiness input = record {
  ready =
      ready_in input.mode (observation input) (observation input && input.exact_state_ready)
        (execution input);
  ready_for_observation = observation input;
  ready_for_shadow = observation input && input.exact_state_ready;
  ready_for_execute = execution input;
  reasons = reasons_of input;
}

unless-eq-nil : (b : Bool) (r : ReadinessReason) → (unless b r ≡ []) ↔ (b ≡ true)
unless-eq-nil b r = ground arith

append-eq-nil : (xs ys : List ReadinessReason) → (xs ++ ys ≡ []) ↔ ((xs ≡ []) × (ys ≡ []))
append-eq-nil [] ys = ground arith
append-eq-nil (x ∷ xs) ys = ground arith

-- Autonomous signing is ready exactly when no reason is reported against it.
pub evaluate_readiness-reasons :
    (i : ReadinessInputs)
    → ((evaluate_readiness i).ready_for_execute ≡ true) ↔ ((evaluate_readiness i).reasons ≡ [])
unfolding evaluate_readiness reasons_of observation execution
evaluate_readiness-reasons i = ground arith

abbrev implies : Bool → Bool → Bool
implies true b = b
implies false _ = true

-- Each kind of readiness implies the weaker ones, and only the execute mode is ever ready to sign.
evaluate_readiness-ordered :
    (i : ReadinessInputs)
    → ((evaluate_readiness i).ready_for_execute ≡ true
        → ((evaluate_readiness i).ready_for_shadow ≡ true)
          × (i.mode ≡ execute_mode)
          × ((evaluate_readiness i).ready ≡ true))
      × ((evaluate_readiness i).ready_for_shadow ≡ true
          → (evaluate_readiness i).ready_for_observation ≡ true)
      × ((evaluate_readiness i).ready ≡ true → (evaluate_readiness i).ready_for_observation ≡ true)
unfolding evaluate_readiness execution
evaluate_readiness-ordered i = ground arith
