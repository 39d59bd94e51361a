-- ===== src/Transaction/Recovery.antt =====
-- The startup classification of src/transaction/lifecycle.rs.
use rbot_v.Prelude.{ℕ, ◌<◌, Bool, true, false, ◌≡◌, ◌↔◌, ltb, arith, if◌then◌else◌}

pub record RecoveryFacts : Type 0 where
  pub latest_account_nonce : ℕ
  pub pending_nonce : ℕ
  pub transaction_visible : Bool
  pub canonical_receipt : Bool
  pub receipt_orphaned : Bool

pub data RecoveryClassification : Type 0 where
  canonical_inclusion pending_visible pending_absent : RecoveryClassification
  orphaned_receipt ambiguous_nonce_advance invalid_future_reservation : RecoveryClassification

unfoldable pub classify_recovery : RecoveryFacts → RecoveryClassification
classify_recovery facts =
    if facts.receipt_orphaned
    then orphaned_receipt
    else if ltb facts.latest_account_nonce facts.pending_nonce
    then invalid_future_reservation
    else if ltb facts.pending_nonce facts.latest_account_nonce
    then (if facts.canonical_receipt then canonical_inclusion else ambiguous_nonce_advance)
    else if facts.transaction_visible
    then pending_visible
    else pending_absent

-- When the bytes may be sent again, when an inclusion is reported, and when an advance of the nonce
-- is not explained.
classify_recovery_lem :
    (f : RecoveryFacts)
    → ((classify_recovery f ≡ pending_absent) ↔ (
        (f.receipt_orphaned ≡ false)
        × (f.latest_account_nonce ≡ f.pending_nonce)
        × (f.transaction_visible ≡ false)))
      × ((classify_recovery f ≡ canonical_inclusion) ↔ (
          (f.receipt_orphaned ≡ false)
          × (f.pending_nonce < f.latest_account_nonce)
          × (f.canonical_receipt ≡ true)))
      × ((classify_recovery f ≡ ambiguous_nonce_advance) ↔ (
          (f.receipt_orphaned ≡ false)
          × (f.pending_nonce < f.latest_account_nonce)
          × (f.canonical_receipt ≡ false)))
unfolding classify_recovery
classify_recovery_lem f = ground arith
