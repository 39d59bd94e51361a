-- ===== src/Storage/Graph.antt =====
-- The lifecycle graph `TransactionState::permits` of src/storage/models.rs. A statement about all
-- pairs of states is computed over the list of the states.
use rbot_v.Prelude.{
  Bool, true, false, ◌≡◌, arith, refl, List, [], ◌∷◌, All, all, all→All, ◌||◌, ◌&&◌, any, not,
}
use rbot_v.Storage.Models.{
  TransactionState, nonce_reserved, aborted_before_signing, signed, submitted, replaced,
  cancellation_submitted, included, confirmed, reverted, orphaned, conformance_validated,
  reconciled, failed, foreign_nonce_consumed, cancelled, replacement_signed, cancellation_signed,
  reconciliation_pending, ◌is◌, one_of, is_unresolved, is_active_lifecycle, permits,
}

abbrev pub states : List TransactionState
states =
    nonce_reserved ∷ aborted_before_signing ∷ signed ∷ submitted ∷ replaced ∷ cancellation_submitted
    ∷ included ∷ confirmed ∷ reverted ∷ orphaned ∷ conformance_validated ∷ reconciled ∷ failed
    ∷ foreign_nonce_consumed ∷ cancelled ∷ replacement_signed ∷ cancellation_signed
    ∷ reconciliation_pending ∷ []

holds :
    (p : TransactionState → Bool)
    → All (λ s. p s ≡ true) states
    → (s : TransactionState) → p s ≡ true
holds p h nonce_reserved = h.0
holds p h aborted_before_signing = h.1.0
holds p h signed = h.1.1.0
holds p h submitted = h.1.1.1.0
holds p h replaced = h.1.1.1.1.0
holds p h cancellation_submitted = h.1.1.1.1.1.0
holds p h included = h.1.1.1.1.1.1.0
holds p h confirmed = h.1.1.1.1.1.1.1.0
holds p h reverted = h.1.1.1.1.1.1.1.1.0
holds p h orphaned = h.1.1.1.1.1.1.1.1.1.0
holds p h conformance_validated = h.1.1.1.1.1.1.1.1.1.1.0
holds p h reconciled = h.1.1.1.1.1.1.1.1.1.1.1.0
holds p h failed = h.1.1.1.1.1.1.1.1.1.1.1.1.0
holds p h foreign_nonce_consumed = h.1.1.1.1.1.1.1.1.1.1.1.1.1.0
holds p h cancelled = h.1.1.1.1.1.1.1.1.1.1.1.1.1.1.0
holds p h replacement_signed = h.1.1.1.1.1.1.1.1.1.1.1.1.1.1.1.0
holds p h cancellation_signed = h.1.1.1.1.1.1.1.1.1.1.1.1.1.1.1.1.0
holds p h reconciliation_pending = h.1.1.1.1.1.1.1.1.1.1.1.1.1.1.1.1.1.0

-- What holds of all states by computation holds of each.
pub for_state :
    (p : TransactionState → Bool) → all p states ≡ true → (s : TransactionState) → p s ≡ true
for_state p h s = holds p (all→All p states h) s

-- The same for all pairs.
pub for_states :
    (p : TransactionState → TransactionState → Bool)
    → all (λ a. all (p a) states) states ≡ true
    → (a b : TransactionState) → p a b ≡ true
for_states p h a = for_state (p a) (for_state (λ a. all (p a) states) h a)

keeps_lane :
    (a b : TransactionState) → not (permits a b) || not (is_unresolved b) || is_unresolved a ≡ true
unfolding permits is_unresolved
keeps_lane = for_states (λ a b. not (permits a b) || not (is_unresolved b) || is_unresolved a) refl

-- No permitted transition takes the nonce lane again: a state that owns the lane is only entered
-- from a state that owns it.
pub permits-is_unresolved :
    (a b : TransactionState) → permits a b ≡ true → is_unresolved b ≡ true → is_unresolved a ≡ true
permits-is_unresolved a b h k = ground (arith, keeps_lane a b)

same_lane :
    (a b : TransactionState) → not (a is b) || not (is_unresolved b) || is_unresolved a ≡ true
unfolding is_unresolved
same_lane = for_states (λ a b. not (a is b) || not (is_unresolved b) || is_unresolved a) refl

pub is-is_unresolved :
    (a b : TransactionState) → a is b ≡ true → is_unresolved b ≡ true → is_unresolved a ≡ true
is-is_unresolved a b h k = ground (arith, same_lane a b)

-- The states that a lifecycle can reach from another by permitted transitions.
pub data Reaches (a : TransactionState) : TransactionState → Type 0 where
  at_start : Reaches a a
  step_to : {b c : TransactionState} → Reaches a b → permits b c ≡ true → Reaches a c

-- The states of a path after its first one.
pub visits : {a b : TransactionState} → TransactionState → Reaches a b → Bool
visits s at_start = false
visits s (step_to {c = c} path _) = c is s || visits s path

-- A lifecycle that owns the nonce lane has owned it on its whole path.
pub Reaches-is_unresolved :
    (a b : TransactionState) → Reaches a b → is_unresolved b ≡ true → is_unresolved a ≡ true
Reaches-is_unresolved a _ at_start h = h
Reaches-is_unresolved a c (step_to {b = b} path step) h =
    Reaches-is_unresolved a b path (permits-is_unresolved b c step h)

entered :
    (p n i m v : Bool)
    → not p || not n || i || m ≡ true
    → p ≡ true
    → n ≡ true
    → (m ≡ true → v ≡ true)
    → i || v ≡ true
entered p n i m v step allowed need before = ground (arith, before)

-- A state that every path to the needy states enters: a step into a needy state enters it or
-- leaves from a needy state.
mandatory :
    (s : TransactionState) (needy : TransactionState → Bool)
    → needy nonce_reserved ≡ false
    → ((b c : TransactionState) → not (permits b c) || not (needy c) || (c is s) || needy b ≡ true)
    → (b : TransactionState) (path : Reaches nonce_reserved b) → needy b ≡ true
    → visits s path ≡ true
unfolding visits
mandatory s needy base step _ at_start h = cc
mandatory s needy base step c (step_to {b = b} path allowed) h =
    entered (permits b c) (needy c) (c is s) (needy b) (visits s path) (step b c) allowed h
      (mandatory s needy base step b path)

needs_signed : TransactionState → Bool
needs_signed b = not (one_of b (nonce_reserved ∷ aborted_before_signing ∷ failed ∷ []))

needs_included : TransactionState → Bool
needs_included b =
    one_of b
      (included ∷ confirmed ∷ conformance_validated ∷ reconciled ∷ reconciliation_pending ∷ [])

needs_confirmed : TransactionState → Bool
needs_confirmed b =
    one_of b (confirmed ∷ conformance_validated ∷ reconciled ∷ reconciliation_pending ∷ [])

needs_conformance : TransactionState → Bool
needs_conformance b = one_of b (conformance_validated ∷ reconciled ∷ reconciliation_pending ∷ [])

-- A transaction that ends reconciled was signed, included, confirmed and validated against its
-- plan on the way, whatever else its lifecycle went through.
pub reconciled-visits :
    (path : Reaches nonce_reserved reconciled)
    → (visits signed path ≡ true)
      × (visits included path ≡ true)
      × (visits confirmed path ≡ true)
      × (visits conformance_validated path ≡ true)
unfolding permits needs_signed needs_included needs_confirmed needs_conformance
reconciled-visits path = (
  mandatory signed needs_signed refl (for_states _ refl) reconciled path refl,
  mandatory included needs_included refl (for_states _ refl) reconciled path refl,
  mandatory confirmed needs_confirmed refl (for_states _ refl) reconciled path refl,
  mandatory conformance_validated needs_conformance refl (for_states _ refl) reconciled path refl,
)

-- The lifecycle graph has a way out of a state exactly when compaction must keep the state's row
-- and the state is not the foreign use of the nonce, which keeps the lane closed for good.
pub permits-is_active_lifecycle :
    (a : TransactionState)
    → any (permits a) states ≡ (is_active_lifecycle a && not (a is foreign_nonce_consumed))
unfolding permits is_active_lifecycle is_unresolved
permits-is_active_lifecycle a = ground arith
