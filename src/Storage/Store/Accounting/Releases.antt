-- ===== src/Storage/Store/Accounting/Releases.antt =====
-- The mutations of src/storage/actor.rs that release a movement keep the accounts.
use rbot_v.Prelude.{
  ℕ, true, not, ◌≡◌, refl, sym, Option, none, some, [], ◌∷◌, ok, ok_or, ok_or_ok, fail_if, find,
  find-eq-some, update_first, count, ltb, Ensures, returns, ensures, ensured, step, branch, arith,
}
use rbot_v.Planner.Episodes.Budget.{release_pending}
use rbot_v.Storage.Models.{permits, ◌is◌, RateMovementReservationRecord, TransactionTransition}
use rbot_v.Storage.Store.{
  episode_disappeared, release_rejected, multiple_pending_movements, evidence_required,
  invalid_transition, stale_transition, has_id, invariant, JsonState,
}
use rbot_v.Storage.Store.Movements.{
  is_pending, owns_movement, has_episode, budget_result, write_episode, mark_released,
  release_movement, release_rate_movement, mark_broadcast, settle, transition_transaction,
  releases_movement, requires_evidence, write_transition,
}
use rbot_v.Storage.Store.Accounting.{
  reserved_for, IsAccounted, release_pending-ok, reserved_for_own, reserved_for_other,
  reserved_for-mark_released, write-IsAccounted,
}
use rbot_v.Storage.Store.Accounting.Keeps.{marked_keeps, kept-IsAccounted}

pending_owned :
    (id : ℕ) (r : RateMovementReservationRecord)
    → owns_movement id r ≡ true
    → is_pending r.state ≡ true
pending_owned id r h = ground arith

release_movement-IsAccounted :
    (id : ℕ) (movement : RateMovementReservationRecord) (s s' : JsonState)
    → find (owns_movement id) s.rate_movement_reservations ≡ some movement
    → release_movement id movement s ≡ ok s'
    → (e : ℕ) → IsAccounted s e
    → IsAccounted s' e
unfolding release_movement
release_movement-IsAccounted id movement s s' q =
    ensured (λ s'. (e : ℕ) → IsAccounted s e → IsAccounted s' e)
      (step _
        (ok_or (find (has_episode movement.episode_id) s.rate_episodes)
          (invariant episode_disappeared))
        λ entry found.
          step _
            (budget_result release_rejected
              (release_pending movement.movement_assets entry.episode))
            λ episode released.
              let (held, same) =
                release_pending-ok release_rejected movement.movement_assets entry.episode episode
                  released in
              returns (
                write-IsAccounted movement.episode_id entry episode s
                  (record s {
                    rate_episodes =
                        update_first (has_episode movement.episode_id) (write_episode episode)
                          s.rate_episodes;
                    rate_movement_reservations =
                        update_first (owns_movement id) mark_released s.rate_movement_reservations;
                  })
                  (λ _. 0) (λ e. reserved_for e (movement ∷ []))
                  (ok_or_ok (find (has_episode movement.episode_id) s.rate_episodes)
                    (invariant episode_disappeared) found)
                  same refl
                  (λ e. omega (
                    arith,
                    reserved_for-mark_released e id s.rate_movement_reservations movement q,
                  ))
                  (omega (arith, held, reserved_for_own movement (owned q)))
                  (λ e different. sym (reserved_for_other movement e different))))
  where
    owned :
        find (owns_movement id) s.rate_movement_reservations ≡ some movement
        → is_pending movement.state ≡ true
    owned q =
        pending_owned id movement
          (find-eq-some (owns_movement id) s.rate_movement_reservations movement q)

release-IsAccounted :
    (id : ℕ) (s s' : JsonState)
    → release_rate_movement id s ≡ ok s'
    → (e : ℕ) → IsAccounted s e
    → IsAccounted s' e
unfolding release_rate_movement
release-IsAccounted id s s' =
    ensured (λ s'. (e : ℕ) → IsAccounted s e → IsAccounted s' e)
      (step _
        (fail_if (ltb 1 (count (owns_movement id) s.rate_movement_reservations))
          (invariant multiple_pending_movements))
        λ _ _. go (find (owns_movement id) s.rate_movement_reservations) refl)
  where
    go :
        (o : Option RateMovementReservationRecord)
        → find (owns_movement id) s.rate_movement_reservations ≡ o
        → Ensures
            (λ (s' : JsonState). (e : ℕ) → IsAccounted s e → IsAccounted s' e)
            (elim o [ none ↦ ok s | some movement ↦ release_movement id movement s ])
    go none q = returns (λ e h. h)
    go (some movement) q =
        ensures (λ (s' : JsonState). (e : ℕ) → IsAccounted s e → IsAccounted s' e)
          (release_movement id movement s)
          (λ s' done. release_movement-IsAccounted id movement s s' q done)

settle-IsAccounted :
    (t : TransactionTransition) (s s' : JsonState)
    → settle t s ≡ ok s'
    → (e : ℕ) → IsAccounted s e
    → IsAccounted s' e
unfolding settle
settle-IsAccounted t s s' =
    ensured (λ s'. (e : ℕ) → IsAccounted s e → IsAccounted s' e)
      (branch _ (releases_movement t.next_state)
        (λ _.
          ensures (λ s'. (e : ℕ) → IsAccounted s e → IsAccounted s' e)
            (release_rate_movement t.transaction_id s)
            (λ s' done. release-IsAccounted t.transaction_id s s' done))
        (λ _. returns (λ e h. h)))

pub transition-IsAccounted :
    (t : TransactionTransition) (s s' : JsonState)
    → transition_transaction t s ≡ ok s'
    → (e : ℕ) → IsAccounted s e
    → IsAccounted s' e
unfolding transition_transaction
transition-IsAccounted t s s' =
    ensured (λ s'. (e : ℕ) → IsAccounted s e → IsAccounted s' e)
      (step _ (fail_if (requires_evidence t.next_state) (invariant evidence_required)) λ _ _.
        step _
          (fail_if (not (permits t.expected_state t.next_state))
            (invalid_transition t.expected_state t.next_state))
          λ _ _.
            step _ (ok_or (find (has_id t.transaction_id) s.transactions) stale_transition) λ row _.
              step _ (fail_if (not (row.state is t.expected_state)) stale_transition) λ _ _.
                step _ (mark_broadcast t s) λ marked mark.
                  let settled = record marked {
                    transactions =
                        update_first (has_id t.transaction_id) (write_transition t)
                          marked.transactions;
                  } in
                  ensures _ (settle t settled) (λ s' done e h.
                    settle-IsAccounted t settled s' done e
                      (kept-IsAccounted s marked (marked_keeps t s marked mark) e h)))
