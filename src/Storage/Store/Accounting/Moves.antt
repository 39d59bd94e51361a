-- ===== src/Storage/Store/Accounting/Moves.antt =====
-- The mutation of src/storage/actor.rs that reserves a movement keeps the accounts.
use rbot_v.Prelude.{
  ℕ, ◌+◌, true, ◌≡◌, refl, ap, ◌∙◌, some, List, [], ◌∷◌, ◌++◌, ok, ok_or, ok_or_ok, fail_if, find,
  update_first, any, returns, ensured, step, ◌==◌, arith,
}
use rbot_v.Planner.Episodes.State.{RateSignalEpisode}
use rbot_v.Planner.Episodes.Budget.{available_budget, reserve_pending}
use rbot_v.Storage.Models.{pending, NonceReservation, RateMovementReservationRecord}
use rbot_v.Storage.Store.{
  no_plan, already_reserved, episode_not_durable, budget_invalid, budget_insufficient, invariant,
  TimedEpisode, JsonState, reserve_nonce,
}
use rbot_v.Storage.Store.Movements.{
  is_pending, has_episode, budget_result, write_episode, check_rate_plan, is_taken,
  reserve_rate_movement_and_nonce,
}
use rbot_v.Storage.Store.Accounting.{
  reserved_for, IsAccounted, reserve_pending-ok, reserved_for-append, reserved_for_own,
  reserved_for_other, write-IsAccounted,
}
use rbot_v.Storage.Store.Accounting.Keeps.{nonce_keeps}

-- The row that a reservation appends.
abbrev movement_row :
    (List ℕ → ℕ) → NonceReservation → ℕ → ℕ → ℕ → ℕ → ℕ → RateMovementReservationRecord
movement_row keccak r plan_id k m before after = record {
  reservation_id = keccak (r.transaction_id ∷ plan_id ∷ k ∷ []);
  transaction_id = r.transaction_id;
  plan_id = plan_id;
  episode_id = k;
  movement_assets = m;
  budget_before = before;
  budget_after = after;
  state = pending;
}

-- What a successful reservation of a movement did.
abbrev Books : ℕ → JsonState → JsonState → Type 0
Books k s s' =
    (entry : TimedEpisode) × (episode : RateSignalEpisode) × (row : RateMovementReservationRecord)
    × (find (has_episode k) s.rate_episodes ≡ some entry)
    × (episode.episode_id ≡ entry.episode.episode_id)
    × (episode.pending_movement ≡ entry.episode.pending_movement + row.movement_assets)
    × (s'.rate_episodes ≡ update_first (has_episode k) (write_episode episode) s.rate_episodes)
    × (s'.rate_movement_reservations ≡ s.rate_movement_reservations ++ (row ∷ []))
    × (row.episode_id ≡ k)
    × (is_pending row.state ≡ true)

reserve-Books :
    (keccak : List ℕ → ℕ) (r : NonceReservation) (k m : ℕ) (s s' : JsonState)
    → reserve_rate_movement_and_nonce keccak r k m s ≡ ok s'
    → Books k s s'
unfolding reserve_rate_movement_and_nonce
reserve-Books keccak r k m s s' = ensured (Books k s) (
    step _ (ok_or r.plan_id (invariant no_plan)) λ plan_id _.
      step _ (check_rate_plan plan_id k m s) λ _ _.
        step _
          (fail_if (any (is_taken r.transaction_id plan_id k) s.rate_movement_reservations)
            (invariant already_reserved))
          λ _ _.
            step _ (ok_or (find (has_episode k) s.rate_episodes) (invariant episode_not_durable))
              λ entry found.
                step _ (ok_or (available_budget entry.episode) (invariant budget_invalid))
                  λ before _.
                    step _ (budget_result budget_insufficient (reserve_pending m entry.episode))
                      λ episode reserved.
                        step _ (ok_or (available_budget episode) (invariant budget_invalid))
                          λ after _.
                            step _
                              (reserve_nonce keccak r (record s {
                                rate_episodes =
                                    update_first (has_episode k) (write_episode episode)
                                      s.rate_episodes;
                              }))
                              λ new done.
                                let (held, same) =
                                  reserve_pending-ok budget_insufficient m entry.episode episode
                                    reserved in
                                let (episodes, rows) =
                                  nonce_keeps keccak r
                                    (record s {
                                      rate_episodes =
                                          update_first (has_episode k) (write_episode episode)
                                            s.rate_episodes;
                                    })
                                    new done in
                                returns (
                                  entry,
                                  episode,
                                  movement_row keccak r plan_id k m before after,
                                  ok_or_ok (find (has_episode k) s.rate_episodes)
                                      (invariant episode_not_durable) found,
                                  same,
                                  held,
                                  episodes,
                                  ap
                                      (λ rs.
                                        rs ++ (movement_row keccak r plan_id k m before after ∷ []))
                                      rows,
                                  refl,
                                  refl,
                                ))

pub reserve-IsAccounted :
    (keccak : List ℕ → ℕ) (r : NonceReservation) (k m : ℕ) (s s' : JsonState)
    → reserve_rate_movement_and_nonce keccak r k m s ≡ ok s'
    → (e : ℕ) → IsAccounted s e
    → IsAccounted s' e
reserve-IsAccounted keccak r k m s s' h =
    let (entry, episode, row, found, same, held, episodes, rows, own, is_reserved) =
      reserve-Books keccak r k m s s' h in
    write-IsAccounted k entry episode s s' (λ e. reserved_for e (row ∷ [])) (λ _. 0) found same
      episodes
      (λ e.
        omega
          (arith, ap (reserved_for e) rows, reserved_for-append e s.rate_movement_reservations row))
      (omega
        (arith, held, ap (λ i. reserved_for i (row ∷ [])) own, reserved_for_own row is_reserved))
      (λ e different. reserved_for_other row e (ap (λ i. i == e) own ∙ different))
