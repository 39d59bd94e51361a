-- ===== src/State/IdleLocks/Kinds.antt =====
-- What one consumption loop of src/state/idle_locks.rs takes from the locks of its kind.
use rbot_v.Prelude.{
  ℕ, ◌+◌, ◌-◌, Bool, true, false, List, [], ◌∷◌, ok, ◌≡◌, ◌≢◌, min, refl, sym, ◌∙◌, ◌==◌, arith,
  if◌then◌else◌,
}
use rbot_v.State.IdleLocks.{
  IdleLockKind, force_exit, external_emergency_deallocation, operator_emergency,
  unattributed_safety_hold, stable_code, IdleLock, is_active, selects, lower, keep, consume_lock,
  consume_kind,
}

-- What the active locks of a kind hold.
unfoldable pub held : IdleLockKind → List IdleLock → ℕ
held kind [] = 0
held kind (lock ∷ locks) =
    let rest = held kind locks in if selects kind lock then lock.remaining_assets + rest else rest

-- What all active locks hold.
unfoldable pub held_total : List IdleLock → ℕ
held_total [] = 0
held_total (lock ∷ locks) =
    let rest = held_total locks in
    if is_active lock.release_state then lock.remaining_assets + rest else rest

pub held_total-held :
    (locks : List IdleLock)
    → held_total locks
      ≡ held force_exit locks
        + held external_emergency_deallocation locks
        + held operator_emergency locks
        + held unattributed_safety_hold locks
unfolding held held_total
held_total-held [] = refl
held_total-held (lock ∷ locks) = ground (arith, held_total-held locks)

-- The locks after a consumption, without the checks.
unfoldable pub drain : IdleLockKind → ℕ → List IdleLock → List IdleLock
drain kind r [] = []
drain kind r (lock ∷ locks) =
    let taken = min lock.remaining_assets r in
    let rest = drain kind (r - taken) locks in
    let untouched = drain kind r locks in
    if selects kind lock
    then lower (lock.remaining_assets - taken) lock ∷ (if r - taken == 0 then locks else rest)
    else lock ∷ untouched

pub consume_lock_lem :
    (r : ℕ) (lock : IdleLock) (locks after : List IdleLock) (h : ℕ)
    → consume_lock r lock locks (ok (after, (r - min lock.remaining_assets r) - h))
      ≡ ok (
        lower (lock.remaining_assets - min lock.remaining_assets r) lock
            ∷ (if r - min lock.remaining_assets r == 0 then locks else after),
        r - (lock.remaining_assets + h),
      )
unfolding consume_lock
consume_lock_lem r lock locks after h = ground arith

pub consume_choice :
    (b : Bool) (r : ℕ) (lock : IdleLock) (locks after untouched : List IdleLock) (h : ℕ)
    → (if b
        then consume_lock r lock locks (ok (after, (r - min lock.remaining_assets r) - h))
        else keep lock (ok (untouched, r - h)))
      ≡ ok (
        (if b
            then lower (lock.remaining_assets - min lock.remaining_assets r) lock
              ∷ (if r - min lock.remaining_assets r == 0 then locks else after)
            else lock ∷ untouched),
        r - (if b then lock.remaining_assets + h else h),
      )
consume_choice true r lock locks after untouched h = consume_lock_lem r lock locks after h
consume_choice false r lock locks after untouched h = refl

pub consume_kind_lem :
    (kind : IdleLockKind) (r : ℕ) (locks : List IdleLock)
    → consume_kind kind r locks ≡ ok (drain kind r locks, r - held kind locks)
unfolding consume_kind drain held
consume_kind_lem kind r [] = ground arith
consume_kind_lem kind r (lock ∷ locks) =
    rw
      (consume_kind_lem kind (r - min lock.remaining_assets r) locks, consume_kind_lem kind r locks)
      (consume_choice (selects kind lock) r lock locks
        (drain kind (r - min lock.remaining_assets r) locks) (drain kind r locks) (held kind locks))

pub held-drain :
    (kind : IdleLockKind) (r : ℕ) (locks : List IdleLock)
    → held kind (drain kind r locks) ≡ held kind locks - r
unfolding drain held
held-drain kind r [] = ground arith
held-drain kind r (lock ∷ locks) =
    ground (arith, held-drain kind (r - min lock.remaining_assets r) locks, held-drain kind r locks)

pub held-skip :
    (other kind : IdleLockKind) (left : ℕ) (lock : IdleLock) (locks : List IdleLock)
    → stable_code other ≢ stable_code kind
    → selects kind lock ≡ true
    → (held other (lower left lock ∷ locks) ≡ held other locks)
      × (held other (lock ∷ locks) ≡ held other locks)
unfolding held
held-skip other kind left lock locks h k = ground arith

pub held-choice :
    (other : IdleLockKind) (b : Bool) (xs ys locks : List IdleLock)
    → held other xs ≡ held other locks
    → held other ys ≡ held other locks
    → held other (if b then xs else ys) ≡ held other locks
held-choice other true xs ys locks h k = h
held-choice other false xs ys locks h k = k

pub held-keep :
    (other : IdleLockKind) (lock : IdleLock) (xs ys : List IdleLock)
    → held other xs ≡ held other ys
    → held other (lock ∷ xs) ≡ held other (lock ∷ ys)
unfolding held
held-keep other lock xs ys h = ground arith

pub held-drain_choice :
    (other kind : IdleLockKind) (b c : Bool) (left : ℕ) (lock : IdleLock)
    (locks after untouched : List IdleLock)
    → stable_code other ≢ stable_code kind
    → selects kind lock ≡ b
    → held other after ≡ held other locks
    → held other untouched ≡ held other locks
    → held other (if b then lower left lock ∷ (if c then locks else after) else lock ∷ untouched)
      ≡ held other (lock ∷ locks)
held-drain_choice other kind true c left lock locks after untouched h e k l =
    (held-skip other kind left lock _ h e).0
    ∙ held-choice other c locks after locks refl k
    ∙ sym (held-skip other kind 0 lock locks h e).1
held-drain_choice other kind false c left lock locks after untouched h e k l =
    held-keep other lock untouched locks l
