-- ===== src/Domain/Status/Flow.antt =====
-- The flow of the statuses: the workflow diagram as a relation, and the code against it.
use oficina_tech_ms_order_se.Shared.{◌≡◌, ◌≢◌, ◌⊎◌, ◌↔◌, ◌<◌, refl, true, false, ℕ, arith}
use oficina_tech_ms_order_se.Domain.Errors.{ok}
use oficina_tech_ms_order_se.Domain.Status.{
  OrderStatus, received, diagnosing, pending_authorization, authorized, in_progress, completed,
  awaiting_payment, payment_rejected, paid, delivered, canceled, authorization_denied,
  can_transition_to, next_status, is_valid, unknown,
}

-- The diagram of the workflow, edge by edge.
infix 40 ◌⟶◌ ◌⟶*◌
pub data ◌⟶◌ : OrderStatus → OrderStatus → Type 0 where
  diagnose : received ⟶ diagnosing
  ask : diagnosing ⟶ pending_authorization
  authorize : pending_authorization ⟶ authorized
  deny : pending_authorization ⟶ authorization_denied
  start : authorized ⟶ in_progress
  finish : in_progress ⟶ completed
  bill : completed ⟶ awaiting_payment
  pay : awaiting_payment ⟶ paid
  reject : awaiting_payment ⟶ payment_rejected
  try_again : payment_rejected ⟶ awaiting_payment
  deliver : paid ⟶ delivered
  cancel :
      {s : OrderStatus} → s ≢ delivered → s ≢ canceled → s ≢ authorization_denied → s ⟶ canceled

pub data ◌⟶*◌ : OrderStatus → OrderStatus → Type 0 where
  here : {s : OrderStatus} → s ⟶* s
  onward : {s t u : OrderStatus} → s ⟶ t → t ⟶* u → s ⟶* u

ruleset edges =
    (diagnose, ask, authorize, deny, start, finish, bill, pay, reject, try_again, deliver)

can_transition_to_sound : (s t : OrderStatus) → can_transition_to s t ≡ true → s ⟶ t
unfolding can_transition_to
can_transition_to_sound s t h = grind (arith, edges, cancel)

can_transition_to_complete : {s t : OrderStatus} → s ⟶ t → can_transition_to s t ≡ true
unfolding can_transition_to
can_transition_to_complete diagnose = refl
can_transition_to_complete (cancel d c a) = ground arith
can_transition_to_complete _ = refl

-- `CanTransitionTo` permits exactly the edges of the workflow diagram.
pub can_transition_to_iff : (s t : OrderStatus) → (can_transition_to s t ≡ true) ↔ (s ⟶ t)
can_transition_to_iff s t = (can_transition_to_sound s t, can_transition_to_complete)

next_status_sound :
    (s t : OrderStatus)
    → next_status s ≡ ok t
    → (s ⟶ t)
      × (t ≢ canceled)
      × (t ≢ authorization_denied)
      × (t ≢ payment_rejected)
      × (s ≢ payment_rejected)
unfolding next_status
next_status_sound s t h = grind (arith, edges)

next_status_complete :
    {s t : OrderStatus}
    → s ⟶ t
    → t ≢ canceled
    → t ≢ authorization_denied
    → t ≢ payment_rejected
    → s ≢ payment_rejected
    → next_status s ≡ ok t
unfolding next_status
next_status_complete deny c d r n = absurd (d refl)
next_status_complete reject c d r n = absurd (r refl)
next_status_complete try_again c d r n = absurd (n refl)
next_status_complete (cancel _ _ _) c d r n = absurd (c refl)
next_status_complete _ c d r n = refl

-- `NextStatus` proposes exactly the edges of the diagram that neither cancel, deny nor reject, but
-- for the one out of PAYMENT_REJECTED: there it proposes nothing.
next_status_iff :
    (s t : OrderStatus)
    → (next_status s ≡ ok t) ↔ (
        (s ⟶ t)
        × (t ≢ canceled)
        × (t ≢ authorization_denied)
        × (t ≢ payment_rejected)
        × (s ≢ payment_rejected))
next_status_iff s t = (next_status_sound s t, λ (e, c, d, r, n). next_status_complete e c d r n)

abbrev IsFinal : OrderStatus → Type 0
IsFinal s = (s ≡ delivered) ⊎ (s ≡ canceled) ⊎ (s ≡ authorization_denied)

-- A status is final exactly when no transition leads out of it; a misspelt status is not.
IsFinal-iff_stuck :
    (s : OrderStatus) → IsFinal s ↔ ((t : OrderStatus) → can_transition_to s t ≡ false)
unfolding can_transition_to
IsFinal-iff_stuck s = (λ f t. ground arith, λ stuck. ground (arith, stuck canceled))

-- Where an order can get by transitions that `CanTransitionTo` permits.
pub data CanReach : OrderStatus → OrderStatus → Type 0 where
  arrived : {s : OrderStatus} → CanReach s s
  by_way_of :
      {s u : OrderStatus} (t : OrderStatus)
      → can_transition_to s t ≡ true
      → CanReach t u
      → CanReach s u

stuck_canceled : (t : OrderStatus) → can_transition_to canceled t ≡ false
unfolding can_transition_to
stuck_canceled t = ground arith

stuck_denied : (t : OrderStatus) → can_transition_to authorization_denied t ≡ false
unfolding can_transition_to
stuck_denied t = ground arith

CanReach-lost :
    {s : OrderStatus} → CanReach s delivered → (s ≢ canceled) × (s ≢ authorization_denied)
CanReach-lost arrived = (λ h. cc, λ h. cc)
CanReach-lost {s} (by_way_of t permitted _) = (
  λ h.
      let no : can_transition_to canceled t ≡ true = rw h at permitted in
      let shut = stuck_canceled t in cc,
  λ h.
      let no : can_transition_to authorization_denied t ≡ true = rw h at permitted in
      let shut = stuck_denied t in cc,
)

ways :
    CanReach paid delivered
    × CanReach awaiting_payment delivered
    × CanReach payment_rejected delivered
    × CanReach completed delivered
    × CanReach in_progress delivered
    × CanReach authorized delivered
    × CanReach pending_authorization delivered
    × CanReach diagnosing delivered
    × CanReach received delivered
unfolding can_transition_to
ways =
    let from_paid : CanReach paid delivered = by_way_of delivered refl arrived in
    let from_awaiting : CanReach awaiting_payment delivered = by_way_of paid refl from_paid in
    let from_completed : CanReach completed delivered =
      by_way_of awaiting_payment refl from_awaiting in
    let from_progress : CanReach in_progress delivered = by_way_of completed refl from_completed in
    let from_authorized : CanReach authorized delivered =
      by_way_of in_progress refl from_progress in
    let from_pending : CanReach pending_authorization delivered =
      by_way_of authorized refl from_authorized in
    let from_diagnosing : CanReach diagnosing delivered =
      by_way_of pending_authorization refl from_pending in
    (
      from_paid,
      from_awaiting,
      by_way_of awaiting_payment refl from_awaiting,
      from_completed,
      from_progress,
      from_authorized,
      from_pending,
      from_diagnosing,
      by_way_of diagnosing refl from_diagnosing,
    )

reach_delivered :
    (s : OrderStatus)
    → is_valid s ≡ true
    → s ≢ canceled
    → s ≢ authorization_denied
    → CanReach s delivered
reach_delivered (unknown _) v c d = cc
reach_delivered canceled v c d = absurd (c refl)
reach_delivered authorization_denied v c d = absurd (d refl)
reach_delivered delivered v c d = arrived
reach_delivered _ v c d = let known = ways in search

-- The transitions that `CanTransitionTo` permits lead a valid status to DELIVERED, in some number of
-- steps, exactly when it is neither CANCELED nor AUTHORIZATION_DENIED.
pub CanReach-delivered :
    (s : OrderStatus)
    → is_valid s ≡ true
    → CanReach s delivered ↔ ((s ≢ canceled) × (s ≢ authorization_denied))
CanReach-delivered s v = (CanReach-lost, λ (c, d). reach_delivered s v c d)

-- How far a status is in the workflow.
abbrev pub rank : OrderStatus → ℕ
rank received = 0
rank diagnosing = 1
rank pending_authorization = 2
rank authorized = 3
rank in_progress = 4
rank completed = 5
rank payment_rejected = 6
rank awaiting_payment = 7
rank paid = 8
rank (unknown _) = 0
rank _ = 9

-- A permitted transition never leads back in the workflow, but for the loop of a rejected payment.
pub can_transition_to-rank :
    (s t : OrderStatus)
    → can_transition_to s t ≡ true
    → (rank s < rank t) ⊎ ((s ≡ awaiting_payment) × (t ≡ payment_rejected))
unfolding can_transition_to
can_transition_to-rank s t h = ground arith
