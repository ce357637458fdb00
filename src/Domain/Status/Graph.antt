-- ===== src/Domain/Status/Graph.antt =====
-- The transition test against the diagram of README.md, and the histories that it allows.
use soa_hw.Prelude.{ℕ, ◌≤◌, ◌<◌, ◌≡◌, refl, ◌↔◌, ◌⊎◌, true, arith}
use soa_hw.Domain.Status.{
  OrderStatus, created, payment_pending, paid, shipped, completed, canceled, other,
  can_transition_to,
}

-- The arrows of the diagram.
infix 40 ◌⟶◌ ◌⟶*◌
pub data ◌⟶◌ : OrderStatus → OrderStatus → Type 0 where
  initiate_payment : created ⟶ payment_pending
  cancel_created : created ⟶ canceled
  confirm_payment : payment_pending ⟶ paid
  cancel_pending : payment_pending ⟶ canceled
  ship : paid ⟶ shipped
  deliver : shipped ⟶ completed

-- A history of an order: any number of transitions that the code allows.
pub data ◌⟶*◌ : OrderStatus → OrderStatus → Type 0 where
  here : {s : OrderStatus} → s ⟶* s
  next : {s t u : OrderStatus} → can_transition_to s t ≡ true → t ⟶* u → s ⟶* u

ruleset edges = (initiate_payment, cancel_created, confirm_payment, cancel_pending, ship, deliver)

can_transition_to→edge : (s t : OrderStatus) → can_transition_to s t ≡ true → s ⟶ t
unfolding can_transition_to
can_transition_to→edge s t h = grind (arith, edges)

edge→can_transition_to : {s t : OrderStatus} → s ⟶ t → can_transition_to s t ≡ true
unfolding can_transition_to
edge→can_transition_to initiate_payment = refl
edge→can_transition_to cancel_created = refl
edge→can_transition_to confirm_payment = refl
edge→can_transition_to cancel_pending = refl
edge→can_transition_to ship = refl
edge→can_transition_to deliver = refl

-- The code allows a transition exactly when the diagram has the arrow, for every pair of statuses,
-- those outside the six constants included.
pub can_transition_to_iff : (s t : OrderStatus) → (can_transition_to s t ≡ true) ↔ (s ⟶ t)
can_transition_to_iff s t = (can_transition_to→edge s t, edge→can_transition_to)

abbrev stage : OrderStatus → ℕ
stage created = 0
stage payment_pending = 1
stage paid = 2
stage shipped = 3
stage completed = 4
stage canceled = 4
stage (other s) = 5

stage-edge : {s t : OrderStatus} → s ⟶ t → stage s < stage t
stage-edge initiate_payment = omega arith
stage-edge cancel_created = omega arith
stage-edge confirm_payment = omega arith
stage-edge cancel_pending = omega arith
stage-edge ship = omega arith
stage-edge deliver = omega arith

stage-le : {s t : OrderStatus} → s ⟶* t → stage s ≤ stage t
stage-le here = omega arith
stage-le (next {s = s} {t = t} h r) =
    omega (arith, stage-edge (can_transition_to→edge s t h), stage-le r)

-- No history that makes a transition comes back to the status that it left.
pub no_return : (s t : OrderStatus) → can_transition_to s t ≡ true → ¬ (t ⟶* s)
no_return s t h r = absurd (omega (arith, stage-edge (can_transition_to→edge s t h), stage-le r))

-- Paid, shipped and completed orders.
abbrev pub IsPaidFor : OrderStatus → Type 0
IsPaidFor s = (s ≡ paid) ⊎ (s ≡ shipped) ⊎ (s ≡ completed)

paid_step : (s t : OrderStatus) → can_transition_to s t ≡ true → IsPaidFor s → IsPaidFor t
unfolding can_transition_to
paid_step s t h p = ground arith

-- An order that has been paid for is never canceled later: every status in its further history is
-- paid, shipped or completed.
pub paid_never_canceled : {s t : OrderStatus} → IsPaidFor s → s ⟶* t → IsPaidFor t
paid_never_canceled p here = p
paid_never_canceled p (next {s = s} {t = t} h r) = paid_never_canceled (paid_step s t h p) r
