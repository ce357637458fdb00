-- ===== src/Domain/Status.antt =====
-- The order state machine of internal/domain/models.go.
pub mod Graph
use soa_hw.Prelude.{
  String, Bool, true, false, Option, none, some, List, [], ◌∷◌, str_eq, if◌then◌else◌,
}

-- `other` is any string that is not one of the constants.
pub data OrderStatus : Type 0 where
  created payment_pending paid shipped completed canceled : OrderStatus
  other : String → OrderStatus

-- `a == b` on the underlying strings.
unfoldable pub status_eq : OrderStatus → OrderStatus → Bool
status_eq created created = true
status_eq payment_pending payment_pending = true
status_eq paid paid = true
status_eq shipped shipped = true
status_eq completed completed = true
status_eq canceled canceled = true
status_eq (other s) (other t) = str_eq s t
status_eq _ _ = false

-- The map `ValidTransitions`, in the order of its text.
abbrev pub valid_transitions : List (OrderStatus × List OrderStatus)
valid_transitions =
    (created, payment_pending ∷ canceled ∷ [])
    ∷ (payment_pending, paid ∷ canceled ∷ [])
    ∷ (paid, shipped ∷ [])
    ∷ (shipped, completed ∷ [])
    ∷ (completed, [])
    ∷ (canceled, [])
    ∷ []

-- `validTargets, exists := ValidTransitions[s]`
lookup_targets : OrderStatus → List (OrderStatus × List OrderStatus) → Option (List OrderStatus)
lookup_targets s [] = none
lookup_targets s ((k, v) ∷ m) = if status_eq s k then some v else lookup_targets s m

has_target : OrderStatus → List OrderStatus → Bool
has_target target [] = false
has_target target (t ∷ ts) = if status_eq t target then true else has_target target ts

unfoldable pub can_transition_to : OrderStatus → OrderStatus → Bool
unfolding status_eq lookup_targets has_target
can_transition_to s target = elim (lookup_targets s valid_transitions) [
  | none ↦ false
  | some targets ↦ has_target target targets
]
