-- ===== src/Bookings/Lifecycle.antt =====
-- The life of a booking as a state machine, against `validate_status_transition`.
use bodhrik_fullstack_assess.Common.{
  ℕ, ◌≤◌, String, ◌≡◌, refl, ◌↔◌, ◌⊎◌, inl, inr, true, false, [], arith, ⊤, any,
}
use bodhrik_fullstack_assess.Models.{UserRole, BookingStatus, status_eq}
use bodhrik_fullstack_assess.Session.{Exception, Result, ok, err, http}
use bodhrik_fullstack_assess.Bookings.Operations.{is_terminal}
use bodhrik_fullstack_assess.Bookings.Transitions.{validate_status_transition, valid_transitions}

-- One arrow of the diagram: who may move a booking from which status to which.
pub data Move : UserRole → BookingStatus → BookingStatus → Type 0 where
  confirm_by_provider : Move UserRole.provider BookingStatus.pending BookingStatus.confirmed
  confirm_by_admin : Move UserRole.admin BookingStatus.pending BookingStatus.confirmed
  complete_by_provider : Move UserRole.provider BookingStatus.confirmed BookingStatus.completed
  complete_by_admin : Move UserRole.admin BookingStatus.confirmed BookingStatus.completed
  cancel_pending : (role : UserRole) → Move role BookingStatus.pending BookingStatus.cancelled
  cancel_confirmed : (role : UserRole) → Move role BookingStatus.confirmed BookingStatus.cancelled

-- A target is granted: an arrow, or the status that a live booking has already.
pub data Granted (role : UserRole) : BookingStatus → BookingStatus → Type 0 where
  move : {a b : BookingStatus} → Move role a b → Granted role a b
  stay_pending : Granted role BookingStatus.pending BookingStatus.pending
  stay_confirmed : Granted role BookingStatus.confirmed BookingStatus.confirmed

Granted-ok :
    {role : UserRole} {a b : BookingStatus}
    → Granted role a b
    → validate_status_transition a b role ≡ ok tt
unfolding validate_status_transition
Granted-ok stay_pending = refl
Granted-ok stay_confirmed = refl
Granted-ok (move confirm_by_provider) = refl
Granted-ok (move confirm_by_admin) = refl
Granted-ok (move complete_by_provider) = refl
Granted-ok (move complete_by_admin) = refl
Granted-ok (move (cancel_pending UserRole.admin)) = refl
Granted-ok (move (cancel_pending UserRole.provider)) = refl
Granted-ok (move (cancel_pending UserRole.customer)) = refl
Granted-ok (move (cancel_confirmed UserRole.admin)) = refl
Granted-ok (move (cancel_confirmed UserRole.provider)) = refl
Granted-ok (move (cancel_confirmed UserRole.customer)) = refl

ok-Granted :
    (a b : BookingStatus) (role : UserRole)
    → validate_status_transition a b role ≡ ok tt
    → Granted role a b
unfolding validate_status_transition
ok-Granted BookingStatus.pending BookingStatus.pending role e = stay_pending
ok-Granted BookingStatus.confirmed BookingStatus.confirmed role e = stay_confirmed
ok-Granted BookingStatus.pending BookingStatus.cancelled role e = move (cancel_pending role)
ok-Granted BookingStatus.confirmed BookingStatus.cancelled role e = move (cancel_confirmed role)
ok-Granted BookingStatus.pending BookingStatus.confirmed UserRole.provider e =
    move confirm_by_provider
ok-Granted BookingStatus.pending BookingStatus.confirmed UserRole.admin e = move confirm_by_admin
ok-Granted BookingStatus.confirmed BookingStatus.completed UserRole.provider e =
    move complete_by_provider
ok-Granted BookingStatus.confirmed BookingStatus.completed UserRole.admin e = move complete_by_admin
ok-Granted _ _ _ e = absurd (ground arith)

-- A transition passes validation exactly when it is an arrow of the diagram that the role may
-- take, or keeps the status of a pending or confirmed booking.
pub validate_status_transition_iff :
    (a b : BookingStatus) (role : UserRole)
    → (validate_status_transition a b role ≡ ok tt) ↔ Granted role a b
validate_status_transition_iff a b role = (ok-Granted a b role, Granted-ok)

-- The status code of a refusal: 403 if the diagram has the arrow for an administrator, who may
-- take every arrow, and 400 if it has none.
abbrev pub IsRefusal : UserRole → BookingStatus → BookingStatus → ℕ → Type 0
IsRefusal role a b status =
    ((status ≡ 403) × (role ≡ UserRole.customer) × Move UserRole.admin a b)
    ⊎ ((status ≡ 400) × ((r : UserRole) → ¬ Move r a b))

-- what VALID_TRANSITIONS holds is what the diagram draws
Move-valid :
    {role : UserRole} {a b : BookingStatus}
    → Move role a b
    → any (status_eq b) (valid_transitions a) ≡ true
Move-valid confirm_by_provider = refl
Move-valid confirm_by_admin = refl
Move-valid complete_by_provider = refl
Move-valid complete_by_admin = refl
Move-valid (cancel_pending r) = refl
Move-valid (cancel_confirmed r) = refl

no-Move :
    (a b : BookingStatus)
    → any (status_eq b) (valid_transitions a) ≡ false
    → (r : UserRole) → ¬ Move r a b
no-Move a b e r m = cc (e, Move-valid m)

abbrev Refusal : UserRole → BookingStatus → BookingStatus → Exception → Type 0
Refusal role a b e =
    (status : ℕ) × (detail : String) × (e ≡ http status detail []) × IsRefusal role a b status

refused :
    {role : UserRole} {a b : BookingStatus} {e : Exception} {status : ℕ} {detail : String}
    → ◌≡◌ {A = Result ⊤} (err (http status detail [])) (err e)
    → IsRefusal role a b status
    → Refusal role a b e
refused {status = status} {detail = detail} h r = (status, detail, cc, r)

-- A refused transition raises an HTTPException: 403 where the diagram has the arrow and the caller
-- is a customer, 400 where no role has the arrow.
pub validate_status_transition-Refusal :
    (a b : BookingStatus) (role : UserRole) {e : Exception}
    → validate_status_transition a b role ≡ err e
    → Refusal role a b e
unfolding validate_status_transition
validate_status_transition-Refusal BookingStatus.pending BookingStatus.confirmed UserRole.customer
      h =
    refused h (inl (refl, refl, confirm_by_admin))
validate_status_transition-Refusal BookingStatus.confirmed BookingStatus.completed UserRole.customer
      h =
    refused h (inl (refl, refl, complete_by_admin))
validate_status_transition-Refusal BookingStatus.cancelled BookingStatus.cancelled role h =
    refused h (inr (refl, no-Move BookingStatus.cancelled BookingStatus.cancelled refl))
validate_status_transition-Refusal BookingStatus.cancelled BookingStatus.completed role h =
    refused h (inr (refl, no-Move BookingStatus.cancelled BookingStatus.completed refl))
validate_status_transition-Refusal BookingStatus.cancelled BookingStatus.pending role h =
    refused h (inr (refl, no-Move BookingStatus.cancelled BookingStatus.pending refl))
validate_status_transition-Refusal BookingStatus.cancelled BookingStatus.confirmed role h =
    refused h (inr (refl, no-Move BookingStatus.cancelled BookingStatus.confirmed refl))
validate_status_transition-Refusal BookingStatus.completed BookingStatus.cancelled role h =
    refused h (inr (refl, no-Move BookingStatus.completed BookingStatus.cancelled refl))
validate_status_transition-Refusal BookingStatus.completed BookingStatus.completed role h =
    refused h (inr (refl, no-Move BookingStatus.completed BookingStatus.completed refl))
validate_status_transition-Refusal BookingStatus.completed BookingStatus.pending role h =
    refused h (inr (refl, no-Move BookingStatus.completed BookingStatus.pending refl))
validate_status_transition-Refusal BookingStatus.completed BookingStatus.confirmed role h =
    refused h (inr (refl, no-Move BookingStatus.completed BookingStatus.confirmed refl))
validate_status_transition-Refusal BookingStatus.pending BookingStatus.completed role h =
    refused h (inr (refl, no-Move BookingStatus.pending BookingStatus.completed refl))
validate_status_transition-Refusal BookingStatus.confirmed BookingStatus.pending role h =
    refused h (inr (refl, no-Move BookingStatus.confirmed BookingStatus.pending refl))
validate_status_transition-Refusal _ _ _ h = absurd (ground arith)

-- A history of granted moves, each by any role.
pub data Reach (a : BookingStatus) : BookingStatus → Type 0 where
  here : Reach a a
  next : {b c : BookingStatus} → Reach a b → (role : UserRole) → Granted role b c → Reach a c

Granted-terminal :
    {a b : BookingStatus} {role : UserRole} → Granted role a b → is_terminal a ≡ true → ⊥
Granted-terminal (move confirm_by_provider) t = cc
Granted-terminal (move confirm_by_admin) t = cc
Granted-terminal (move complete_by_provider) t = cc
Granted-terminal (move complete_by_admin) t = cc
Granted-terminal (move (cancel_pending r)) t = cc
Granted-terminal (move (cancel_confirmed r)) t = cc
Granted-terminal stay_pending t = cc
Granted-terminal stay_confirmed t = cc

-- A cancelled or completed booking stays as it is, whatever moves are granted to anyone.
pub Reach-terminal : {a b : BookingStatus} → is_terminal a ≡ true → Reach a b → a ≡ b
Reach-terminal t here = refl
Reach-terminal t (next r role g) = absurd (Granted-terminal g (rw (← Reach-terminal t r) t))

-- The statuses that a booking has left for good: it never returns to an earlier one.
abbrev rank : BookingStatus → ℕ
rank BookingStatus.pending = 0
rank BookingStatus.confirmed = 1
rank BookingStatus.completed = 2
rank BookingStatus.cancelled = 2

Granted-rank : {a b : BookingStatus} {role : UserRole} → Granted role a b → rank a ≤ rank b
Granted-rank (move confirm_by_provider) = omega arith
Granted-rank (move confirm_by_admin) = omega arith
Granted-rank (move complete_by_provider) = omega arith
Granted-rank (move complete_by_admin) = omega arith
Granted-rank (move (cancel_pending r)) = omega arith
Granted-rank (move (cancel_confirmed r)) = omega arith
Granted-rank stay_pending = omega arith
Granted-rank stay_confirmed = omega arith

-- Along a history the status moves forward only.
pub Reach-rank : {a b : BookingStatus} → Reach a b → rank a ≤ rank b
Reach-rank here = omega arith
Reach-rank (next r role g) = omega (arith, Reach-rank r, Granted-rank g)
