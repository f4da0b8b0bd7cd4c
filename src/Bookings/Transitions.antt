-- ===== src/Bookings/Transitions.antt =====
-- `VALID_TRANSITIONS`, `ROLE_ALLOWED_TRANSITIONS` and `validate_status_transition`.
use bodhrik_fullstack_assess.Common.{
  String, not, ◌&&◌, ◌||◌, List, [], ◌∷◌, ◌<>◌, ⊤, if◌then◌else◌, any,
}
use bodhrik_fullstack_assess.Models.{UserRole, BookingStatus, role_eq, status_eq, status_value}
use bodhrik_fullstack_assess.Session.{Result, ok, err, http}

abbrev pub valid_transitions : BookingStatus → List BookingStatus
valid_transitions BookingStatus.pending = BookingStatus.confirmed ∷ BookingStatus.cancelled ∷ []
valid_transitions BookingStatus.confirmed = BookingStatus.completed ∷ BookingStatus.cancelled ∷ []
valid_transitions BookingStatus.completed = []
valid_transitions BookingStatus.cancelled = []

-- `.get((current, target), set())`
abbrev pub role_allowed_transitions : BookingStatus → BookingStatus → List UserRole
role_allowed_transitions BookingStatus.pending BookingStatus.confirmed =
    UserRole.provider ∷ UserRole.admin ∷ []
role_allowed_transitions BookingStatus.pending BookingStatus.cancelled =
    UserRole.customer ∷ UserRole.provider ∷ UserRole.admin ∷ []
role_allowed_transitions BookingStatus.confirmed BookingStatus.completed =
    UserRole.provider ∷ UserRole.admin ∷ []
role_allowed_transitions BookingStatus.confirmed BookingStatus.cancelled =
    UserRole.customer ∷ UserRole.provider ∷ UserRole.admin ∷ []
role_allowed_transitions _ _ = []

abbrev bad_request : String → Result ⊤
bad_request detail = err (http 400 detail [])

abbrev forbidden : String → Result ⊤
forbidden detail = err (http 403 detail [])

-- the role test at the end
check_role : BookingStatus → BookingStatus → UserRole → Result ⊤
check_role current target role =
    if any (role_eq role) (role_allowed_transitions current target)
    then ok tt
    else if role_eq role UserRole.customer
        && (status_eq target BookingStatus.confirmed || status_eq target BookingStatus.completed)
    then forbidden "Customers are not permitted to confirm or complete bookings"
    else forbidden "Insufficient permissions to execute this status transition"

unfoldable pub validate_status_transition : BookingStatus → BookingStatus → UserRole → Result ⊤
unfolding check_role
validate_status_transition current target role =
    if status_eq current BookingStatus.cancelled
    then (if status_eq target BookingStatus.cancelled
        then bad_request "Booking is already cancelled"
        else bad_request "Cannot modify a cancelled booking")
    else if status_eq current BookingStatus.completed
    then (if status_eq target BookingStatus.cancelled
        then bad_request "Cannot cancel an already completed booking"
        else bad_request "Cannot modify a completed booking")
    else if status_eq target current
    then ok tt
    else if not (any (status_eq target) (valid_transitions current))
    then bad_request (
        "Cannot transition booking status from '"
        <> status_value current
        <> "' to '"
        <> status_value target
        <> "'")
    else check_role current target role
