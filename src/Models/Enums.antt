-- ===== src/Models/Enums.antt =====
-- app/models/enums.py. Members are written behind their type, as in Python.
use bodhrik_fullstack_assess.Common.{Bool, true, false, String}

pub data UserRole : Type 0 where
  admin provider customer : UserRole

pub data BookingStatus : Type 0 where
  pending confirmed completed cancelled : BookingStatus

pub data NotificationType : Type 0 where
  booking_created booking_confirmed booking_cancelled : NotificationType
  booking_reminder booking_completed booking_overdue : NotificationType

-- `==` on the members
abbrev pub role_eq : UserRole → UserRole → Bool
role_eq UserRole.admin UserRole.admin = true
role_eq UserRole.provider UserRole.provider = true
role_eq UserRole.customer UserRole.customer = true
role_eq _ _ = false

abbrev pub status_eq : BookingStatus → BookingStatus → Bool
status_eq BookingStatus.pending BookingStatus.pending = true
status_eq BookingStatus.confirmed BookingStatus.confirmed = true
status_eq BookingStatus.completed BookingStatus.completed = true
status_eq BookingStatus.cancelled BookingStatus.cancelled = true
status_eq _ _ = false

abbrev pub type_eq : NotificationType → NotificationType → Bool
type_eq NotificationType.booking_created NotificationType.booking_created = true
type_eq NotificationType.booking_confirmed NotificationType.booking_confirmed = true
type_eq NotificationType.booking_cancelled NotificationType.booking_cancelled = true
type_eq NotificationType.booking_reminder NotificationType.booking_reminder = true
type_eq NotificationType.booking_completed NotificationType.booking_completed = true
type_eq NotificationType.booking_overdue NotificationType.booking_overdue = true
type_eq _ _ = false

-- `.value` of a status
abbrev pub status_value : BookingStatus → String
status_value BookingStatus.pending = "pending"
status_value BookingStatus.confirmed = "confirmed"
status_value BookingStatus.completed = "completed"
status_value BookingStatus.cancelled = "cancelled"
