-- ===== src/Tests/Data.antt =====
-- A small database: an administrator, a provider, two customers and four bookings.
use bodhrik_fullstack_assess.Common.{ℕ, true, some, [], ◌∷◌, ◌+◌}
use bodhrik_fullstack_assess.Models.{UserRole, BookingStatus, User, Booking, Review, Database}
use bodhrik_fullstack_assess.Session.{Session, Environment, open_session}

abbrev pub person : ℕ → UserRole → User
person id role = record {
  id = id;
  name = "Name";
  email = "name@example.com";
  role = role;
  password_hash = "hash";
  created_at = 0;
  updated_at = 0;
}

abbrev pub admin : User
admin = person 1 UserRole.admin

abbrev pub provider : User
provider = person 2 UserRole.provider

abbrev pub customer : User
customer = person 3 UserRole.customer

abbrev pub stranger : User
stranger = person 4 UserRole.customer

abbrev pub slot : ℕ → ℕ → ℕ → BookingStatus → Booking
slot id start_time end_time status = record {
  id = id;
  customer_id = 3;
  provider_id = 2;
  service_name = "Repair";
  start_time = start_time;
  end_time = end_time;
  status = status;
  created_at = 0;
  updated_at = 0;
}

abbrev pub waiting : Booking
waiting = slot 10 100 200 BookingStatus.pending

abbrev pub agreed : Booking
agreed = slot 11 300 400 BookingStatus.confirmed

abbrev pub over : Booking
over = slot 12 500 600 BookingStatus.completed

abbrev pub rated : Booking
rated = slot 13 700 800 BookingStatus.completed

abbrev pub opinion : Review
opinion = record {
  id = 20;
  booking_id = 13;
  customer_id = 3;
  provider_id = 2;
  rating = 4;
  comment = some "Good";
  created_at = 0;
  updated_at = 0;
}

abbrev pub db : Database
db = record {
  users = admin ∷ provider ∷ customer ∷ stranger ∷ [];
  bookings = waiting ∷ agreed ∷ over ∷ rated ∷ [];
  reviews = opinion ∷ [];
  notifications = [];
}

abbrev pub env : Environment
env = record { online = true; now = 1000; uuid = λ n. 50 + n }

abbrev pub s : Session
s = open_session env db
