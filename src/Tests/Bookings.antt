-- ===== src/Tests/Bookings.antt =====
-- Bookings: creation, changes and schedules.
use bodhrik_fullstack_assess.Common.{
  ◌+◌, ◌≤◌, ◌≡◌, refl, ◌⊎◌, true, false, none, some, List, [], ◌∷◌, ◌++◌, arith, length, any, All,
}
use bodhrik_fullstack_assess.Models.{
  UserRole, BookingStatus, NotificationType, role_eq, User, Booking,
}
use bodhrik_fullstack_assess.Session.{
  Exception, ok, http, integrity, operational, find_user, Environment,
}
use bodhrik_fullstack_assess.Models.Constraints.{
  Constraint, booking_violation, notification_violation,
}
use bodhrik_fullstack_assess.Notifications.{create_notification}
use bodhrik_fullstack_assess.Providers.{is_provider_available, conflicts}
use bodhrik_fullstack_assess.Bookings.Transitions.{validate_status_transition}
use bodhrik_fullstack_assess.Bookings.Operations.{
  BookingCreate, BookingUpdate, new_booking, has_status, check_provider_conflict, admit_booking,
  persist_booking, create_booking, get_booking_by_id, list_bookings, apply_status, apply_schedule,
  save_booking, update_booking, open_for_update, write_update,
}
use bodhrik_fullstack_assess.Tests.Data.{admin, provider, customer, waiting, db, env, s}
use bodhrik_fullstack_assess.Bookings.Schedule.{IsScheduled, clash}
use bodhrik_fullstack_assess.Bookings.Keeps.{Request}
use bodhrik_fullstack_assess.Bookings.Race.{
  Call, System, IsPossible, IsRival, row_of, create_booking_race, idle,
}
use bodhrik_fullstack_assess.Bookings.Race
use bodhrik_fullstack_assess.Bookings.Create.{
  Refused, create_booking_errors, create_booking_created,
}
use bodhrik_fullstack_assess.Bookings.Update.{Updated, update_booking_effect}
use bodhrik_fullstack_assess.Bookings.Access.{list_bookings_get}
use bodhrik_fullstack_assess.Notifications.Create.{is_told}

scheduled : IsScheduled db
unfolding clash
scheduled = record {
  unique = (refl, (refl, (refl, (refl, tt))));
  separate = (refl, (refl, (refl, (refl, tt))));
}

abbrev wish : BookingCreate
wish = record { provider_id = 2; service_name = "Repair"; start_time = 200; end_time = 300 }

abbrev confirmation : BookingUpdate
confirmation = record {
  service_name = some "Painting";
  start_time = none;
  end_time = some 250;
  status = some BookingStatus.confirmed;
}

abbrev requests : List (Environment × User × Request)
requests =
    (env, customer, Request.create wish)
    ∷ (env, provider, Request.update 10 confirmation)
    ∷ (env, admin, Request.cancel 11)
    ∷ []

abbrev confirmed_row : Booking
confirmed_row = record waiting {
  service_name = "Painting";
  end_time = 250;
  status = BookingStatus.confirmed;
  updated_at = 1000;
}

update_booking_effect_example :
    Updated 10 provider confirmed_row s (update_booking 10 confirmation provider s).1
unfolding update_booking open_for_update write_update apply_status validate_status_transition
    create_notification apply_schedule check_provider_conflict is_provider_available save_booking
    notification_violation
update_booking_effect_example = update_booking_effect 10 confirmation provider s refl

abbrev new_row : Booking
new_row = new_booking 50 1000 4 wish

create_booking_created_example :
    let db' = (create_booking 4 wish s).1.committed in
    (new_row ≡ record {
      id = 50;
      customer_id = 4;
      provider_id = 2;
      service_name = "Repair";
      start_time = 200;
      end_time = 300;
      status = BookingStatus.pending;
      created_at = 1000;
      updated_at = 1000;
    })
    × (db'.bookings ≡ s.working.bookings ++ new_row ∷ [])
    × ((u : User) × (find_user 2 s.working ≡ some u) × (role_eq u.role UserRole.provider ≡ true))
    × (any (conflicts 2 200 300 none) s.working.bookings ≡ false)
    × (is_told 2 50 NotificationType.booking_created db'.notifications ≡ true)
unfolding create_booking admit_booking persist_booking create_notification check_provider_conflict
    is_provider_available booking_violation notification_violation
create_booking_created_example = create_booking_created 4 wish s {row = new_row} refl

abbrev taken : BookingCreate
taken = record wish { start_time = 150 }

abbrev conflict : Exception
conflict = http 409 "Provider has an overlapping booking for the requested time slot" []

create_booking_errors_example :
    Refused 4 taken db conflict
    ⊎ (conflict ≡ integrity Constraint.primary_key)
    ⊎ ((conflict ≡ operational) × (true ≡ false))
unfolding create_booking admit_booking check_provider_conflict is_provider_available
create_booking_errors_example =
    create_booking_errors 4 taken s {e = conflict} refl (omega arith) refl

abbrev first_call : Call
first_call = record { env = env; customer_id = 3; booking_in = wish }

abbrev second_call : Call
second_call = record {
  env = record env { uuid = λ n. 60 + n };
  customer_id = 4;
  booking_in = record wish { start_time = 250 };
}

first-IsPossible : IsPossible db first_call
unfolding admit_booking check_provider_conflict is_provider_available
first-IsPossible = record {
  admitted = refl;
  online = refl;
  customer = refl;
  ordered = omega arith;
  fresh = record { booking = refl; notification = refl };
}

second-IsPossible : IsPossible db second_call
unfolding admit_booking check_provider_conflict is_provider_available
second-IsPossible = record {
  admitted = refl;
  online = refl;
  customer = refl;
  ordered = omega arith;
  fresh = record { booking = refl; notification = refl };
}

rivals : IsRival first_call second_call
rivals = record {
  booking_id = refl;
  notification_id = refl;
  provider = refl;
  overlap = (omega arith, omega arith);
}

create_booking_race_example :
    (t : System) × Race.Reach (idle db) t
    × (t.database.bookings ≡ (db.bookings ++ row_of first_call ∷ []) ++ row_of second_call ∷ [])
    × (t.admitted ≡ [])
    × (¬ IsScheduled t.database)
create_booking_race_example =
    create_booking_race db first_call second_call first-IsPossible second-IsPossible rivals

list_bookings_get_example :
    (bs : List Booking) × (list_bookings customer (some BookingStatus.pending) 0 20 s ≡ (ok bs, s))
    × All
        (λ b.
          (has_status (some BookingStatus.pending) b ≡ true)
          × (get_booking_by_id b.id customer s ≡ (ok b, s)))
        bs
    × (length bs ≤ 20)
list_bookings_get_example =
    list_bookings_get customer (some BookingStatus.pending) 0 20 s scheduled.unique
