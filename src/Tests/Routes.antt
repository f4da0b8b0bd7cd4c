-- ===== src/Tests/Routes.antt =====
-- The routes, from a token to the database.
use bodhrik_fullstack_assess.Common.{◌+◌, ◌≡◌, refl, true, false, none, some, List, [], ◌∷◌, arith}
use bodhrik_fullstack_assess.Models.{Database, UserRole}
use bodhrik_fullstack_assess.Models.Constraints.{user_violation}
use bodhrik_fullstack_assess.Session.{
  Session, Environment, Exception, http, ok, err, open_session, serve,
}
use bodhrik_fullstack_assess.Auth.{
  get_current_user, token_user, register_user, get_user_by_email, persist_user,
}
use bodhrik_fullstack_assess.Bookings.Schedule.{clash, IsScheduled}
use bodhrik_fullstack_assess.Schemas.Bodies.{
  BookingCreateBody, UserRegisterBody, validate_user_register,
}
use bodhrik_fullstack_assess.Routes.Reply.{App, UserResponse, profile, status_code}
use bodhrik_fullstack_assess.Routes.Accounts.{register_route}
use bodhrik_fullstack_assess.Routes.Bookings.{create_booking_route}
use bodhrik_fullstack_assess.Routes.Dispatch.{Reading, Writing, Request, handle}
use bodhrik_fullstack_assess.Routes.Guarded.{IsChallenge, handle_unauthenticated}
use bodhrik_fullstack_assess.Routes.Reads.{handle_reading}
use bodhrik_fullstack_assess.Routes.Answers.{caller_status, create_booking_route_status}
use bodhrik_fullstack_assess.Routes.Consistent.Users.{HasUniqueUsers}
use bodhrik_fullstack_assess.Routes.Consistent.Invariant.{IsConsistent}
use bodhrik_fullstack_assess.Routes.Consistent.Events.{Event, happen_all, happen_all-IsConsistent}
use bodhrik_fullstack_assess.Routes.Journey.{Shown, register_login_me}
use bodhrik_fullstack_assess.Summary.Redis.{Redis}
use bodhrik_fullstack_assess.Summary.Service.{new_job}
use bodhrik_fullstack_assess.Routes.Summaries.{
  trigger_review_summary_route, get_review_summary_job_route, trigger_then_get,
}
use bodhrik_fullstack_assess.Tests.Data.{db, env, provider, customer}
use bodhrik_fullstack_assess.Tests.Auth.{lib, decodes, reads}
use bodhrik_fullstack_assess.Tests.Providers.{matching}
use bodhrik_fullstack_assess.Tests.Reviews.{reviewed, rounding}
use bodhrik_fullstack_assess.Tests.Schemas.{messages}

abbrev app : App
app = record {
  library = lib;
  messages = messages;
  matching = matching;
  rounding = rounding;
  expire_minutes = 60;
}

-- the database of Data, where each user has an email of their own
abbrev shop : Database
shop = record db {
  users =
      record provider { email = "provider@example.com" }
      ∷ record customer { email = "customer@example.com" }
      ∷ [];
}

accounts : HasUniqueUsers shop.users
accounts = record { ids = (refl, (refl, tt)); emails = (refl, (refl, tt)) }

shop-IsScheduled : IsScheduled shop
unfolding clash
shop-IsScheduled = record {
  unique = (refl, (refl, (refl, (refl, tt))));
  separate = (refl, (refl, (refl, (refl, tt))));
}

consistent : IsConsistent shop
consistent = record {
  scheduled = shop-IsScheduled;
  proper = (
    (omega arith, refl),
    ((omega arith, refl), ((omega arith, refl), ((omega arith, refl), tt))),
  );
  served = λ k b found. ground arith;
  reviewed = reviewed;
  backed = (
    record { booking = _; found = refl; done = refl; by_customer = refl; of_provider = refl },
    tt,
  );
  tidy = record { unique = tt; apart = tt };
  accounts = accounts;
}

abbrev form : UserRegisterBody
form = record { name = "New"; email = "new@example.com"; password = "password" }

abbrev wish : BookingCreateBody
wish = record {
  provider_id = 2;
  service_name = "Repair";
  start_time = record { instant = 200; aware = true };
  end_time = record { instant = 300; aware = true };
}

abbrev later : Environment
later = record env { now = 2000; uuid = λ n. 60 + n }

-- A registration, a booking by the new user, and a turn of the jobs.
abbrev events : List Event
events =
    Event.request env (Request.register 0 form)
    ∷ Event.request later (Request.write (some "token") (Writing.create_booking wish))
    ∷ Event.turn (record later { uuid = λ n. 70 + n }) (record later { uuid = λ n. 80 + n })
    ∷ []

happen_all-IsConsistent_example :
    IsConsistent (happen_all app (λ t. "2026-01-01T00:00:00+00:00") 60 events shop)
happen_all-IsConsistent_example =
    happen_all-IsConsistent app (λ t. "2026-01-01T00:00:00+00:00") 60 events shop consistent

abbrev no_token : Exception
no_token =
    http 401 "Authentication credentials were not provided" (("WWW-Authenticate", "Bearer") ∷ [])

handle_unauthenticated_example :
    (handle app (Request.write none (Writing.create_booking wish)) (open_session env shop)
      ≡ (err no_token, open_session env shop))
    × IsChallenge no_token
unfolding get_current_user
handle_unauthenticated_example =
    handle_unauthenticated app none (Request.write none (Writing.create_booking wish))
      (open_session env shop) refl refl

handle_reading_example :
    (serve env
      (handle app (Request.read (some "token") (Reading.get_booking 10)))
      (record shop { users = record customer { id = 50 } ∷ [] })).1
    ≡ record shop { users = record customer { id = 50 } ∷ [] }
handle_reading_example =
    handle_reading app env (Request.read (some "token") (Reading.get_booking 10))
      (record shop { users = record customer { id = 50 } ∷ [] }) refl

create_booking_route_status_example :
    let caller_db = record shop { users = record customer { id = 50 } ∷ shop.users } in
    let s = open_session env caller_db in
    status_code (λ n. "422") (create_booking_route app (some "token") wish s).0
    ≡ caller_status app (λ n. "422") (get_current_user lib (some "token") s).0 wish caller_db
create_booking_route_status_example =
    create_booking_route_status app (λ n. "422") (some "token") wish env
      (record shop { users = record customer { id = 50 } ∷ shop.users })
      (record { booking = refl; notification = refl }) refl

-- what the registration replies
abbrev new_profile : UserResponse
new_profile = record {
  id = 50;
  name = "New";
  email = "new@example.com";
  role = UserRole.customer;
  created_at = 1000;
  updated_at = 1000;
}

register_login_me_example :
    let db' = (serve env (register_route app 0 form) shop).1 in
    Shown app 0 env env (record env { now = 5000 }) shop form (profile new_profile) db'
unfolding serve register_route register_user get_user_by_email persist_user user_violation
    validate_user_register
register_login_me_example =
    register_login_me app 0 env env (record env { now = 5000 }) shop form new_profile accounts refl
      refl refl decodes reads (omega arith) (omega arith) refl

-- the caller who asks for a summary, and a Redis that answers
abbrev asking : Session
asking = open_session env (record shop { users = record customer { id = 50 } ∷ shop.users })

abbrev redis : Redis
redis = record { jobs = []; queue = []; fails = λ n. false; calls = 0 }

trigger_then_get_example :
    let (answer, r₁) = trigger_review_summary_route lib (some "token") 70 2 asking redis in
    let reply = new_job 70 1000 2 in
    (answer ≡ ok (record { status_code = 202; job = reply }))
    × ((get_review_summary_job_route lib (some "token") 70 asking r₁).0
        ≡ ok (record { status_code = 200; job = reply }))
unfolding get_current_user token_user
trigger_then_get_example =
    trigger_then_get lib (some "token") (some "token") 70 asking asking redis
      (record customer { id = 50 }) (record customer { id = 50 })
      (record provider { email = "provider@example.com" }) refl refl refl refl (λ n. refl)
      (omega arith)
