-- ===== src/Api/Availability.antt =====
-- The availability route of app/api/v1/providers.py, and what its answer is worth.
use bodhrik_fullstack_assess.Common.{
  ℕ, String, ◌≡◌, inl, inr, Bool, true, false, not, none, some, arith, leb, ◌==◌, Option-cases, any,
}
use bodhrik_fullstack_assess.Models.{UserRole, role_eq, User}
use bodhrik_fullstack_assess.Session.{Session, ok, Action, ◌>>◌, raise_if, find_user}
use bodhrik_fullstack_assess.Providers.{
  is_provider_available, conflicts, get_provider_by_id, check_provider_availability,
  ProviderAvailabilityResponse,
}
use bodhrik_fullstack_assess.Bookings.Operations.{admit_booking, check_provider_conflict}

-- a datetime of a request: the instant, and whether it has a time zone
pub record Datetime : Type 0 where
  pub instant : ℕ
  pub aware : Bool

unfoldable pub availability_route : ℕ → Datetime → Datetime → Action ProviderAvailabilityResponse
availability_route provider_id start_time end_time = do
  raise_if (not start_time.aware) 422 "start_time must be timezone-aware"
  raise_if (not end_time.aware) 422 "end_time must be timezone-aware"
  raise_if (leb end_time.instant start_time.instant) 422 "end_time must be after start_time"
  check_provider_availability provider_id start_time.instant end_time.instant

availability_route_free :
    (p : ℕ) (st en : Datetime) (s : Session) (reply : ProviderAvailabilityResponse)
    → (availability_route p st en s).0 ≡ ok reply
    → reply.available ≡ true
    → (u : User) × (find_user p s.working ≡ some u)
      × (role_eq u.role UserRole.provider ≡ true)
      × (any (conflicts p st.instant en.instant none) s.working.bookings ≡ false)
unfolding availability_route check_provider_availability get_provider_by_id is_provider_available
availability_route_free p st en s reply h free = elim (Option-cases (find_user p s.working)) [
  | inl e ↦ absurd (ground arith)
  | inr (u, e) ↦ (u, e, ground arith, ground arith)
]

-- What the route calls available can be booked: in the same session the guards of `create_booking`
-- let every user other than the provider take the slot.
pub availability_route_admits :
    (p c : ℕ) (name : String) (st en : Datetime) (s : Session)
    (reply : ProviderAvailabilityResponse)
    → (availability_route p st en s).0 ≡ ok reply
    → reply.available ≡ true
    → (c == p) ≡ false
    → admit_booking c
        (record {
          provider_id = p;
          service_name = name;
          start_time = st.instant;
          end_time = en.instant;
        })
        s
      ≡ (ok tt, s)
unfolding is_provider_available admit_booking check_provider_conflict
availability_route_admits p c name st en s reply h free other =
    let (u, found, role, empty) = availability_route_free p st en s reply h free in
    ground (arith, found, role, empty)
