-- ===== src/Providers.antt =====
-- app/services/provider_service.py.
pub mod Listing
use bodhrik_fullstack_assess.Common.{
  ℕ, zero, suc, ◌+◌, ◌-◌, ◌*◌, ◌/◌, ◌≤◌, ◌<◌, String, ◌≡◌, refl, sym, ap, ◌∙◌, subst, ◌≢◌, ◌↔◌, ◌⊎◌,
  inl, inr, Bool, true, false, not, ◌&&◌, ◌||◌, Option, none, some, List, [], ◌∷◌, ◌++◌, map, arith,
  str_eq, eq_iff, ◌<>◌, ⊤, ltb, leb, ◌==◌, if◌then◌else◌, ==_iff, Bool-cases, Option-cases, is_some,
  or_default, length, take, drop, any, length-append, any-append, length-take-le, All, All-append,
}
use bodhrik_fullstack_assess.Common.Table.{
  select, first, update_where, delete_where, order_by, page, All-select, first-test, first-any,
  All-page,
}
use bodhrik_fullstack_assess.Models.{
  UserRole, BookingStatus, NotificationType, role_eq, status_eq, type_eq, status_value, User,
  Booking, Review, Notification, Database,
}
use bodhrik_fullstack_assess.Session.{
  Session, Exception, Result, ok, err, http, integrity, operational, Action, pure, raise,
  http_error, query, ◌>>=◌, ◌>>◌, raise_if, or_raise, lift, on_error, find_user, find_booking,
  find_review, find_notification, uuid4, clock, set_booking, add_booking, insert_booking,
  flush_booking, refreshed_booking, booking_changed, insert_review, flush_review, refreshed_review,
  insert_or_ignore, execute, commit, rollback, Environment, open_session, serve,
}

-- What `list_providers` takes from elsewhere: `str.strip`, PostgreSQL's ILIKE of a value and a
-- pattern, and its order of names.
pub record Matching : Type 0 where
  pub strip : String → String
  pub ilike : String → String → Bool
  pub name_before : String → String → Bool

module _ (matching : Matching) where
  abbrev pub matches_search : Option String → User → Bool
  matches_search none user = true
  matches_search (some search) user =
      let search_pattern = "%" <> matching.strip search <> "%" in
      str_eq (matching.strip search) ""
      || (matching.ilike user.name search_pattern || matching.ilike user.email search_pattern)

  -- ORDER BY name ASC, id ASC
  abbrev pub by_name : User → User → Bool
  by_name u v = matching.name_before u.name v.name || (str_eq u.name v.name && ltb u.id v.id)

  unfoldable pub list_providers : Option String → ℕ → ℕ → Action (List User)
  list_providers search skip limit = query (λ db. page skip limit (
      order_by by_name
        (select (λ u. role_eq u.role UserRole.provider && matches_search search u) db.users)))

-- `is_provider_available`'s WHERE. Times are instants: `start` and `end` bound the requested slot.
abbrev pub not_excluded : Option ℕ → Booking → Bool
not_excluded none b = true
not_excluded (some k) b = not (b.id == k)

abbrev pub conflicts : ℕ → ℕ → ℕ → Option ℕ → Booking → Bool
conflicts provider_id start_time end_time exclude b =
    b.provider_id == provider_id
    && (not (status_eq b.status BookingStatus.cancelled)
        && (ltb b.start_time end_time && (ltb start_time b.end_time && not_excluded exclude b)))

unfoldable pub is_provider_available : ℕ → ℕ → ℕ → Option ℕ → Action Bool
is_provider_available provider_id start_time end_time exclude =
    query (λ db. not (any (conflicts provider_id start_time end_time exclude) db.bookings))

unfoldable pub get_provider_by_id : ℕ → Action User
get_provider_by_id provider_id = do
  found ← query (find_user provider_id)
  user ← or_raise found 404 "Provider not found"
  raise_if (not (role_eq user.role UserRole.provider)) 400
      "Selected user is not registered as a service provider"
  pure user

pub record ProviderAvailabilityResponse : Type 0 where
  pub provider_id : ℕ
  pub start_time : ℕ
  pub end_time : ℕ
  pub available : Bool

unfoldable pub check_provider_availability : ℕ → ℕ → ℕ → Action ProviderAvailabilityResponse
check_provider_availability provider_id start_time end_time = do
  get_provider_by_id provider_id
  available ← is_provider_available provider_id start_time end_time none
  pure (record {
    provider_id = provider_id;
    start_time = start_time;
    end_time = end_time;
    available = available;
  })
