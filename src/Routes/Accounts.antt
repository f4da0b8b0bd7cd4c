-- ===== src/Routes/Accounts.antt =====
-- app/api/v1/auth.py and app/api/v1/providers.py. FastAPI resolves `get_current_user` before it
-- reads the query and the body.
use bodhrik_fullstack_assess.Common.{ℕ, String, Option, [], ◌∷◌, ◌++◌, map}
use bodhrik_fullstack_assess.Session.{Action, ◌>>◌}
use bodhrik_fullstack_assess.Auth.{register_user, login, get_current_user}
use bodhrik_fullstack_assess.Providers.{list_providers, get_provider_by_id}
use bodhrik_fullstack_assess.Reviews.{get_provider_review_summary}
use bodhrik_fullstack_assess.Api.Availability.{Datetime, availability_route}
use bodhrik_fullstack_assess.Schemas.Fields.{Validated, valid, invalid, optional_length_error}
use bodhrik_fullstack_assess.Schemas.Bodies.{
  UserRegisterBody, UserLoginBody, PageQuery, Page, validate_user_register, validate_user_login,
  validate_page,
}
use bodhrik_fullstack_assess.Routes.Reply.{
  App, user_response, access, profile, profiles, availability, review_summary, Outcome, given,
  returns,
}

-- `search` with the page of its query
abbrev pub with_search : App → Option String → Validated Page → Validated Page
with_search app term page =
    elim (optional_length_error app.messages ("query" ∷ "search" ∷ []) 0 100 term) [
      | [] ↦ page
      | e ∷ es ↦ elim page [
        | valid p ↦ invalid (e ∷ es)
        | invalid later ↦ invalid ((e ∷ es) ++ later)
      ]
    ]

module _ (app : App) where
  unfoldable pub register_route : ℕ → UserRegisterBody → Action Outcome
  register_route salt body =
      given (validate_user_register app.messages app.library.normalize body) λ user_in.
        returns 201 (λ u. profile (user_response u)) (register_user app.library salt user_in)

  unfoldable pub login_route : UserLoginBody → Action Outcome
  login_route body =
      given (validate_user_login app.messages app.library.normalize body)
        λ credentials. returns 200 access (login app.library app.expire_minutes credentials)

  unfoldable pub get_me_route : Option String → Action Outcome
  get_me_route token =
      returns 200 (λ u. profile (user_response u)) (get_current_user app.library token)

  unfoldable pub list_providers_route : Option String → Option String → PageQuery → Action Outcome
  list_providers_route token term query = do
    get_current_user app.library token
    given (with_search app term (validate_page app.messages query)) λ page.
        returns 200 (λ us. profiles (map user_response us))
          (list_providers app.matching term page.skip page.limit)

  unfoldable pub check_provider_availability_route :
      Option String → ℕ → Datetime → Datetime → Action Outcome
  check_provider_availability_route token provider_id start_time end_time = do
    get_current_user app.library token
    returns 200 availability (availability_route provider_id start_time end_time)

  unfoldable pub get_provider_review_summary_route : Option String → ℕ → Action Outcome
  get_provider_review_summary_route token provider_id = do
    get_current_user app.library token
    returns 200 review_summary (get_provider_review_summary app.rounding provider_id)

  unfoldable pub get_provider_route : Option String → ℕ → Action Outcome
  get_provider_route token provider_id = do
    get_current_user app.library token
    returns 200 (λ u. profile (user_response u)) (get_provider_by_id provider_id)
