-- ===== src/Routes/Reviews.antt =====
-- The routes of app/api/v1/reviews.py that read and write reviews.
use bodhrik_fullstack_assess.Common.{ℕ, String, Option, [], ◌∷◌, ◌++◌}
use bodhrik_fullstack_assess.Session.{Action, ◌>>=◌}
use bodhrik_fullstack_assess.Auth.{get_current_user}
use bodhrik_fullstack_assess.Reviews.{
  create_review, list_reviews, get_review_by_id, update_review, delete_review,
}
use bodhrik_fullstack_assess.Schemas.Fields.{
  Validated, valid, invalid, ℤ, natural, map_option, optional_range_error,
}
use bodhrik_fullstack_assess.Schemas.Bodies.{
  ReviewCreateBody, ReviewUpdateBody, PageQuery, Page, validate_review_create,
  validate_review_update, validate_page,
}
use bodhrik_fullstack_assess.Routes.Reply.{
  App, no_content, one_review, many_reviews, Outcome, given, returns,
}

-- `rating` with the page of its query
abbrev pub with_rating : App → Option ℤ → Validated Page → Validated Page
with_rating app rating page =
    elim (optional_range_error app.messages ("query" ∷ "rating" ∷ []) 1 5 rating) [
      | [] ↦ page
      | e ∷ es ↦ elim page [
        | valid p ↦ invalid (e ∷ es)
        | invalid later ↦ invalid ((e ∷ es) ++ later)
      ]
    ]

module _ (app : App) (token : Option String) where
  unfoldable pub create_review_route : ReviewCreateBody → Action Outcome
  create_review_route body = do
    current_user ← get_current_user app.library token
    given (validate_review_create app.messages body)
        λ review_in. returns 201 one_review (create_review current_user review_in)

  unfoldable pub list_reviews_route : Option ℕ → Option ℤ → PageQuery → Action Outcome
  list_reviews_route provider_id rating query = do
    current_user ← get_current_user app.library token
    given (with_rating app rating (validate_page app.messages query)) λ page.
        returns 200 many_reviews
          (list_reviews current_user provider_id (map_option natural rating) page.skip page.limit)

  unfoldable pub get_review_route : ℕ → Action Outcome
  get_review_route review_id = do
    current_user ← get_current_user app.library token
    returns 200 one_review (get_review_by_id review_id current_user)

  unfoldable pub update_review_route : ℕ → ReviewUpdateBody → Action Outcome
  update_review_route review_id body = do
    current_user ← get_current_user app.library token
    given (validate_review_update app.messages body)
        λ review_update. returns 200 one_review (update_review review_id review_update current_user)

  unfoldable pub delete_review_route : ℕ → Action Outcome
  delete_review_route review_id = do
    current_user ← get_current_user app.library token
    returns 204 (λ _. no_content) (delete_review review_id current_user)
