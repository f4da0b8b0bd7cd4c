-- ===== src/Routes/Callers.antt =====
-- The authenticated user is a row of the database.
use bodhrik_fullstack_assess.Common.{ℕ, String, ◌≡◌, inl, inr, true, Option, none, some, arith}
use bodhrik_fullstack_assess.Common.Separate.{first-key}
use bodhrik_fullstack_assess.Models.{User}
use bodhrik_fullstack_assess.Models.Constraints.{has_user}
use bodhrik_fullstack_assess.Session.{Session, ok, find_user}
use bodhrik_fullstack_assess.Session.Laws.{Result-cases}
use bodhrik_fullstack_assess.Auth.{Library, token_user, get_current_user}
use bodhrik_fullstack_assess.Bookings.Create.{found-any}

token_user_session : (lib : Library) (token : String) (s : Session) → (token_user lib token s).1 ≡ s
unfolding token_user
token_user_session lib token s = ground arith

-- the authenticated user is the row under the id of the token
current_user_found :
    (lib : Library) (token : Option String) (s : Session) {u : User}
    → (get_current_user lib token s).0 ≡ ok u
    → (k : ℕ) × (find_user k s.working ≡ some u)
unfolding get_current_user
current_user_found lib none s {u} h = absurd (ground arith)
current_user_found lib (some token) s {u} h = elim (Result-cases (token_user lib token s).0) [
  | inl (k, e) ↦ (k, ground (arith, token_user_session lib token s))
  | inr (x, e) ↦ absurd (ground arith)
]

pub current_user_exists :
    (lib : Library) (token : Option String) (s : Session) {u : User}
    → (get_current_user lib token s).0 ≡ ok u
    → has_user s.working u.id ≡ true
current_user_exists lib token s {u} h =
    let (k, found) = current_user_found lib token s h in
    let is_k : u.id ≡ k = first-key (λ (v : User). v.id) k s.working.users found in
    rw is_k (found-any k s.working.users found)
