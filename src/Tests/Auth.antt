-- ===== src/Tests/Auth.antt =====
-- Registration, login and tokens.
use bodhrik_fullstack_assess.Common.{
  ◌≤◌, ◌≡◌, refl, ◌⊎◌, true, false, none, some, [], ◌∷◌, ◌++◌, arith, str_eq, ◌<>◌, ltb,
  if◌then◌else◌, length,
}
use bodhrik_fullstack_assess.Models.{User}
use bodhrik_fullstack_assess.Session.{Session, ok, err, open_session}
use bodhrik_fullstack_assess.Tests.Data.{db, env, s}
use bodhrik_fullstack_assess.Session.{multiple_results}
use bodhrik_fullstack_assess.Models.Constraints.{user_violation}
use bodhrik_fullstack_assess.Auth.{
  Library, UserRegister, UserLogin, TokenResponse, verify_password, get_user_by_email, new_user,
  persist_user, register_user, authenticate_user, login, get_current_user,
}
use bodhrik_fullstack_assess.Auth.Login.{
  matches, invalid_login, register_user_registered, authenticate_user_answers,
}
use bodhrik_fullstack_assess.Auth.Token.{DecodesToken, ReadsId, claims, login_then_current_user}

-- A library that knows one token and one id.
abbrev pub lib : Library
lib = record {
  normalize = λ e. e;
  sql_lower = λ e. e;
  hashpw = λ salt p. "#" <> p;
  over_limit = λ p. false;
  checkpw = λ p h. some (str_eq h ("#" <> p));
  encode = λ p. "token";
  decode = λ now t.
      if ltb now 3600000000 then some (record { sub = some "id"; iat = 0; exp = 3600 }) else none;
  uuid_text = λ k. "id";
  parse_uuid = λ t. some 50;
}

abbrev form : UserRegister
form = record { name = "New"; email = "new@example.com"; password = "password" }

abbrev fresh : User
fresh = new_user lib "#password" 50 1000 form

abbrev credentials : UserLogin
credentials = record { email = "new@example.com"; password = "password" }

-- the session that the registration leaves, and a later one
abbrev after : Session
after = open_session env (record db { users = fresh ∷ [] })

abbrev later : Session
later = record after { now = 5000 }

register_user_registered_example :
    let s' = (register_user lib 0 form s).1 in
    (matches lib form.email s ≡ [])
    × (fresh ≡ new_user lib (lib.hashpw 0 form.password) (s.uuid s.drawn) s.now form)
    × (s'.working.users ≡ s.working.users ++ fresh ∷ [])
    × (s'.committed ≡ s'.working)
unfolding register_user get_user_by_email persist_user user_violation
register_user_registered_example = register_user_registered lib 0 form s fresh refl

authenticate_user_answers_example :
    ((u : User) × (matches lib credentials.email after ≡ u ∷ [])
      × (verify_password lib credentials.password u.password_hash ≡ true)
      × (authenticate_user lib credentials after ≡ (ok u, after)))
    ⊎ (authenticate_user lib credentials after ≡ (err invalid_login, after))
    ⊎ ((2 ≤ length (matches lib credentials.email after))
        × (authenticate_user lib credentials after ≡ (err multiple_results, after)))
authenticate_user_answers_example = authenticate_user_answers lib credentials after

pub decodes : DecodesToken lib (claims lib 60 50 1000)
decodes = record { valid = λ now lo hi. ground arith; expired = λ now late. ground arith }

pub reads : ReadsId lib 50
reads = record { parsed = refl; some_text = refl }

login_then_current_user_example :
    (reply : TokenResponse) × (login lib 60 credentials after ≡ (ok reply, after))
    × (get_current_user lib (some reply.access_token) later ≡ (ok fresh, later))
unfolding authenticate_user get_user_by_email
login_then_current_user_example =
    login_then_current_user lib 60 credentials after later fresh decodes reads refl (refl, tt) refl
      (omega arith) (omega arith)
