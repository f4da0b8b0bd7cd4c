-- ===== src/Api.antt =====
-- app/main.py, app/core/exceptions.py and app/schemas/error.py: how an exception becomes a response,
-- and the headers that every response has.
pub mod Headers
pub mod Availability
pub mod Health
use bodhrik_fullstack_assess.Common.{
  ℕ, zero, suc, ◌+◌, ◌-◌, ◌*◌, ◌/◌, ◌≤◌, ◌<◌, String, ◌≡◌, refl, sym, ap, ◌∙◌, subst, ◌≢◌, ◌↔◌, ◌⊎◌,
  inl, inr, Bool, true, false, not, ◌&&◌, ◌||◌, Option, none, some, List, [], ◌∷◌, ◌++◌, map, arith,
  str_eq, eq_iff, ◌<>◌, ⊤, ltb, leb, ◌==◌, if◌then◌else◌, ==_iff, Bool-cases, Option-cases, is_some,
  or_default, length, take, drop, any, length-append, any-append, length-take-le, All, All-append,
}
use bodhrik_fullstack_assess.Common.Table.{
  select, first, update_where, delete_where, order_by, page, All-select, first-test, first-any,
  All-page,
}
use bodhrik_fullstack_assess.Models.{
  UserRole, BookingStatus, NotificationType, role_eq, status_eq, type_eq, status_value, User,
  Booking, Review, Notification, Database,
}
use bodhrik_fullstack_assess.Session.{
  Session, Exception, Result, ok, err, http, integrity, operational, Action, pure, raise,
  http_error, query, ◌>>=◌, ◌>>◌, raise_if, or_raise, lift, on_error, find_user, find_booking,
  find_review, find_notification, uuid4, clock, set_booking, add_booking, insert_booking,
  flush_booking, refreshed_booking, booking_changed, insert_review, flush_review, refreshed_review,
  insert_or_ignore, execute, commit, rollback, Environment, open_session, serve,
}
use bodhrik_fullstack_assess.Session.{multiple_results, value_error}
use Prim.Native.String.{len, slice}
use text.Mathlib.Text.{starts_with}

-- the `detail` of an ErrorResponse: null, a text, or a list of fields with their messages
pub data Detail : Type 0 where
  null : Detail
  plain : String → Detail
  fields : List (String × String) → Detail

pub record Response : Type 0 where
  pub status_code : ℕ
  pub code : String
  pub message : String
  pub detail : Detail
  pub headers : List (String × String)

-- `integer` prints the number of an f-string
unfoldable pub status_to_code : (ℕ → String) → ℕ → String
status_to_code integer status_code =
    if status_code == 400
    then "BAD_REQUEST"
    else if status_code == 401
    then "UNAUTHORIZED"
    else if status_code == 403
    then "FORBIDDEN"
    else if status_code == 404
    then "NOT_FOUND"
    else if status_code == 409
    then "CONFLICT"
    else if status_code == 422
    then "VALIDATION_ERROR"
    else if status_code == 500
    then "INTERNAL_SERVER_ERROR"
    else if status_code == 503
    then "SERVICE_UNAVAILABLE"
    else ("HTTP_" <> integer status_code)

-- an AppException or one of its subclasses, made without arguments or with some
pub record AppException : Type 0 where
  pub status_code : ℕ
  pub code : String
  pub message : String
  pub detail : Detail

abbrev pub or_class {ℓ} : {A : Type ℓ} → Option A → A → A
or_class none a = a
or_class (some b) a = b

-- `__init__` over the attributes of the class
abbrev pub make_exception :
    AppException → Option String → Option String → Option ℕ → Detail → AppException
make_exception cls message code status_code detail = record {
  status_code = or_class status_code cls.status_code;
  code = or_class code cls.code;
  message = or_class message cls.message;
  detail = detail;
}

abbrev cls : ℕ → String → String → AppException
cls status_code code message = record {
  status_code = status_code;
  code = code;
  message = message;
  detail = Detail.null;
}

abbrev pub app_exception : AppException
app_exception = cls 500 "INTERNAL_ERROR" "An unexpected error occurred."

abbrev pub not_found_error : AppException
not_found_error = cls 404 "NOT_FOUND" "Resource not found."

abbrev pub forbidden_error : AppException
forbidden_error = cls 403 "FORBIDDEN" "Forbidden."

abbrev pub conflict_error : AppException
conflict_error = cls 409 "CONFLICT" "Conflict."

abbrev pub bad_request_error : AppException
bad_request_error = cls 400 "BAD_REQUEST" "Bad request."

abbrev pub unauthorized_error : AppException
unauthorized_error = cls 401 "UNAUTHORIZED" "Unauthorized."

abbrev pub booking_conflict_error : AppException
booking_conflict_error =
    cls 409 "BOOKING_CONFLICT" "Provider is not available during the requested time."

abbrev pub app_exception_handler : AppException → Response
app_exception_handler exc = record {
  status_code = exc.status_code;
  code = exc.code;
  message = exc.message;
  detail = exc.detail;
  headers = [];
}

-- an error of a request's validation: the places it names, and its message
pub record ValidationError : Type 0 where
  pub loc : List String
  pub msg : String

-- `".".join`
abbrev join : List String → String
join [] = ""
join (x ∷ []) = x
join (x ∷ y ∷ rest) = x <> "." <> join (y ∷ rest)

abbrev pub field_name : List String → String
field_name loc =
    let field_parts = select (λ x. not (str_eq x "body")) loc in
    if length field_parts == 0 then "request" else join field_parts

-- `if msg.startswith("Value error, "): msg = msg[len("Value error, "):]`
abbrev pub plain_message : String → String
plain_message msg = if starts_with msg "Value error, " then slice msg 13 (len msg) else msg

abbrev pub format_error : ValidationError → String × String
format_error e = (field_name e.loc, plain_message e.msg)

abbrev pub validation_exception_handler : List ValidationError → Response
validation_exception_handler errors = record {
  status_code = 422;
  code = "VALIDATION_ERROR";
  message = "Request validation failed.";
  detail = Detail.fields (map format_error errors);
  headers = [];
}

abbrev pub http_exception_handler : (ℕ → String) → ℕ → String → List (String × String) → Response
http_exception_handler integer status_code detail headers = record {
  status_code = status_code;
  code = status_to_code integer status_code;
  message = detail;
  detail = Detail.plain detail;
  headers = headers;
}

abbrev pub unhandled_exception_handler : Response
unhandled_exception_handler = record {
  status_code = 500;
  code = "INTERNAL_SERVER_ERROR";
  message = "An internal server error occurred.";
  detail = Detail.null;
  headers = [];
}

-- which handler FastAPI calls for an exception that a service raised
unfoldable pub respond : (ℕ → String) → Exception → Response
respond integer (http status_code detail headers) =
    http_exception_handler integer status_code detail headers
respond integer (integrity c) = unhandled_exception_handler
respond integer operational = unhandled_exception_handler
respond integer multiple_results = unhandled_exception_handler
respond integer value_error = unhandled_exception_handler

-- SecurityHeadersMiddleware: `if name not in header_names: raw_headers.append(…)`, where the names
-- are those that came with the message
abbrev pub has_header : (String → String) → String → List (String × String) → Bool
has_header lower name headers = any (λ h. str_eq (lower h.0) name) headers

abbrev pub missing :
    (String → String) → String → String → List (String × String) → List (String × String)
missing lower name value headers = if has_header lower name headers then [] else (name, value) ∷ []

unfoldable pub send_with_security_headers :
    (String → String) → List (String × String) → List (String × String)
send_with_security_headers lower headers =
    headers
    ++ missing lower "x-content-type-options" "nosniff" headers
    ++ missing lower "x-frame-options" "DENY" headers
    ++ missing lower "referrer-policy" "no-referrer" headers
