-- ===== src/Schemas/Fields.antt =====
-- What pydantic does for app/schemas: the constraints of a Field, and errors that are collected
-- over the fields of a body.
use bodhrik_fullstack_assess.Common.{
  ℕ, String, Bool, true, false, not, Option, none, some, List, [], ◌∷◌, ◌<>◌, ltb, length,
}
use bodhrik_fullstack_assess.Api.{ValidationError}
use bodhrik_fullstack_assess.Api.Availability.{Datetime}
use Prim.Native.Char.{code}

-- a validated body, or the errors of a RequestValidationError
pub data Validated (A : Type 0) : Type 0 where
  valid : A → Validated A
  invalid : List ValidationError → Validated A

-- The number of a request: `negsuc n` is -(n + 1).
pub data ℤ : Type 0 where
  pos : ℕ → ℤ
  negsuc : ℕ → ℤ

-- How pydantic words the constraints of a Field.
pub record Messages : Type 0 where
  pub too_short : ℕ → String
  pub too_long : ℕ → String
  pub not_ge : ℕ → String
  pub not_le : ℕ → String

-- The code points of a text, and how many they are: `len` in Python.
abbrev pub codes : String → List ℕ
codes String.[] = []
codes (String.◌∷◌ c s) = code c ∷ codes s

abbrev pub text_length : String → ℕ
text_length s = length (codes s)

-- where a field of a body stands
abbrev pub in_body : String → List String
in_body field = "body" ∷ field ∷ []

-- `raise ValueError(msg)` in a validator
abbrev pub value_error : List String → String → ValidationError
value_error loc msg = record { loc = loc; msg = "Value error, " <> msg }

abbrev pub error_if : Bool → ValidationError → List ValidationError
error_if true e = e ∷ []
error_if false e = []

-- what a later check says where the earlier ones have passed
abbrev pub or_else : List ValidationError → List ValidationError → List ValidationError
or_else [] later = later
or_else (e ∷ es) later = e ∷ es

-- a body whose fields have these errors, and what is made of it where there is none
abbrev pub checked : {A : Type 0} → List ValidationError → A → Validated A
checked [] a = valid a
checked (e ∷ es) a = invalid (e ∷ es)

module _ (m : Messages) where
  -- Field(min_length=lo, max_length=hi)
  abbrev pub length_error : List String → ℕ → ℕ → String → List ValidationError
  length_error loc lo hi s =
      or_else (error_if (ltb (text_length s) lo) (record { loc = loc; msg = m.too_short lo }))
        (error_if (ltb hi (text_length s)) (record { loc = loc; msg = m.too_long hi }))

  abbrev pub optional_length_error : List String → ℕ → ℕ → Option String → List ValidationError
  optional_length_error loc lo hi none = []
  optional_length_error loc lo hi (some s) = length_error loc lo hi s

  -- Field(ge=lo, le=hi), or the same of a Query
  abbrev pub range_error : List String → ℕ → ℕ → ℤ → List ValidationError
  range_error loc lo hi (negsuc n) = record { loc = loc; msg = m.not_ge lo } ∷ []
  range_error loc lo hi (pos n) =
      or_else (error_if (ltb n lo) (record { loc = loc; msg = m.not_ge lo }))
        (error_if (ltb hi n) (record { loc = loc; msg = m.not_le hi }))

  abbrev pub optional_range_error : List String → ℕ → ℕ → Option ℤ → List ValidationError
  optional_range_error loc lo hi none = []
  optional_range_error loc lo hi (some n) = range_error loc lo hi n

  -- Query(ge=0)
  abbrev pub ge_zero_error : List String → ℤ → List ValidationError
  ge_zero_error loc (pos n) = []
  ge_zero_error loc (negsuc n) = record { loc = loc; msg = m.not_ge 0 } ∷ []

-- `validate_timezone_aware`
abbrev pub aware_error : String → Datetime → List ValidationError
aware_error field v =
    error_if (not v.aware) (value_error (in_body field) "Datetime must be timezone-aware")

abbrev pub optional_aware_error : String → Option Datetime → List ValidationError
optional_aware_error field none = []
optional_aware_error field (some v) = aware_error field v

-- A number that has passed a lower bound is not negative.
abbrev pub natural : ℤ → ℕ
natural (pos n) = n
natural (negsuc n) = 0

abbrev pub map_option : {A B : Type 0} → (A → B) → Option A → Option B
map_option f none = none
map_option f (some a) = some (f a)
