-- ===== src/Api/Headers.antt =====
-- The security headers of a response.
use bodhrik_fullstack_assess.Common.{
  String, ◌≡◌, refl, ap, ◌∙◌, inl, inr, true, ◌||◌, List, ◌++◌, arith, str_eq, eq_iff, Bool-cases,
  any-append,
}
use bodhrik_fullstack_assess.Api.{has_header, missing, send_with_security_headers}

-- `bytes.lower` leaves the three names as they are.
pub record KeepsNames (lower : String → String) : Type 0 where
  pub content_type : lower "x-content-type-options" ≡ "x-content-type-options"
  pub frame : lower "x-frame-options" ≡ "x-frame-options"
  pub referrer : lower "referrer-policy" ≡ "referrer-policy"

module _ (lower : String → String) where
  missing_present :
      (name value : String) (headers : List (String × String))
      → lower name ≡ name
      → (has_header lower name headers || has_header lower name (missing lower name value headers))
        ≡ true
  missing_present name value headers e = elim (Bool-cases (has_header lower name headers)) [
    | inl here ↦ rw here refl
    | inr absent ↦
        let same : str_eq (lower name) name ≡ true = (eq_iff (lower name) name).1 e in
        rw absent (rw same refl)
  ]

  split :
      (name : String) (xs ys : List (String × String))
      → has_header lower name (xs ++ ys) ≡ (has_header lower name xs || has_header lower name ys)
  split name xs ys = any-append (λ h. str_eq (lower h.0) name) xs ys

  four :
      (name : String) (xs ws ys zs : List (String × String))
      → has_header lower name (xs ++ ws ++ ys ++ zs) ≡ (
          ((has_header lower name xs || has_header lower name ws) || has_header lower name ys)
          || has_header lower name zs)
  four name xs ws ys zs =
      split name (xs ++ ws ++ ys) zs
      ∙ ap (λ b. b || has_header lower name zs)
          (split name (xs ++ ws) ys ∙ ap (λ b. b || has_header lower name ys) (split name xs ws))

  -- Whatever headers a response has, it leaves with each of the three security headers. It takes
  -- that lowering leaves their names as they are.
  pub send_with_security_headers_present :
      (headers : List (String × String))
      → KeepsNames lower
      → let sent = send_with_security_headers lower headers in
        (has_header lower "x-content-type-options" sent ≡ true)
        × (has_header lower "x-frame-options" sent ≡ true)
        × (has_header lower "referrer-policy" sent ≡ true)
  unfolding send_with_security_headers
  send_with_security_headers_present headers names =
      let a = missing lower "x-content-type-options" "nosniff" headers in
      let b = missing lower "x-frame-options" "DENY" headers in
      let c = missing lower "referrer-policy" "no-referrer" headers in
      (
        four "x-content-type-options" headers a b c
            ∙ ground (
              arith,
              missing_present "x-content-type-options" "nosniff" headers names.content_type,
            ),
        four "x-frame-options" headers a b c
            ∙ ground (arith, missing_present "x-frame-options" "DENY" headers names.frame),
        four "referrer-policy" headers a b c
            ∙ ground
                (arith, missing_present "referrer-policy" "no-referrer" headers names.referrer),
      )
