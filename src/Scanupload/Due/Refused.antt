-- ===== src/Scanupload/Due/Refused.antt =====
-- The errors that `apiError` writes are those that `isAuthorizationFailure` reads.
use wow_markets.Base.{
  ℕ, ◌≡◌, refl, true, ◌++◌, Option, none, some, codes, str_eq_iff, is_empty, Bool-cases, inl, inr,
  arith,
}
use wow_markets.Base.Strings.{Text, has_prefix, has_prefix-append, append-has_prefix}
use wow_markets.Scanupload.Record.{ProblemResponse}
use wow_markets.Scanupload.Outside.{Library}
use wow_markets.Scanupload.Upload.{print_nat, problem_text, api_error}
use wow_markets.Scanupload.Due.{refused_with}

-- What stands in front of a problem's text.
abbrev pub returned : ℕ → Text
returned status = codes "API returned " ++ print_nat status ++ codes " "

refused_with-prefix :
    (status : ℕ) (s : Text) → has_prefix s (returned status) ≡ true → refused_with status s ≡ true
unfolding refused_with
refused_with-prefix status s h = rw h refl

refused_with-status :
    (status : ℕ) → refused_with status (codes "API returned HTTP " ++ print_nat status) ≡ true
unfolding refused_with
refused_with-status status = ground (
  arith,
  str_eq_iff (codes "API returned HTTP " ++ print_nat status)
      (codes "API returned HTTP " ++ print_nat status),
)

begins : (status : ℕ) (rest : Text) → has_prefix (returned status ++ rest) (returned status) ≡ true
begins status rest = append-has_prefix (returned status) rest

begins_twice :
    (status : ℕ) (error detail : Text)
    → has_prefix (returned status ++ error ++ codes ": " ++ detail) (returned status) ≡ true
begins_twice status error detail =
    has_prefix-append (returned status ++ error ++ codes ": ") (returned status) detail (
      has_prefix-append (returned status ++ error) (returned status) (codes ": ")
        (begins status error))

refused_with-problem_text :
    (lib : Library) (status : ℕ) (p : Option ProblemResponse)
    → refused_with status (problem_text lib status p) ≡ true
refused_with-problem_text lib status none = refused_with-status status
refused_with-problem_text lib status (some p) = elim (Bool-cases (is_empty p.error)) [
  | inl none_of ↦ rw none_of (refused_with-status status)
  | inr error ↦ elim (Bool-cases (is_empty p.detail)) [
    | inl none_of ↦ rw (error, none_of) (refused_with-prefix status _ (begins status p.error))
    | inr detail ↦
        rw (error, detail) (refused_with-prefix status _ (begins_twice status p.error p.detail))
  ]
]

-- Whatever the server sends, the error that `apiError` writes for a status is one that
-- `isAuthorizationFailure` takes for a refusal with that status.
pub refused_with-api_error :
    (lib : Library) (status : ℕ) (payload : Text)
    → refused_with status (api_error lib status payload) ≡ true
unfolding api_error
refused_with-api_error lib status payload =
    refused_with-problem_text lib status (lib.decode_problem payload)
