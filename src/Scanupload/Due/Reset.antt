-- ===== src/Scanupload/Due/Reset.antt =====
-- What `ResetFailedAuthorization` does to every record.
use wow_markets.Base.{
  codes, str_eq_iff, ◌⊎◌, ◌↔◌, Bool, true, false, not, ◌||◌, ◌++◌, if◌then◌else◌, ℕ, [], ◌∷◌,
  Option, none, some, ◌==◌, ==_iff, ◌≡◌, refl, sym, ap, subst, ◌∙◌, Result, ok, ok_inj, >>=-eq-ok,
  Bool-cases, inl, inr, arith,
}
use wow_markets.Base.Maps.{lookup, text_key}
use wow_markets.Base.Strings.{Text, has_prefix, prefix-drop, append-has_prefix}
use wow_markets.Scanupload.Record.{Status, pending, failed, Record, Uploads}
use wow_markets.Scanupload.Upload.{print_nat, print_onto}
use wow_markets.Scanupload.Due.{
  refused_with, is_authorization_failure, is_failed, requeued, reset_all,
  reset_failed_authorization,
}
use wow_markets.Scanupload.Due.Refused.{returned}

unfoldable pub reset_one : Record → Record
reset_one r = if not (is_failed r.status) || not (is_authorization_failure r) then r else requeued r

abbrev pub reset_at : Option Record → Option Record
reset_at none = none
reset_at (some r) = some (reset_one r)

lookup-reset_all : (k : Text) (m : Uploads) → lookup k (reset_all m).0 ≡ reset_at (lookup k m)
unfolding reset_all lookup reset_one
lookup-reset_all k [] = refl
lookup-reset_all k ((j, r) ∷ m) = ground (arith, lookup-reset_all k m)

none_reset : (m : Uploads) → (reset_all m).1 ≡ 0 → (reset_all m).0 ≡ m
unfolding reset_all
none_reset [] h = refl
none_reset ((j, r) ∷ m) h = ground (arith, none_reset m)

pub reset_failed_authorization-at :
    (write : Uploads → Result Text (Unit {0})) (stored : Uploads) (n : ℕ) (after : Uploads)
    → reset_failed_authorization write stored ≡ ok (n, after)
    → (k : Text) → lookup k after ≡ reset_at (lookup k stored)
unfolding reset_failed_authorization
reset_failed_authorization-at write stored n after h k =
    let all = lookup-reset_all k stored in
    let unchanged = none_reset stored in
    elim (Bool-cases ((reset_all stored).1 == 0)) [
      | inl z ↦
          let same = ap (λ o. o.1) (ok_inj (rw (z, reset_failed_authorization) at h)) in
          ap (lookup k) (sym same)
          ∙ sym (ap (lookup k) (unchanged ((==_iff (reset_all stored).1 0).0 z)))
          ∙ all
      | inr z ↦
          let (_, _, last) =
            >>=-eq-ok (write (reset_all stored).0) _ (rw (z, reset_failed_authorization) at h) in
          ap (lookup k) (sym (ap (λ o. o.1) (ok_inj last))) ∙ all
    ]

-- A record that the server refused with a status: as its HTTP status, or by the text of its error.
abbrev pub Refusal : ℕ → Text → Record → Type 0
Refusal code digits r =
    (r.http_status ≡ code)
    ⊎ ((rest : Text) × (r.last_error ≡ (codes "API returned " ++ digits ++ codes " ") ++ rest))
    ⊎ (r.last_error ≡ codes "API returned HTTP " ++ digits)

abbrev pub Refused : Record → Type 0
Refused r = Refusal 401 (codes "401") r ⊎ Refusal 403 (codes "403") r

abbrev pub ResetAt : Option Record → Option Record → Type 0
ResetAt none after = after ≡ none
ResetAt (some r) after =
    ((r.status ≡ failed)
      × Refused r
      × (after
          ≡ some (record r {
            status = pending;
            retryable = false;
            next_attempt_at = [];
            last_error = [];
            http_status = 0;
          })))
    ⊎ ((¬ ((r.status ≡ failed) × Refused r)) × (after ≡ some r))

print_401 : print_nat 401 ≡ codes "401"
unfolding print_nat print_onto
print_401 = refl

print_403 : print_nat 403 ≡ codes "403"
unfolding print_nat print_onto
print_403 = refl

module _ (code : ℕ) (r : Record) where
  abbrev test : Bool
  test = r.http_status == code || refused_with code r.last_error

  tested-Refusal : test ≡ true → Refusal code (print_nat code) r
  unfolding refused_with
  tested-Refusal h = elim (Bool-cases (r.http_status == code)) [
    | inl y ↦ inl ((==_iff r.http_status code).0 y)
    | inr n ↦ elim (Bool-cases (has_prefix r.last_error (returned code))) [
      | inl y ↦ inr (inl (_, prefix-drop (returned code) r.last_error y))
      | inr m ↦ inr (inr ((str_eq_iff r.last_error _).0 (rw (n, m, refused_with) at h)))
    ]
  ]

  Refusal-tested : Refusal code (print_nat code) r → test ≡ true
  unfolding refused_with
  Refusal-tested (inl e) = rw ((==_iff r.http_status code).1 e) refl
  Refusal-tested (inr (inl (rest, e))) =
      let begun =
        ap (λ t. has_prefix t (returned code)) e ∙ append-has_prefix (returned code) rest in
      ground (arith, begun)
  Refusal-tested (inr (inr e)) = ground (arith, (str_eq_iff r.last_error _).1 e)

is_authorization_failure_iff : (r : Record) → (is_authorization_failure r ≡ true) ↔ Refused r
unfolding is_authorization_failure
is_authorization_failure_iff r =
    let split : is_authorization_failure r ≡ (test 401 r || test 403 r) = ground arith in
    (
      λ h. elim (Bool-cases (test 401 r)) [
        | inl y ↦ inl (subst (λ t. Refusal 401 t r) print_401 (tested-Refusal 401 r y))
        | inr n ↦
            let other : test 403 r ≡ true = ground (arith, split) in
            inr (subst (λ t. Refusal 403 t r) print_403 (tested-Refusal 403 r other))
      ],
      λ refused. elim refused [
        | inl a ↦
            let y = Refusal-tested 401 r (subst (λ t. Refusal 401 t r) (sym print_401) a) in
            split ∙ rw y refl
        | inr a ↦
            let y = Refusal-tested 403 r (subst (λ t. Refusal 403 t r) (sym print_403) a) in
            ground (arith, split, y)
      ],
    )

is_failed_iff : (s : Status) → (is_failed s ≡ true) ↔ (s ≡ failed)
is_failed_iff Status.failed = (λ h. refl, λ h. refl)
is_failed_iff Status.pending = (λ h. cc, λ h. cc)
is_failed_iff Status.uploading = (λ h. cc, λ h. cc)
is_failed_iff Status.uploaded = (λ h. cc, λ h. cc)
is_failed_iff (Status.other s) = (λ h. cc, λ h. cc)

reset_at-ResetAt : (o : Option Record) → ResetAt o (reset_at o)
unfolding reset_one
reset_at-ResetAt none = refl
reset_at-ResetAt (some r) = elim (Bool-cases (is_failed r.status)) [
  | inr n ↦ inr (λ p. cc (n, (is_failed_iff r.status).1 p.0), rw (n, reset_one) refl)
  | inl y ↦ elim (Bool-cases (is_authorization_failure r)) [
    | inr n ↦ inr (λ p. cc (n, (is_authorization_failure_iff r).1 p.1), rw (y, n, reset_one) refl)
    | inl z ↦ inl (
      (is_failed_iff r.status).0 y,
      (is_authorization_failure_iff r).0 z,
      rw (y, z, reset_one) refl,
    )
  ]
]

-- When `ResetFailedAuthorization` ends without an error, each checksum has a record exactly where
-- it had one. A failed record with the HTTP status 401 or 403, or whose error is "API returned
-- HTTP" and one of these or starts with "API returned", one of these and a space, is pending, not
-- retryable, with no next attempt, no error and no HTTP status, and is else as it was. Every other
-- record is as it was.
pub reset_failed_authorization-ResetAt :
    (write : Uploads → Result Text (Unit {0})) (stored : Uploads) (n : ℕ) (after : Uploads)
    → reset_failed_authorization write stored ≡ ok (n, after)
    → (k : Text) → ResetAt (lookup k stored) (lookup k after)
reset_failed_authorization-ResetAt write stored n after h k =
    subst (ResetAt (lookup k stored)) (sym (reset_failed_authorization-at write stored n after h k))
      (reset_at-ResetAt (lookup k stored))
