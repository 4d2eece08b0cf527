-- ===== src/Scanupload/Upload/Accepted.antt =====
-- Which exchanges are uploads that succeed, and which failures are tried again.
use wow_markets.Base.{
  ℕ, zero, suc, ◌+◌, ◌≤◌, ◌<◌, ◌≡◌, refl, sym, ap, ◌∙◌, subst, ◌↔◌, ◌⊎◌, inl, inr, arith, true,
  false, [], ◌∷◌, none, ltb_iff, length, take, codes, str_eq_iff,
}
use wow_markets.Base.Strings.{Text}
use wow_markets.Scanupload.Record.{UploadResponse}
use wow_markets.Scanupload.Outside.{Library, Decoded, malformed, trailing, value}
use wow_markets.Scanupload.Upload.{
  max_response_bytes, Exchange, open_failed, request_failed, send_failed, read_failed, responded,
  Attempt, failing, empty_response, check_result, is_retryable_status, check_decoded, read_payload,
  upload,
}

-- The answer of the server that takes the scan of a checksum.
abbrev pub Takes : Text → UploadResponse → Type 0
Takes checksum r =
    ((r.status ≡ codes "accepted") ⊎ (r.status ≡ codes "duplicate")) × (r.checksum ≡ checksum)

abbrev pub Success : ℕ → Type 0
Success status = (status ≡ 200) ⊎ (status ≡ 201)

-- How `upload` ends on an answer that it takes.
abbrev pub accepted : ℕ → UploadResponse → Attempt
accepted status r = record {
  response = r;
  http_status = status;
  retryable = false;
  upload_err = none;
}

pub record Accepts (lib : Library) (checksum : Text) (exchange : Exchange) (status : ℕ)
    (result : UploadResponse) : Type 0 where
  pub body : Text
  pub responds : exchange ≡ responded status body
  pub fits : length body ≤ max_response_bytes
  pub succeeds : Success status
  pub decodes : lib.decode_response body ≡ value result
  pub takes : Takes checksum result

-- The exchanges after which the archive is sent again.
abbrev pub Retries : Exchange → Type 0
Retries (open_failed e) = ⊥
Retries (request_failed e) = ⊥
Retries (send_failed e) = Unit
Retries (read_failed status e) = Unit
Retries (responded status body) =
    (length body ≤ max_response_bytes)
    × (¬ Success status)
    × ((status ≡ 408) ⊎ (status ≡ 429) ⊎ (500 ≤ status))

limited :
    (n : ℕ) (xs : Text)
    → ((length xs ≤ n) × (take (n + 1) xs ≡ xs))
      ⊎ ((n < length (take (n + 1) xs)) × (n < length xs))
limited n [] = ground arith
limited zero (x ∷ []) = ground arith
limited zero (x ∷ y ∷ xs) = ground arith
limited (suc n) (x ∷ xs) = ground (arith, limited n xs)

abbrev value_of : Decoded → UploadResponse
value_of (malformed e) = empty_response
value_of trailing = empty_response
value_of (value r) = r

module _ (lib : Library) (checksum : Text) (status : ℕ) where
  check_result_iff :
      (d : UploadResponse) (s : ℕ) (r : UploadResponse)
      → (check_result lib checksum status d ≡ accepted s r)
        ↔ ((d ≡ r) × (status ≡ s) × Takes checksum r)
  check_result_iff d s r = (
    λ h. ground (
      arith,
      str_eq_iff d.status (codes "accepted"),
      str_eq_iff d.status (codes "duplicate"),
      str_eq_iff d.checksum checksum,
    ),
    λ h. ground (
      arith,
      str_eq_iff d.status (codes "accepted"),
      str_eq_iff d.status (codes "duplicate"),
      str_eq_iff d.checksum checksum,
    ),
  )

  check_decoded_iff :
      (d : Decoded) (s : ℕ) (r : UploadResponse)
      → (check_decoded lib checksum status d ≡ accepted s r)
        ↔ ((d ≡ value r) × (status ≡ s) × Takes checksum r)
  check_decoded_iff (malformed e) s r = (λ h. cc, λ h. cc)
  check_decoded_iff trailing s r = (λ h. cc, λ h. cc)
  check_decoded_iff (value d) s r = (
    λ h. ground (arith, (check_result_iff d s r).0 h),
    λ h. (check_result_iff d s r).1 (ap value_of h.0, h.1, h.2),
  )

  check_decoded-final : (d : Decoded) → (check_decoded lib checksum status d).retryable ≡ false
  check_decoded-final (malformed e) = refl
  check_decoded-final trailing = refl
  check_decoded-final (value d) = ground arith

  read_payload_iff :
      (payload : Text) (s : ℕ) (r : UploadResponse)
      → (read_payload lib checksum status payload ≡ accepted s r) ↔ (
          (length payload ≤ max_response_bytes)
          × Success status
          × (lib.decode_response payload ≡ value r)
          × (status ≡ s)
          × Takes checksum r)
  unfolding read_payload
  read_payload_iff payload s r = (
    λ h. ground (arith, check_decoded_iff (lib.decode_response payload) s r),
    λ h. ground (arith, check_decoded_iff (lib.decode_response payload) s r),
  )

  read_payload-retryable_iff :
      (payload : Text)
      → ((read_payload lib checksum status payload).retryable ≡ true) ↔ (
          (length payload ≤ max_response_bytes)
          × (¬ Success status)
          × ((status ≡ 408) ⊎ (status ≡ 429) ⊎ (500 ≤ status)))
  unfolding read_payload is_retryable_status
  read_payload-retryable_iff payload =
      (λ h. ground (arith, check_decoded-final (lib.decode_response payload)), λ h. ground arith)

module _ (lib : Library) (checksum : Text) where
  -- A body over the limit is refused, a shorter one is read whole.
  upload-responded :
      (status : ℕ) (body : Text)
      → ((length body ≤ max_response_bytes)
          × (upload lib checksum (responded status body) ≡ read_payload lib checksum status body))
        ⊎ ((max_response_bytes < length body)
            × (upload lib checksum (responded status body)
                ≡ failing status false (codes "API response exceeds size limit")))
  unfolding upload
  upload-responded status body = elim (limited max_response_bytes body) [
    | inl (fits, same) ↦ inl (fits, rw same refl)
    | inr (long, longer) ↦ inr (longer, unfold read_payload in rw ((ltb_iff _ _).1 long) refl)
  ]

  upload-responded_sound :
      (code : ℕ) (body : Text) (status : ℕ) (r : UploadResponse)
      → upload lib checksum (responded code body) ≡ accepted status r
      → Accepts lib checksum (responded code body) status r
  upload-responded_sound code body status r h = elim (upload-responded code body) [
    | inr (long, same) ↦ cc (rw same at h)
    | inl (fits, same) ↦
        let (f, succeeds, decodes, code_eq, takes) =
          (read_payload_iff lib checksum code body status r).0 (sym same ∙ h) in
        record {
          body = body;
          responds = ap (λ n. responded n body) code_eq;
          fits = fits;
          succeeds = subst Success code_eq succeeds;
          decodes = decodes;
          takes = takes;
        }
  ]

  upload_sound :
      (exchange : Exchange) (status : ℕ) (r : UploadResponse)
      → upload lib checksum exchange ≡ accepted status r
      → Accepts lib checksum exchange status r
  unfolding upload
  upload_sound (open_failed e) status r h = cc
  upload_sound (request_failed e) status r h = cc
  upload_sound (send_failed e) status r h = cc
  upload_sound (read_failed code e) status r h = cc
  upload_sound (responded code body) status r h = upload-responded_sound code body status r h

  upload_complete :
      (exchange : Exchange) (status : ℕ) (r : UploadResponse)
      → Accepts lib checksum exchange status r
      → upload lib checksum exchange ≡ accepted status r
  upload_complete exchange status r a = elim (upload-responded status a.body) [
    | inl (fits, same) ↦
        rw (a.responds, same)
          ((read_payload_iff lib checksum status a.body status r).1
            (fits, a.succeeds, a.decodes, refl, a.takes))
    | inr (long, same) ↦ ground (arith, a.fits)
  ]

  -- `upload` reports success with an answer exactly when the server responds with status 200 or
  -- 201 and a body of at most the limit that decodes as that answer, its status "accepted" or
  -- "duplicate" and its checksum the record's.
  pub upload_iff :
      (exchange : Exchange) (status : ℕ) (r : UploadResponse)
      → (upload lib checksum exchange ≡ accepted status r) ↔ Accepts lib checksum exchange status r
  upload_iff exchange status r = (upload_sound exchange status r, upload_complete exchange status r)

  -- `upload` reports a failure as retryable exactly when the request could not be sent, the body
  -- could not be read, or the status is 408, 429 or at least 500 behind a body within the limit.
  pub upload-retryable_iff :
      (exchange : Exchange) → ((upload lib checksum exchange).retryable ≡ true) ↔ Retries exchange
  upload-retryable_iff (open_failed e) = (λ h. unfold upload in cc, λ h. absurd h)
  upload-retryable_iff (request_failed e) = (λ h. unfold upload in cc, λ h. absurd h)
  upload-retryable_iff (send_failed e) = (λ h. tt, λ h. unfold upload in refl)
  upload-retryable_iff (read_failed code e) = (λ h. tt, λ h. unfold upload in refl)
  upload-retryable_iff (responded code body) = elim (upload-responded code body) [
    | inl (fits, same) ↦ rw same (read_payload-retryable_iff lib checksum code body)
    | inr (long, same) ↦ (λ h. cc (rw same at h), λ h. ground arith)
  ]
