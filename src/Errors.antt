-- ===== src/Errors.antt =====
-- internal/model/errors.go: the error body of the API, its codes and its constructors, and the result of a
-- fallible call.
use self_organizing_multi_ag.Base.{
  ℕ, String, ◌≡◌, refl, ◌⊎◌, inl, inr, Bool, true, false, Option, none, some, ◌==◌, if◌then◌else◌,
}

-- The error codes; any other string is `unrecognised`.
pub data ErrorCode : Type 0 where
  err_not_found : ErrorCode
  err_access_denied : ErrorCode
  err_validation_error : ErrorCode
  err_rate_limited : ErrorCode
  err_conflict : ErrorCode
  err_unavailable : ErrorCode
  err_internal : ErrorCode
  unrecognised : String → ErrorCode

-- The wire spelling of each code.
abbrev pub code_text : ErrorCode → String
code_text err_not_found = "not_found"
code_text err_access_denied = "access_denied"
code_text err_validation_error = "validation_error"
code_text err_rate_limited = "rate_limited"
code_text err_conflict = "conflict"
code_text err_unavailable = "unavailable"
code_text err_internal = "internal"
code_text (unrecognised s) = s

-- A field's name in a message: plain, an element of a list, or a field of an element.
pub data FieldName : Type 0 where
  field : String → FieldName
  element : FieldName → ℕ → FieldName
  member : FieldName → String → FieldName

-- What `fmt.Sprintf` is given: one constructor for each format.
pub data Message : Type 0 where
  text : String → Message
  max_characters : FieldName → ℕ → Message
  max_entries : FieldName → ℕ → Message
  max_bytes : FieldName → ℕ → Message
  not_object : FieldName → Message
  required : FieldName → Message
  quoted : String → String → Message
  must_be : FieldName → String → Message
  undecodable_payload : String → String → Message

pub record ApiError : Type 0 where
  pub error_code : ErrorCode
  pub message : Message
  pub retryable : Bool
  pub details : Option (String × String)
  pub suggested_action : String
  pub trace_id : String

abbrev pub new_err : ErrorCode → Message → Bool → ApiError
new_err code message retryable = record {
  error_code = code;
  message = message;
  retryable = retryable;
  details = none;
  suggested_action = "";
  trace_id = "";
}

abbrev pub not_found : String → ApiError
not_found m = new_err err_not_found (text m) false

abbrev pub access_denied : String → ApiError
access_denied m = new_err err_access_denied (text m) false

abbrev pub validation_error : Message → ApiError
validation_error m = new_err err_validation_error m false

abbrev pub conflict : String → ApiError
conflict m = new_err err_conflict (text m) false

abbrev pub rate_limited : String → ApiError
rate_limited m = new_err err_rate_limited (text m) true

abbrev pub service_unavailable : String → ApiError
service_unavailable m = new_err err_unavailable (text m) true

abbrev pub internal : ApiError
internal = new_err err_internal (text "internal error") true

abbrev pub with_details : String → String → ApiError → ApiError
with_details k v e = record e { details = some (k, v) }

abbrev pub with_trace_id : String → ApiError → ApiError
with_trace_id t e = record e { trace_id = t }

-- `HTTPStatus`
unfoldable pub http_status : ErrorCode → ℕ
http_status err_not_found = 404
http_status err_access_denied = 403
http_status err_validation_error = 400
http_status err_rate_limited = 429
http_status err_conflict = 409
http_status err_internal = 500
http_status err_unavailable = 503
http_status (unrecognised s) = 500

-- `WriteError`: the status and the body that are sent.
unfoldable pub write_error : String → ApiError → ℕ × ApiError
unfolding http_status
write_error trace_id e =
    let sent = if e.trace_id == "" then with_trace_id trace_id e else e in
    (http_status sent.error_code, sent)

-- What a call returns beside its `error`.
pub data Result {ℓ} (A : Type ℓ) : Type ℓ where
  ok : A → Result A
  err : ApiError → Result A

pub Result-cases :
    {A : Type 0} (r : Result A) → ((a : A) × (r ≡ ok a)) ⊎ ((e : ApiError) × (r ≡ err e))
Result-cases (ok a) = inl (a, refl)
Result-cases (err e) = inr (e, refl)

abbrev pub is_ok {ℓ} : {A : Type ℓ} → Result A → Bool
is_ok (ok a) = true
is_ok (err e) = false

-- `IsCode(err, ErrNotFound)`
abbrev pub is_not_found : ErrorCode → Bool
is_not_found err_not_found = true
is_not_found _ = false
