-- ===== src/Core/Audit.antt =====
-- The audit journal, crates/omni-core/src/journal.rs: `audit_on` and its checks. The record's fresh id
-- and the time are arguments; a time is a number, in the order of its text.
pub mod Clean
mod Tests
use omni_os.Prelude.{
  one_of, ltb, leb, ◌==◌, if◌then◌else◌, any, ensure, ◌>>◌, Result, ok, text_comparable,
  pair_comparable, is_control, is_ascii_alphanumeric, all_chars, any_char, is_empty, trim, ℕ, ◌^◌,
  max, String, len, Bool, true, false, not, ◌&&◌, ◌||◌, Option, none, some, List, [], ◌∷◌, str_eq,
}
use omni_os.Core.Errors.{
  Error, constraint_failed, action_not_allowlisted, invalid_identifier, invalid_model,
  invalid_retention, invalid_http_status, metric_out_of_range,
}

pub record Details : Type 0 where
  pub provider_id : Option String
  pub model : Option String
  pub entity_id : Option String
  pub count : Option ℕ
  pub enabled : Option Bool
  pub retention_days : Option ℕ
  pub http_status : Option ℕ
  pub error_code : Option String

-- `AuditDetails::default()`
abbrev pub no_details : Details
no_details = record {
  provider_id = none;
  model = none;
  entity_id = none;
  count = none;
  enabled = none;
  retention_days = none;
  http_status = none;
  error_code = none;
}

pub record AuditRecord : Type 0 where
  pub id : String
  pub created_at : ℕ
  pub action : String
  pub level : String
  pub details : Details

-- What the code draws for one record: a random id and the time.
pub record Stamp : Type 0 where
  pub fresh_id : String
  pub time : ℕ

abbrev pub actions : List String
actions =
    "work_enabled" ∷ "client_approved" ∷ "client_revoked" ∷ "conversation_created"
    ∷ "conversation_deleted" ∷ "conversation_saved" ∷ "recovery_exported" ∷ "recovery_restored"
    ∷ "memory_created" ∷ "memory_updated" ∷ "memory_deleted" ∷ "source_deleted" ∷ "grant_created"
    ∷ "grant_revoked" ∷ "capture_saved" ∷ "analytics_consent_changed" ∷ "analytics_report_prepared"
    ∷ "analytics_report_sent" ∷ "provider_created" ∷ "provider_updated" ∷ "provider_deleted"
    ∷ "provider_probed" ∷ "provider_models_refreshed" ∷ "settings_updated" ∷ "history_cleared"
    ∷ "history_pruned" ∷ "stream_aborted" ∷ "access_denied" ∷ "core_started" ∷ "policy_updated"
    ∷ "policy_blocked" ∷ []

unfoldable pub valid_action : String → Bool
valid_action = one_of actions

abbrev is_identifier_char : ℕ → Bool
is_identifier_char c =
    is_ascii_alphanumeric c || (c == b'-' || (c == b'_' || (c == b'.' || c == b':')))

-- `identifier`, as a test.
unfoldable pub identifier : String → Bool
identifier value =
    not (is_empty value) && (leb (len value) 128 && all_chars is_identifier_char value)

-- `bounded_metadata`, as a test.
unfoldable pub bounded_metadata : String → ℕ → Bool
bounded_metadata value max =
    not (is_empty (trim value)) && (leb (len value) max && not (any_char is_control value))

-- `metric`, as a test.
unfoldable pub metric : Option ℕ → Bool
metric none = true
metric (some value) = ltb value (2 ^ 63)

abbrev pub error_codes : List String
error_codes =
    "provider_timeout" ∷ "provider_unavailable" ∷ "provider_http_error" ∷ "invalid_response"
    ∷ "response_too_large" ∷ "stream_interrupted" ∷ "stream_timeout" ∷ "upstream_stream_error"
    ∷ "upstream_stream_incomplete" ∷ "client_disconnected" ∷ "process_restarted"
    ∷ "permission_denied" ∷ "no_text_content" ∷ "invalid_request" ∷ "extractor_unavailable"
    ∷ "extractor_invalid_output" ∷ "storage_failure" ∷ "unknown_error" ∷ []

unfoldable pub sanitize_error : String → String
sanitize_error value = if one_of error_codes value then value else "unknown_error"

-- `Option::is_none_or` and `Option::is_some_and`
abbrev pub none_or {ℓ} : {A : Type ℓ} → (A → Bool) → Option A → Bool
none_or p none = true
none_or p (some a) = p a

abbrev pub some_and {ℓ} : {A : Type ℓ} → (A → Bool) → Option A → Bool
some_and p none = false
some_and p (some a) = p a

abbrev pub sanitize : Option String → Option String
sanitize none = none
sanitize (some value) = some (sanitize_error value)

-- The level of a record.
unfoldable pub level_of : String → Details → String
level_of action details =
    if some_and (λ c. true) details.error_code || some_and (λ s. leb 400 s) details.http_status
    then "error"
    else if one_of ("access_denied" ∷ "stream_aborted" ∷ "policy_blocked" ∷ []) action
    then "warning"
    else "info"

-- The journal after the record is added, newest first; the id is the primary key.
unfoldable pub audit_on :
    List AuditRecord → Stamp → String → Details → Result Error (List AuditRecord)
audit_on journal stamp action details = do
  ensure (valid_action action) action_not_allowlisted
  ensure (none_or identifier details.provider_id) invalid_identifier
  ensure (none_or identifier details.entity_id) invalid_identifier
  ensure (none_or (λ m. bounded_metadata m 200) details.model) invalid_model
  ensure (none_or (λ d. leb 1 d && leb d 365) details.retention_days) invalid_retention
  ensure (none_or (λ s. leb 100 s && leb s 599) details.http_status) invalid_http_status
  ensure (metric details.count) metric_out_of_range
  let clean : Details = record details { error_code = sanitize details.error_code }
  ensure (not (any (λ (r : AuditRecord). str_eq r.id stamp.fresh_id) journal)) constraint_failed
  ok (
      record {
        id = stamp.fresh_id;
        created_at = stamp.time;
        action = action;
        level = level_of action clean;
        details = clean;
      }
      ∷ journal)
