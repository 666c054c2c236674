-- ===== src/Core/Errors.antt =====
-- The errors of crates/omni-core, one for each message of the code, and those of SQLite and serde.
pub data Error : Type 0 where
  -- the store and the codecs
  constraint_failed bad_json out_of_range : Error
  -- journal.rs
  action_not_allowlisted invalid_identifier invalid_model invalid_retention : Error
  invalid_http_status metric_out_of_range : Error
  -- policy.rs
  policy_name policy_limits policy_extensions policy_too_many_rules : Error
  rule_id rule_text rule_pattern unknown_operation : Error
  managed_missing managed_unreadable managed_not_regular managed_writable managed_too_large : Error
  managed_invalid managed_digest managed_without_file : Error
  -- vault.rs
  invalid_content invalid_source invalid_status memory_not_found too_many_proposals : Error
  grant_lifetime grant_scope_size grant_wildcard grant_missing_memory : Error
  unknown_grant grant_revoked grant_expired wrong_destination context_changed : Error
  -- work.rs
  invalid_label work_not_enabled client_limits too_many_clients unknown_client : Error
  client_inactive client_destination client_required grant_other_client : Error
  -- continuity.rs
  consent_required retention_range too_many_conversations conversation_missing : Error
  bad_request_id message_size other_conversation request_reused request_pending : Error
  conversation_changed conversation_full pending_changed reply_too_long : Error
  -- journal.rs, interactions
  invalid_metadata unknown_operation_name unknown_protocol context_too_large : Error
  bad_estimate bad_rates bad_time bad_destination unknown_completion : Error
  bytes_decreased not_streaming latency_order : Error
