-- ===== src/Core/Audit/Tests.antt =====
-- The journal at concrete entries.
use omni_os.Prelude.{All, ok, err, text_comparable, pair_comparable, ◌≡◌, refl, some, [], ◌∷◌}
use omni_os.Core.Errors.{action_not_allowlisted}
use omni_os.Core.Audit.{
  Details, AuditRecord, Stamp, no_details, audit_on, valid_action, identifier, bounded_metadata,
  metric, sanitize_error, level_of,
}
use omni_os.Core.Audit.Clean.{IsClean, audit_on-IsClean}

abbrev stamp : Stamp
stamp = record { fresh_id = "r1"; time = 7 }

abbrev leaky : Details
leaky = record no_details { entity_id = some "d1"; error_code = some "secret: hunter2" }

abbrev entry : AuditRecord
entry = record {
  id = "r1";
  created_at = 7;
  action = "policy_blocked";
  level = "error";
  details = record no_details { entity_id = some "d1"; error_code = some "unknown_error" };
}

blocked_entry : audit_on [] stamp "policy_blocked" leaky ≡ ok (entry ∷ [])
unfolding audit_on valid_action identifier bounded_metadata metric sanitize_error level_of
blocked_entry = refl

unlisted_action : audit_on [] stamp "memory_read" no_details ≡ err action_not_allowlisted
unfolding audit_on valid_action
unlisted_action = refl

audit_on-IsClean_example :
    All IsClean (entry ∷ [])
    × ((r : AuditRecord) × (entry ∷ [] ≡ r ∷ []) × (r.action ≡ "policy_blocked"))
audit_on-IsClean_example =
    audit_on-IsClean [] (entry ∷ []) stamp "policy_blocked" leaky blocked_entry tt
