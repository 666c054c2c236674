-- ===== src/Core/Audit/Clean.antt =====
-- The journal holds allowlisted words, bounded identifiers and bounded numbers only.

-- A record that tells nothing but its allowlisted action and error code, identifiers, a bounded
-- model name and numbers in range: a count, a retention of 1 to 365 days and an HTTP status of 100
-- to 599.
use omni_os.Core.Audit.{
  sanitize, Details, AuditRecord, Stamp, valid_action, identifier, bounded_metadata, metric,
  sanitize_error, error_codes, none_or, level_of, audit_on,
}
use omni_os.Prelude.{
  leb, Bool-cases, All, ok, text_comparable, pair_comparable, one_of, String, ◌≡◌, refl, sym, subst,
  inl, inr, true, ◌&&◌, Option, none, some, List, ◌∷◌, arith,
}

pub record IsClean (r : AuditRecord) : Type 0 where
  pub action_listed : valid_action r.action ≡ true
  pub error_listed : none_or (one_of error_codes) r.details.error_code ≡ true
  pub provider_bounded : none_or identifier r.details.provider_id ≡ true
  pub entity_bounded : none_or identifier r.details.entity_id ≡ true
  pub model_bounded : none_or (λ m. bounded_metadata m 200) r.details.model ≡ true
  pub count_in_range : metric r.details.count ≡ true
  pub retention_in_range :
      none_or (λ days. leb 1 days && leb days 365) r.details.retention_days ≡ true
  pub status_in_range :
      none_or (λ status. leb 100 status && leb status 599) r.details.http_status ≡ true

sanitize_error_listed : (value : String) → one_of error_codes (sanitize_error value) ≡ true
unfolding sanitize_error
sanitize_error_listed value = elim (Bool-cases (one_of error_codes value)) [
  | inl listed ↦ rw listed listed
  | inr other ↦ rw other refl
]

sanitize_listed : (value : Option String) → none_or (one_of error_codes) (sanitize value) ≡ true
sanitize_listed none = refl
sanitize_listed (some value) = sanitize_error_listed value

-- What is appended to the journal by an accepted entry is one record, which is clean, and the journal
-- stays clean.
pub audit_on-IsClean :
    (journal after : List AuditRecord) (stamp : Stamp) (action : String) (details : Details)
    → audit_on journal stamp action details ≡ ok after
    → All IsClean journal
    → All IsClean after × ((r : AuditRecord) × (after ≡ r ∷ journal) × (r.action ≡ action))
unfolding audit_on
audit_on-IsClean journal after stamp action details h clean =
    let head : (r : AuditRecord) × (after ≡ r ∷ journal) × (r.action ≡ action) × IsClean r = (
      record {
        id = stamp.fresh_id;
        created_at = stamp.time;
        action = action;
        level = level_of action (record details { error_code = sanitize details.error_code });
        details = record details { error_code = sanitize details.error_code };
      },
      ground arith,
      refl,
      record {
        action_listed = ground arith;
        error_listed = sanitize_listed details.error_code;
        provider_bounded = ground arith;
        entity_bounded = ground arith;
        model_bounded = ground arith;
        count_in_range = ground arith;
        retention_in_range = ground arith;
        status_in_range = ground arith;
      },
    ) in
    (subst (All IsClean) (sym head.1) (head.3, clean), (head.0, head.1, head.2))
