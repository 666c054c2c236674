-- ===== src/Core/Vault/Capture.antt =====
-- Captures: `add_capture` of crates/omni-core/src/vault.rs, one source with up to five proposed memories.
use omni_os.Prelude.{
  leb, length, ensure, ◌>>=◌, ◌>>◌, Result, ok, text_comparable, pair_comparable, ℕ, String, some,
  List, [], ◌∷◌,
}
use omni_os.Core.Errors.{
  Error, constraint_failed, invalid_content, invalid_source, too_many_proposals,
}
use omni_os.Core.Audit.{Stamp, no_details, audit_on}
use omni_os.Core.Vault.{
  Vault, Memory, MemoryRow, Source, memory_of, check_content, check_source, new_source, new_row,
  row_of,
}

-- The loop over the proposals, each with its random id: the rows, and the memories in order.
unfoldable pub insert_proposals :
    Source
    → ℕ
    → List (String × String)
    → List MemoryRow
    → Result Error (List Memory × List MemoryRow)
insert_proposals source time [] rows = ok ([], rows)
insert_proposals source time ((id, content) ∷ proposals) rows = do
  ensure (check_content content) invalid_content
  ensure (new_row rows id) constraint_failed
  let row : MemoryRow = row_of id source.id content "proposed" time
  (ms, after) ← insert_proposals source time proposals (row ∷ rows)
  ok (memory_of row source ∷ ms, after)

-- `Vault::add_capture`, with the random ids of the source and of the memories.
unfoldable pub add_capture :
    Vault
    → Stamp
    → String
    → ℕ
    → String
    → String
    → List (String × String)
    → Result Error (List Memory × Vault)
add_capture vault stamp source_id time raw kind proposals = do
  ensure (check_content raw) invalid_content
  ensure (check_source kind) invalid_source
  ensure (leb (length proposals) 5) too_many_proposals
  ensure (new_source vault source_id) constraint_failed
  let source : Source = record { id = source_id; kind = kind; content = raw; created_at = time }
  (ms, rows) ← insert_proposals source time proposals vault.rows
  journal ←
      audit_on vault.journal stamp "capture_saved"
        (record no_details { entity_id = some source_id; count = some (length ms) })
  ok (ms, record vault { sources = source ∷ vault.sources; rows = rows; journal = journal })
