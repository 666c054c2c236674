-- ===== src/Core/Vault/Receipts.antt =====
-- Receipts for what was disclosed: `receipt`, `current_context_receipt` and `receipt_status` of
-- crates/omni-core/src/vault.rs.
use omni_os.Prelude.{
  ◌==◌, if◌then◌else◌, any, ensure, ◌>>=◌, ◌>>◌, Result, ok, text_comparable, pair_comparable, ℕ,
  String, Bool, true, false, not, ◌&&◌, Option, none, some, List, [], ◌∷◌, map, str_eq,
}
use omni_os.Core.Errors.{Error, constraint_failed, context_changed}
use omni_os.Core.Vault.{Vault, Memory, Receipt}
use omni_os.Core.Vault.Context.{context}

-- `PartialEq` of `Memory`, and of lists.
abbrev pub memory_beq : Memory → Memory → Bool
memory_beq a b =
    (str_eq a.id b.id
      && (str_eq a.source_id b.source_id
          && (str_eq a.content b.content && str_eq a.status b.status)))
    && ((a.created_at == b.created_at && a.updated_at == b.updated_at) && str_eq a.source b.source)

abbrev pub memories_beq : List Memory → List Memory → Bool
memories_beq [] [] = true
memories_beq (a ∷ as_) (b ∷ bs) = memory_beq a b && memories_beq as_ bs
memories_beq _ _ = false

-- `Vault::receipt`, with the random id and the time.
unfoldable pub receipt :
    Vault → String → ℕ → String → List Memory → Option String → Result Error (Receipt × Vault)
receipt vault id time destination ms grant_id = do
  ensure (not (any (λ (r : Receipt). str_eq r.id id) vault.receipt_rows)) constraint_failed
  let made : Receipt = record {
    id = id;
    destination = destination;
    memory_ids = map (λ (m : Memory). m.id) ms;
    created_at = time;
    grant_id = grant_id;
    status = "authorized";
  }
  ok (made, record vault { receipt_rows = made ∷ vault.receipt_rows })

abbrev pub receipt_unless_empty :
    Vault → String → ℕ → String → String → List Memory → Result Error (Option Receipt × Vault)
receipt_unless_empty vault id time destination grant_id [] = ok (none, vault)
receipt_unless_empty vault id time destination grant_id (m ∷ ms) = do
  (made, after) ← receipt vault id time destination (m ∷ ms) (some grant_id)
  ok (some made, after)

-- `Vault::current_context_receipt`: the selection of a moment ago has to be the one of now.
unfoldable pub current_context_receipt :
    (String → String)
    → Vault
    → String
    → ℕ
    → ℕ
    → String
    → String
    → List Memory
    → Result Error (Option Receipt × Vault)
current_context_receipt to_lowercase vault id now time destination grant_id selected = do
  current ← context to_lowercase vault now grant_id destination none
  ensure (memories_beq current selected) context_changed
  receipt_unless_empty vault id time destination grant_id selected

-- `Vault::receipt_status`
unfoldable pub receipt_status : Vault → String → String → Vault
receipt_status vault id status = record vault {
  receipt_rows =
      map (λ (r : Receipt). if str_eq r.id id then record r { status = status } else r)
        vault.receipt_rows;
}
