-- ===== src/Core/Vault.antt =====
-- The vault of crates/omni-core/src/vault.rs: its tables of sources, memories and their history, grants
-- and receipts, and the operations on memories. A table is the list of its rows, a time a number in the
-- order of its text; SQLite undoes what a failing transaction did, so an error leaves the store.
pub mod Capture
pub mod Context
pub mod Deleted
pub mod Disclosed
pub mod Receipts
pub mod Revoked
pub mod Selected
pub mod Steps
mod Tests
pub mod Valid
use omni_os.Core.Audit.{Details, AuditRecord, Stamp, no_details, audit_on}
use omni_os.Prelude.{
  ltb, leb, ◌==◌, if◌then◌else◌, ==_iff, Bool-cases, Option-cases, le→leb, lt→leb_false, leb→le,
  ltb→lt, eq→==, ne→==_false, lt→ltb, le→ltb_false, length, get_or, set, take, drop, replicate, all,
  any, keep_if, find, length-append, length-keep_if, replicate-add, All, ensure, or_fail, ◌>>=◌,
  ◌>>◌, ensure-eq-ok, >>=-eq-ok, Result-cases, ok_injective, or_fail-eq-ok, some_injective, Result,
  ok, err, text_comparable, pair_beq, pair_beq_iff, pair_comparable, beq_refl, lookup, contains,
  insert, retain, lookup-insert_self, lookup-insert_ne, lookup-retain, one_of, is_whitespace,
  is_control, is_ascii_alphanumeric, all_chars, any_char, is_empty, trim_start, trim_end, trim,
  to_ascii_lowercase, starts_with, contains_text, after_last, ℕ, zero, suc, ◌+◌, ◌-◌, ◌*◌, ◌/◌, ◌%◌,
  ◌^◌, ◌≤◌, ◌<◌, min, max, code, String, len, ◌≡◌, refl, sym, ap, ◌∙◌, subst, ◌≢◌, ◌↔◌, ◌⊎◌, inl,
  inr, Bool, true, false, not, ◌&&◌, ◌||◌, Option, none, some, option_map, List, [], ◌∷◌, ◌++◌, map,
  arith, str_eq, eq_iff,
}
use omni_os.Core.Errors.{
  Error, constraint_failed, invalid_content, invalid_source, invalid_status, memory_not_found,
  too_many_proposals,
}

pub record Memory : Type 0 where
  pub id : String
  pub source_id : String
  pub content : String
  pub status : String
  pub created_at : ℕ
  pub updated_at : ℕ
  pub source : String

pub record Grant : Type 0 where
  pub client_id : Option String
  pub id : String
  pub destination : String
  pub scope : List String
  pub expires_at : ℕ
  pub revoked_at : Option ℕ
  pub created_at : ℕ

pub record Receipt : Type 0 where
  pub id : String
  pub destination : String
  pub memory_ids : List String
  pub created_at : ℕ
  pub grant_id : Option String
  pub status : String

-- A row of `sources`, without its metadata, of `memories` and of `memory_history`.
pub record Source : Type 0 where
  pub id : String
  pub kind : String
  pub content : String
  pub created_at : ℕ

pub record MemoryRow : Type 0 where
  pub id : String
  pub source_id : String
  pub content : String
  pub status : String
  pub created_at : ℕ
  pub updated_at : ℕ

pub record HistoryRow : Type 0 where
  pub memory_id : String
  pub content : String
  pub status : String
  pub recorded_at : ℕ

-- A grant's row holds its client, which the code joins from `work_grants`.
pub record Vault : Type 0 where
  pub sources : List Source
  pub rows : List MemoryRow
  pub history : List HistoryRow
  pub grant_rows : List Grant
  pub receipt_rows : List Receipt
  pub journal : List AuditRecord

abbrev pub statuses : List String
statuses = "proposed" ∷ "confirmed" ∷ "disputed" ∷ "superseded" ∷ []

unfoldable pub valid_status : String → Bool
valid_status = one_of statuses

-- `check_content` and `check_source`, as tests.
unfoldable pub check_content : String → Bool
check_content s = not (is_empty (trim s)) && leb (len s) 100000

unfoldable pub check_source : String → Bool
check_source s = not (is_empty (trim s)) && leb (len s) 80

-- A join of a memory with its source: `memory_row`.
abbrev pub memory_of : MemoryRow → Source → Memory
memory_of row source = record {
  id = row.id;
  source_id = row.source_id;
  content = row.content;
  status = row.status;
  created_at = row.created_at;
  updated_at = row.updated_at;
  source = source.kind;
}

abbrev pub join_row : MemoryRow → Option Source → List Memory → List Memory
join_row row none rest = rest
join_row row (some source) rest = memory_of row source ∷ rest

unfoldable pub joined_rows : List Source → List MemoryRow → List Memory
joined_rows sources [] = []
joined_rows sources (row ∷ rows) =
    join_row row (find (λ (s : Source). str_eq s.id row.source_id) sources)
      (joined_rows sources rows)

-- Rows in the order of a test, first those that were inserted last.
module _ {A : Type 0} (before : A → A → Bool) where
  abbrev pub insert_by : A → List A → List A
  insert_by x [] = x ∷ []
  insert_by x (y ∷ ys) = if before x y then x ∷ y ∷ ys else y ∷ insert_by x ys

  abbrev pub sort_by : List A → List A
  sort_by [] = []
  sort_by (x ∷ xs) = insert_by x (sort_by xs)

-- `Vault::memories`: ordered by the time of creation, the latest first.
unfoldable pub memories : Vault → List Memory
memories vault =
    sort_by (λ (a b : Memory). leb b.created_at a.created_at) (joined_rows vault.sources vault.rows)

-- `Vault::grants`
unfoldable pub grants : Vault → List Grant
grants vault = sort_by (λ (a b : Grant). leb b.created_at a.created_at) vault.grant_rows

-- A primary key is new.
abbrev pub new_source : Vault → String → Bool
new_source vault id = not (any (λ (s : Source). str_eq s.id id) vault.sources)

abbrev pub new_row : List MemoryRow → String → Bool
new_row rows id = not (any (λ (r : MemoryRow). str_eq r.id id) rows)

abbrev pub entity : String → Details
entity id = record no_details { entity_id = some id }

abbrev pub row_of : String → String → String → String → ℕ → MemoryRow
row_of id source_id content status time = record {
  id = id;
  source_id = source_id;
  content = content;
  status = status;
  created_at = time;
  updated_at = time;
}

-- `Vault::add_memory`, with the random ids of the source and of the memory.
unfoldable pub add_memory :
    Vault → Stamp → String → String → ℕ → String → String → String → Result Error (Memory × Vault)
add_memory vault stamp source_id id time content status kind = do
  ensure (check_content content) invalid_content
  ensure (valid_status status) invalid_status
  ensure (check_source kind) invalid_source
  ensure (new_source vault source_id) constraint_failed
  ensure (new_row vault.rows id) constraint_failed
  journal ← audit_on vault.journal stamp "memory_created" (entity id)
  ok (
    record {
      id = id;
      source_id = source_id;
      content = content;
      status = status;
      created_at = time;
      updated_at = time;
      source = kind;
    },
    record vault {
      sources =
          record { id = source_id; kind = kind; content = content; created_at = time }
          ∷ vault.sources;
      rows = row_of id source_id content status time ∷ vault.rows;
      journal = journal;
    },
  )

abbrev pub or_old : Option String → String → String
or_old none old = old
or_old (some s) old = s

abbrev pub is_valid : (String → Bool) → Option String → Bool
is_valid p none = true
is_valid p (some s) = p s

abbrev pub update_row : String → String → String → ℕ → MemoryRow → MemoryRow
update_row id content status time row =
    if str_eq row.id id
    then record row { content = content; status = status; updated_at = time }
    else row

-- `Vault::update_memory`: what was current becomes history.
unfoldable pub update_memory :
    Vault → Stamp → ℕ → String → Option String → Option String → Result Error (Memory × Vault)
update_memory vault stamp time id content status = do
  ensure (is_valid check_content content) invalid_content
  ensure (is_valid valid_status status) invalid_status
  existing ← or_fail (find (λ (m : Memory). str_eq m.id id) (memories vault)) memory_not_found
  journal ← audit_on vault.journal stamp "memory_updated" (entity id)
  let after : Vault = record vault {
    rows =
        map (update_row id (or_old content existing.content) (or_old status existing.status) time)
          vault.rows;
    history =
        record {
          memory_id = id;
          content = existing.content;
          status = existing.status;
          recorded_at = time;
        }
        ∷ vault.history;
    journal = journal;
  }
  updated ← or_fail (find (λ (m : Memory). str_eq m.id id) (memories after)) memory_not_found
  ok (updated, after)

-- Deleting a memory deletes its history (ON DELETE CASCADE).
abbrev without_row : String → Vault → Vault
without_row id vault = record vault {
  rows = keep_if (λ (r : MemoryRow). not (str_eq r.id id)) vault.rows;
  history = keep_if (λ (h : HistoryRow). not (str_eq h.memory_id id)) vault.history;
}

-- A source that no memory refers to.
abbrev without_unused : String → Vault → Vault
without_unused source_id vault =
    if any (λ (r : MemoryRow). str_eq r.source_id source_id) vault.rows
    then vault
    else record vault {
      sources = keep_if (λ (s : Source). not (str_eq s.id source_id)) vault.sources;
    }

abbrev delete_found : Vault → Stamp → String → Option MemoryRow → Result Error (Bool × Vault)
delete_found vault stamp id none = ok (false, vault)
delete_found vault stamp id (some row) = do
  journal ← audit_on vault.journal stamp "memory_deleted" (entity id)
  ok (true, record (without_unused row.source_id (without_row id vault)) { journal = journal })

-- `Vault::delete_memory`
unfoldable pub delete_memory : Vault → Stamp → String → Result Error (Bool × Vault)
delete_memory vault stamp id =
    delete_found vault stamp id (find (λ (r : MemoryRow). str_eq r.id id) vault.rows)

-- The memories of a source, and the history of those, go with it.
abbrev pub has_source : String → MemoryRow → Bool
has_source id row = str_eq row.source_id id

abbrev of_source : String → List MemoryRow → String → Bool
of_source id rows memory_id = any (λ (r : MemoryRow). str_eq r.id memory_id && has_source id r) rows

abbrev without_source : String → Vault → Vault
without_source id vault = record vault {
  sources = keep_if (λ (s : Source). not (str_eq s.id id)) vault.sources;
  rows = keep_if (λ (r : MemoryRow). not (has_source id r)) vault.rows;
  history = keep_if (λ (h : HistoryRow). not (of_source id vault.rows h.memory_id)) vault.history;
}

abbrev delete_if : Vault → Stamp → String → Bool → Result Error (Bool × Vault)
delete_if vault stamp id false = ok (false, vault)
delete_if vault stamp id true = do
  journal ← audit_on vault.journal stamp "source_deleted" (entity id)
  ok (true, record (without_source id vault) { journal = journal })

-- `Vault::delete_source`
unfoldable pub delete_source : Vault → Stamp → String → Result Error (Bool × Vault)
delete_source vault stamp id =
    delete_if vault stamp id (any (λ (s : Source). str_eq s.id id) vault.sources)
