-- ===== src/Core/Continuity.antt =====
-- Saved conversations, crates/omni-core/src/continuity.rs: the tables of threads and of their turns
-- beside the vault. Expired threads are removed by most operations before their transaction begins, so
-- an operation returns the store after it in any case, with its result. A revision is a natural number;
-- a negative one in a request equals none that is stored.
pub mod Bounds
pub mod Created
pub mod Exchange
pub mod Exchanged
pub mod History
pub mod Inserts
pub mod Prepared
pub mod Replayed
pub mod Rows
pub mod Tables
pub mod Talk
mod Tests
pub mod Updates
pub mod Steps
use omni_os.Prelude.{
  ltb, leb, ◌==◌, if◌then◌else◌, ==_iff, Bool-cases, Option-cases, le→leb, lt→leb_false, leb→le,
  ltb→lt, eq→==, ne→==_false, lt→ltb, le→ltb_false, length, get_or, set, take, drop, replicate, all,
  any, keep_if, find, length-append, length-keep_if, replicate-add, All, ensure, or_fail, ◌>>=◌,
  ◌>>◌, ensure-eq-ok, >>=-eq-ok, Result-cases, ok_injective, or_fail-eq-ok, some_injective, Result,
  ok, err, text_comparable, pair_beq, pair_beq_iff, pair_comparable, beq_refl, lookup, contains,
  insert, retain, lookup-insert_self, lookup-insert_ne, lookup-retain, one_of, is_whitespace,
  is_control, is_ascii_alphanumeric, all_chars, any_char, is_empty, trim_start, trim_end, trim,
  to_ascii_lowercase, starts_with, contains_text, after_last, ℕ, zero, suc, ◌+◌, ◌-◌, ◌*◌, ◌/◌, ◌%◌,
  ◌^◌, ◌≤◌, ◌<◌, min, max, code, String, len, ◌≡◌, refl, sym, ap, ◌∙◌, subst, ◌≢◌, ◌↔◌, ◌⊎◌, inl,
  inr, Bool, true, false, not, ◌&&◌, ◌||◌, Option, none, some, option_map, List, [], ◌∷◌, ◌++◌, map,
  arith, str_eq, eq_iff,
}
use omni_os.Core.Errors.{
  Error, constraint_failed, consent_required, retention_range, too_many_conversations,
  conversation_missing, pending_changed,
}
use omni_os.Core.Audit.{Stamp, some_and, no_details, audit_on}
use omni_os.Core.Vault.{Vault, sort_by, entity}
use omni_os.Core.Vault.Context.{context, text_leb}
use omni_os.Core.Work.{label}

-- A row of `continuity_threads`.
pub record Conversation : Type 0 where
  pub id : String
  pub title : String
  pub scope : String
  pub provider_id : String
  pub destination : String
  pub model : String
  pub grant_id : Option String
  pub created_at : ℕ
  pub expires_at : ℕ
  pub revision : ℕ
  pub pending_request : Option String

pub record ConversationInput : Type 0 where
  pub title : String
  pub scope : String
  pub provider_id : String
  pub model : String
  pub grant_id : Option String
  pub retention_days : ℕ
  pub consent : Bool

-- A row of `continuity_turns`.
pub record Turn : Type 0 where
  pub thread_id : String
  pub request_id : String
  pub request_hash : String
  pub user_text : String
  pub assistant_text : String
  pub receipt_id : Option String
  pub interaction_id : String
  pub created_at : ℕ
  pub position : ℕ

pub record Store : Type 0 where
  pub threads : List Conversation
  pub turns : List Turn
  pub vault : Vault

abbrev pub has_id : String → Conversation → Bool
has_id id c = str_eq c.id id

abbrev pub is_of : String → Turn → Bool
is_of id t = str_eq t.thread_id id

-- Threads without those that a test selects; their turns go with them (ON DELETE CASCADE).
abbrev pub goes_with : (Conversation → Bool) → List Conversation → Turn → Bool
goes_with gone threads t = any (λ (c : Conversation). gone c && str_eq c.id t.thread_id) threads

abbrev pub without_threads : (Conversation → Bool) → Store → Store
without_threads gone store = record store {
  threads = keep_if (λ (c : Conversation). not (gone c)) store.threads;
  turns = keep_if (λ (t : Turn). not (goes_with gone store.threads t)) store.turns;
}

abbrev pub is_expired : ℕ → Conversation → Bool
is_expired now c = leb c.expires_at now

-- `Vault::prune_conversations`
unfoldable pub prune_conversations : Store → ℕ → Store
prune_conversations store now = without_threads (is_expired now) store

-- `ORDER BY created_at DESC, id`
abbrev newest_first : Conversation → Conversation → Bool
newest_first a b =
    ltb b.created_at a.created_at || (a.created_at == b.created_at && text_leb a.id b.id)

-- What `Vault::conversations` returns of a store that was pruned.
unfoldable pub conversations : Store → List Conversation
conversations store = sort_by newest_first store.threads

-- What `Vault::conversation` returns of a store that was pruned.
unfoldable pub conversation : Store → String → Result Error Conversation
conversation store id = or_fail (find (has_id id) (conversations store)) conversation_missing

-- The store after an operation, and its result: a failure leaves the store given.
abbrev pub settle {ℓ} : {A : Type ℓ} → Store → Result Error (A × Store) → Store × Result Error A
settle store (err e) = (store, err e)
settle store (ok (a, after)) = (after, ok a)

-- Checks before an operation touches the store.
abbrev pub after_check {ℓ} :
    {A : Type ℓ} → Store → Result Error (Unit {0}) → Store × Result Error A → Store × Result Error A
after_check store (err e) rest = (store, err e)
after_check store (ok done) rest = rest

-- What the code draws for a conversation: a random id and two readings of the clock.
pub record Drawn : Type 0 where
  pub id : String
  pub created : ℕ
  pub now : ℕ

abbrev pub thread_of : Drawn → ConversationInput → String → String → String → String → Conversation
thread_of drawn input destination title scope model = record {
  id = drawn.id;
  title = title;
  scope = scope;
  provider_id = input.provider_id;
  destination = destination;
  model = model;
  grant_id = input.grant_id;
  created_at = drawn.created;
  expires_at = drawn.now + input.retention_days * 86400;
  revision = 0;
  pending_request = none;
}

module _ (to_lowercase : String → String) where
  -- The use of a grant at a time, where there is one.
  abbrev pub grant_serves : Vault → ℕ → Option String → String → Result Error (Unit {0})
  grant_serves vault now none destination = ok tt
  grant_serves vault now (some grant) destination = do
    ms ← context to_lowercase vault now grant destination none
    ok tt

  -- The checks and the transaction of `Vault::create_conversation`, on the pruned store.
  unfoldable pub insert_conversation :
      Store → ℕ → Stamp → Drawn → ConversationInput → String → Result Error (Unit {0} × Store)
  insert_conversation store now stamp drawn input destination = do
    ensure (ltb (length (conversations store)) 64) too_many_conversations
    done ← grant_serves store.vault now input.grant_id destination
    title ← label input.title
    scope ← label input.scope
    model ← label input.model
    ensure (not (any (has_id drawn.id) store.threads)) constraint_failed
    journal ← audit_on store.vault.journal stamp "conversation_created" (record no_details {
      entity_id = some drawn.id;
      retention_days = some input.retention_days;
    })
    ok (
      tt,
      record store {
        threads = thread_of drawn input destination title scope model ∷ store.threads;
        vault = record store.vault { journal = journal };
      },
    )

  abbrev read_back :
      String → ℕ → Store × Result Error (Unit {0}) → Store × Result Error Conversation
  read_back id later (store, err e) = (store, err e)
  read_back id later (store, ok done) =
      let after = prune_conversations store later in (after, conversation after id)

  abbrev input_check : ConversationInput → Result Error (Unit {0})
  input_check input = do
    ensure input.consent consent_required
    ensure (leb 1 input.retention_days && leb input.retention_days 30) retention_range

  -- `Vault::create_conversation`: at `before` the expired conversations go, at `now` the grant is used,
  -- at `later` the new one is read back.
  unfoldable pub create_conversation :
      Store
      → ℕ
      → ℕ
      → ℕ
      → Stamp
      → Drawn
      → ConversationInput
      → String
      → Store × Result Error Conversation
  create_conversation store before now later stamp drawn input destination =
      after_check store (input_check input) (
        let pruned = prune_conversations store before in
        read_back drawn.id later
          (settle pruned (insert_conversation pruned now stamp drawn input destination)))

abbrev delete_thread : Store → Stamp → String → Bool → Result Error (Bool × Store)
delete_thread store stamp id false = ok (false, store)
delete_thread store stamp id true = do
  journal ← audit_on store.vault.journal stamp "conversation_deleted" (entity id)
  ok (
    true,
    record (without_threads (has_id id) store) { vault = record store.vault { journal = journal } },
  )

-- `Vault::delete_conversation`
unfoldable pub delete_conversation : Store → Stamp → String → Store × Result Error Bool
delete_conversation store stamp id =
    settle store (delete_thread store stamp id (any (has_id id) store.threads))

abbrev pub awaits : String → String → Conversation → Bool
awaits id request c = has_id id c && some_and (str_eq request) c.pending_request

abbrev pub clear_row : String → String → Conversation → Conversation
clear_row id request c =
    if awaits id request c
    then record c { pending_request = none; revision = c.revision + 1 }
    else c

abbrev clear_found : Store → String → String → Bool → Store × Result Error (Unit {0})
clear_found store id request false = (store, err pending_changed)
clear_found store id request true =
    (record store { threads = map (clear_row id request) store.threads }, ok tt)

-- `Vault::clear_conversation_attempt`; an id is in one row at most.
unfoldable pub clear_conversation_attempt :
    Store → String → String → Store × Result Error (Unit {0})
clear_conversation_attempt store id request =
    clear_found store id request (any (awaits id request) store.threads)
