-- ===== src/Core/Continuity/Exchange.antt =====
-- One exchange of a saved conversation: `prepare_conversation` and `finish_conversation` of
-- crates/omni-core/src/continuity.rs. `Uuid::parse_str` and SHA-256 in hex are parameters.
use omni_os.Prelude.{
  ltb, leb, ◌==◌, if◌then◌else◌, take, any, keep_if, find, ensure, ◌>>=◌, ◌>>◌, Result, ok, err,
  text_comparable, pair_comparable, is_empty, trim, ℕ, ◌+◌, ◌-◌, String, len, Bool, true, false,
  not, ◌&&◌, ◌||◌, Option, none, some, List, [], ◌∷◌, ◌++◌, map, str_eq,
}
use omni_os.Core.Errors.{
  Error, constraint_failed, bad_request_id, message_size, other_conversation, request_reused,
  request_pending, conversation_changed, conversation_full, reply_too_long,
}
use omni_os.Core.Audit.{Stamp, some_and, audit_on}
use omni_os.Core.Vault.{sort_by, entity}
use omni_os.Core.Continuity.{
  Conversation, Turn, Store, has_id, is_of, prune_conversations, conversation, settle, after_check,
  grant_serves,
}

pub data Role : Type 0 where
  user assistant : Role

pub record Message : Type 0 where
  pub role : Role
  pub content : String

-- The answer to a request that was already answered.
pub record Replay : Type 0 where
  pub reply : String
  pub receipt_id : Option String
  pub interaction_id : String
  pub provider_id : String
  pub model : String
  pub conversation_id : String
  pub conversation_revision : ℕ

pub record PreparedConversation : Type 0 where
  pub id : String
  pub request_id : String
  pub hash : String
  pub revision : ℕ
  pub message : String
  pub history : List Message
  pub replay : Option Replay

-- What `prepare_conversation` is asked.
pub record Asked : Type 0 where
  pub id : String
  pub request_id : String
  pub revision : ℕ
  pub provider_id : String
  pub destination : String
  pub model : String
  pub grant : Option String
  pub message : String

abbrev text_beq : Option String → Option String → Bool
text_beq none none = true
text_beq (some a) (some b) = str_eq a b
text_beq a b = false

abbrev pub is_same_talk : Conversation → Asked → Bool
is_same_talk c request =
    str_eq c.provider_id request.provider_id
    && (str_eq c.destination request.destination
        && (str_eq c.model request.model && text_beq c.grant_id request.grant))

abbrev pub is_turn : String → String → Turn → Bool
is_turn id request_id t = is_of id t && str_eq t.request_id request_id

abbrev pub later_first : Turn → Turn → Bool
later_first a b = leb b.position a.position

-- The turns of a conversation, the latest first.
unfoldable pub turns_of : Store → String → List Turn
turns_of store id = sort_by later_first (keep_if (is_of id) store.turns)

-- The pairs that fit the budget: the loop ends at the first that does not.
unfoldable pub fitting : ℕ → List Turn → List Turn
fitting budget [] = []
fitting budget (t ∷ ts) =
    let size = len t.user_text + len t.assistant_text in
    let rest = fitting (budget - size) ts in if ltb budget size then [] else t ∷ rest

-- The pairs in reverse, each as two messages.
unfoldable pub messages : List Turn → List Message
messages [] = []
messages (t ∷ ts) =
    messages ts
    ++ (record { role = user; content = t.user_text }
        ∷ record { role = assistant; content = t.assistant_text }
        ∷ [])

unfoldable pub history_of : Store → String → List Message
history_of store id = messages (fitting 40000 (take 10 (turns_of store id)))

abbrev pub is_none {ℓ} : {A : Type ℓ} → Option A → Bool
is_none none = true
is_none (some a) = false

abbrev pub begin_row : String → ℕ → String → Conversation → Conversation
begin_row id revision request_id c =
    if has_id id c && (c.revision == revision && is_none c.pending_request)
    then record c { pending_request = some request_id }
    else c

module _ (hash : String → String) where
  abbrev prepared_of : Asked → List Message → Option Replay → PreparedConversation
  prepared_of request history replay = record {
    id = request.id;
    request_id = request.request_id;
    hash = hash request.message;
    revision = request.revision;
    message = request.message;
    history = history;
    replay = replay;
  }

  -- A request that was answered is replayed, a new one begins.
  abbrev pub prepare_from :
      Store → Asked → Conversation → Option Turn → Result Error (PreparedConversation × Store)
  prepare_from store request c (some t) = do
    ensure (str_eq t.request_hash (hash request.message)) request_reused
    let replay : Replay = record {
      reply = t.assistant_text;
      receipt_id = t.receipt_id;
      interaction_id = t.interaction_id;
      provider_id = request.provider_id;
      model = request.model;
      conversation_id = request.id;
      conversation_revision = c.revision;
    }
    ok (prepared_of request [] (some replay), store)
  prepare_from store request c none = do
    ensure (is_none c.pending_request) request_pending
    ensure (c.revision == request.revision) conversation_changed
    ensure (ltb request.revision 100) conversation_full
    ok (
      prepared_of request (history_of store request.id) none,
      record store {
        threads = map (begin_row request.id request.revision request.request_id) store.threads;
      },
    )

  module _ (to_lowercase : String → String) (is_uuid : String → Bool) where
    abbrev pub request_check : Asked → Result Error (Unit {0})
    request_check request = do
      ensure (is_uuid request.request_id) bad_request_id
      ensure (not (is_empty (trim request.message)) && leb (len request.message) 60000) message_size

    -- The rest of it, on the pruned store.
    unfoldable pub prepare_pruned : Store → ℕ → Asked → Result Error (PreparedConversation × Store)
    prepare_pruned store now request = do
      c ← conversation store request.id
      ensure (is_same_talk c request) other_conversation
      done ← grant_serves to_lowercase store.vault now request.grant request.destination
      prepare_from store request c (find (is_turn request.id request.request_id) store.turns)

    -- `Vault::prepare_conversation`: at `before` the expired conversations go, at `now` the grant is
    -- used.
    unfoldable pub prepare_conversation :
        Store → ℕ → ℕ → Asked → Store × Result Error PreparedConversation
    prepare_conversation store before now request = after_check store (request_check request) (
        let pruned = prune_conversations store before in
        settle pruned (prepare_pruned pruned now request))

-- What the provider answered.
pub record Reply : Type 0 where
  pub text : String
  pub receipt : Option String
  pub interaction : String

abbrev pub turn_of : PreparedConversation → Reply → ℕ → Turn
turn_of prepared reply now = record {
  thread_id = prepared.id;
  request_id = prepared.request_id;
  request_hash = prepared.hash;
  user_text = prepared.message;
  assistant_text = reply.text;
  receipt_id = reply.receipt;
  interaction_id = reply.interaction;
  created_at = now;
  position = prepared.revision + 1;
}

abbrev pub saved_row : String → Conversation → Conversation
saved_row id c =
    if has_id id c then record c { pending_request = none; revision = c.revision + 1 } else c

-- A row with the same thread and the same request or the same position.
abbrev pub clashes : Turn → Turn → Bool
clashes new t =
    str_eq t.thread_id new.thread_id
    && (str_eq t.request_id new.request_id || t.position == new.position)

-- The transaction of `Vault::finish_conversation`.
unfoldable pub save_turn :
    Store → Stamp → ℕ → PreparedConversation → Reply → Result Error (Bool × Store)
save_turn store stamp now prepared reply = do
  let new : Turn = turn_of prepared reply now
  ensure (not (any (clashes new) store.turns)) constraint_failed
  journal ← audit_on store.vault.journal stamp "conversation_saved" (entity prepared.id)
  ok (
    true,
    record {
      threads = map (saved_row prepared.id) store.threads;
      turns = new ∷ store.turns;
      vault = record store.vault { journal = journal };
    },
  )

abbrev pub is_current : Conversation → PreparedConversation → ℕ → Bool
is_current c prepared now =
    some_and (str_eq prepared.request_id) c.pending_request
    && (c.revision == prepared.revision && ltb now c.expires_at)

abbrev pub finish_if :
    Store → Stamp → ℕ → PreparedConversation → Reply → Bool → Result Error (Bool × Store)
finish_if store stamp now prepared reply false = ok (false, store)
finish_if store stamp now prepared reply true = save_turn store stamp now prepared reply

abbrev pub finish_found :
    Store
    → Stamp
    → ℕ
    → ℕ
    → PreparedConversation
    → Reply
    → Result Error Conversation
    → Result Error (Bool × Store)
finish_found store stamp now later prepared reply (err e) = ok (false, store)
finish_found store stamp now later prepared reply (ok c) =
    finish_if store stamp later prepared reply (is_current c prepared now)

-- `Vault::finish_conversation`: at `before` the expired conversations go, at `now` the lifetime is read
-- again, at `later` the turn is stored.
unfoldable pub finish_conversation :
    Store → ℕ → ℕ → ℕ → Stamp → PreparedConversation → Reply → Store × Result Error Bool
finish_conversation store before now later stamp prepared reply =
    after_check store (ensure (leb (len reply.text) 100000) reply_too_long) (
      let pruned = prune_conversations store before in
      settle pruned
        (finish_found pruned stamp now later prepared reply (conversation pruned prepared.id)))
