-- ===== src/Core/Continuity/Tests.antt =====
-- Saved conversations at concrete operations; the hash of a message is the message, and every text is
-- taken for a UUID.
use omni_os.Prelude.{
  ok, text_comparable, pair_comparable, trim, String, ◌≡◌, refl, ap, subst, Bool, true, none, some,
  List, [], ◌∷◌, arith,
}
use omni_os.Core.Audit.{
  Stamp, AuditRecord, Details, no_details, audit_on, valid_action, identifier, metric, level_of,
}
use omni_os.Core.Vault.{entity}
use omni_os.Core.Work.{label}
use omni_os.Core.Continuity.{
  Conversation, ConversationInput, Turn, Store, Drawn, create_conversation, insert_conversation,
  conversation, conversations, prune_conversations,
}
use omni_os.Core.Continuity.Exchange.{
  Asked, Reply, PreparedConversation, user, assistant, prepare_conversation, prepare_pruned,
  finish_conversation, save_turn, turns_of, history_of, fitting, messages,
}
use omni_os.Core.Continuity.Talk.{Op, Runs, view}
use omni_os.Core.Continuity.Steps.{
  StoreReach, here, next, creates, prepares, finishes, StandsFor, StoreStep, StoreStep-Runs,
}
use omni_os.Core.Continuity.Bounds.{IsWithin}
use omni_os.Core.Continuity.History.{
  IsLongest, IsLatestFirst, spoken, reversed, prepare_conversation-history,
}
use omni_os.Core.Continuity.Replayed.{finish_conversation-prepare_conversation}

abbrev same_text : String → String
same_text s = s

abbrev any_uuid : String → Bool
any_uuid s = true

abbrev stamp : String → Stamp
stamp id = record { fresh_id = id; time = 5 }

abbrev entry : String → String → Details → AuditRecord
entry id action details = record {
  id = id;
  created_at = 5;
  action = action;
  level = "info";
  details = details;
}

abbrev store_0 : Store
store_0 = record {
  threads = [];
  turns = [];
  vault = record {
    sources = [];
    rows = [];
    history = [];
    grant_rows = [];
    receipt_rows = [];
    journal = [];
  };
}

abbrev input : ConversationInput
input = record {
  title = "Trip";
  scope = "Travel";
  provider_id = "p";
  model = "m";
  grant_id = none;
  retention_days = 1;
  consent = true;
}

abbrev drawn : Drawn
drawn = record { id = "t1"; created = 100; now = 100 }

abbrev idle : Conversation
idle = record {
  id = "t1";
  title = "Trip";
  scope = "Travel";
  provider_id = "p";
  destination = "d";
  model = "m";
  grant_id = none;
  created_at = 100;
  expires_at = 86500;
  revision = 0;
  pending_request = none;
}

abbrev created_entry : AuditRecord
created_entry =
    entry "a1" "conversation_created"
      (record no_details { entity_id = some "t1"; retention_days = some 1 })

abbrev saved_entry : AuditRecord
saved_entry = entry "a2" "conversation_saved" (entity "t1")

abbrev store_1 : Store
store_1 = record store_0 {
  threads = idle ∷ [];
  vault = record store_0.vault { journal = created_entry ∷ [] };
}

step_1 :
    create_conversation same_text store_0 90 95 110 (stamp "a1") drawn input "d"
    ≡ (store_1, ok idle)
unfolding create_conversation insert_conversation conversation conversations prune_conversations
    label trim audit_on valid_action identifier metric level_of
step_1 = refl

abbrev question : Asked
question = record {
  id = "t1";
  request_id = "r1";
  revision = 0;
  provider_id = "p";
  destination = "d";
  model = "m";
  grant = none;
  message = "Where to?";
}

abbrev prepared : PreparedConversation
prepared = record {
  id = "t1";
  request_id = "r1";
  hash = "Where to?";
  revision = 0;
  message = "Where to?";
  history = [];
  replay = none;
}

abbrev asking : Conversation
asking = record idle { pending_request = some "r1" }

abbrev store_2 : Store
store_2 = record store_1 { threads = asking ∷ [] }

step_2 :
    prepare_conversation same_text same_text any_uuid store_1 200 200 question
    ≡ (store_2, ok prepared)
unfolding prepare_conversation prepare_pruned conversation conversations prune_conversations trim
    turns_of history_of fitting messages
step_2 = refl

abbrev reply : Reply
reply = record { text = "Norway"; receipt = none; interaction = "i1" }

abbrev turn : Turn
turn = record {
  thread_id = "t1";
  request_id = "r1";
  request_hash = "Where to?";
  user_text = "Where to?";
  assistant_text = "Norway";
  receipt_id = none;
  interaction_id = "i1";
  created_at = 300;
  position = 1;
}

abbrev store_3 : Store
store_3 = record {
  threads = record idle { revision = 1 } ∷ [];
  turns = turn ∷ [];
  vault = record store_0.vault { journal = saved_entry ∷ created_entry ∷ [] };
}

step_3 : finish_conversation store_2 300 300 300 (stamp "a2") prepared reply ≡ (store_3, ok true)
unfolding finish_conversation save_turn conversation conversations prune_conversations audit_on
    valid_action identifier metric level_of
step_3 = refl

reached_1 : StoreReach same_text same_text any_uuid store_0 store_1
reached_1 =
    subst (StoreReach same_text same_text any_uuid store_0) (ap (λ x. x.0) step_1)
      (next here (creates 90 95 110 (stamp "a1") drawn input "d"))

reached_2 : StoreReach same_text same_text any_uuid store_0 store_2
reached_2 =
    subst (StoreReach same_text same_text any_uuid store_0) (ap (λ x. x.0) step_2)
      (next reached_1 (prepares 200 200 question))

abbrev saving :
    StoreStep same_text same_text any_uuid store_2
      (finish_conversation store_2 300 300 300 (stamp "a2") prepared reply).0
saving = finishes 300 300 300 (stamp "a2") prepared reply

StoreStep-Runs_example :
    (ops : List Op) × StandsFor same_text same_text any_uuid store_2
      (finish_conversation store_2 300 300 300 (stamp "a2") prepared reply).0
      saving
      ops
    × ((id : String)
        → Runs ops id
            (view store_2 id)
            (view (finish_conversation store_2 300 300 300 (stamp "a2") prepared reply).0 id)
          × IsWithin
              (view (finish_conversation store_2 300 300 300 (stamp "a2") prepared reply).0 id))
StoreStep-Runs_example =
    StoreStep-Runs same_text same_text any_uuid store_0 store_2
      (finish_conversation store_2 300 300 300 (stamp "a2") prepared reply).0 refl refl reached_2
      saving

abbrev second : Asked
second = record question { request_id = "r2"; revision = 1; message = "When?" }

abbrev prepared_2 : PreparedConversation
prepared_2 = record {
  id = "t1";
  request_id = "r2";
  hash = "When?";
  revision = 1;
  message = "When?";
  history =
      record { role = user; content = "Where to?" }
      ∷ record { role = assistant; content = "Norway" }
      ∷ [];
  replay = none;
}

abbrev store_4 : Store
store_4 = record store_3 {
  threads = record idle { revision = 1; pending_request = some "r2" } ∷ [];
}

step_4 :
    prepare_conversation same_text same_text any_uuid store_3 400 400 second
    ≡ (store_4, ok prepared_2)
unfolding prepare_conversation prepare_pruned conversation conversations prune_conversations trim
    turns_of history_of fitting messages
step_4 = refl

prepare_conversation-history_example :
    (turns : List Turn) × (xs : List Turn) × IsLatestFirst
      (prune_conversations store_3 400).turns
      "t1"
      turns
    × IsLongest 10 40000 turns xs
    × (prepared_2.history ≡ spoken (reversed xs))
prepare_conversation-history_example =
    prepare_conversation-history same_text same_text any_uuid store_3 store_4 400 400 second
      prepared_2 step_4 refl

step_3_recorded :
    audit_on store_2.vault.journal (stamp "a2") "conversation_saved" (entity "t1")
    ≡ ok (saved_entry ∷ created_entry ∷ [])
unfolding audit_on valid_action identifier metric level_of
step_3_recorded = refl

finish_conversation-prepare_conversation_example :
    ((finish_conversation store_2 300 300 300 (stamp "a2") prepared reply).1 ≡ ok true)
    × ((prepare_conversation same_text same_text any_uuid
          (finish_conversation store_2 300 300 300 (stamp "a2") prepared reply).0
          400
          400
          question).1
        ≡ ok (record prepared {
          replay = some (record {
            reply = "Norway";
            receipt_id = none;
            interaction_id = "i1";
            provider_id = "p";
            model = "m";
            conversation_id = "t1";
            conversation_revision = 1;
          });
        }))
finish_conversation-prepare_conversation_example =
    finish_conversation-prepare_conversation same_text same_text any_uuid store_0 store_1 store_2
      200 200 question prepared 300 300 300 400 400 (stamp "a2") reply asking
      (saved_entry ∷ created_entry ∷ []) refl refl reached_1 step_2 refl (omega arith) refl
      (omega arith, omega arith, omega arith) step_3_recorded refl
