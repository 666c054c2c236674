-- ===== src/Core/Continuity/Replayed.antt =====
-- A request that is answered, saved and asked again.

-- A pruned store keeps a live conversation.

use omni_os.Core.Continuity.{
  Vault, some_injective, option_map, none, Conversation, Turn, Store, has_id, is_of, is_expired,
  goes_with, settle, grant_serves, conversation, prune_conversations,
}
use omni_os.Core.Continuity.Exchange.{
  is_none, begin_row, Asked, Reply, PreparedConversation, saved_row, clashes, turn_of, is_current,
  is_turn, is_same_talk, save_turn, finish_conversation, prepare_conversation, prepare_pruned,
  request_check,
}
use omni_os.Core.Continuity.Exchanged.{
  prepare_conversation-Planned, conversation-row, finish_conversation-Planned, row-conversation,
}
use omni_os.Core.Continuity.Rows.{find-holds, find-map}
use omni_os.Core.Continuity.Steps.{StoreReach-IsSound, StoreReach}
use omni_os.Core.Continuity.Prepared.{prepare_conversation-begun, HasBegun, fresh_of}
use omni_os.Core.Continuity.Talk.{IsSoundRow, IsSound}
use omni_os.Prelude.{
  ◌==◌, Bool-cases, le→leb, lt→leb_false, eq→==, ne→==_false, lt→ltb, any, keep_if, find, All,
  some_injective, ok, text_comparable, pair_comparable, beq_refl, ℕ, ◌+◌, ◌≤◌, ◌<◌, String, len,
  ◌≡◌, refl, sym, ap, ◌∙◌, subst, inl, inr, Bool, true, false, ◌&&◌, none, some, option_map, List,
  [], ◌∷◌, map, arith, str_eq,
}
use omni_os.Core.Audit.{Stamp, AuditRecord, audit_on}
use omni_os.Core.Vault.{entity}
use omni_os.Core.Continuity.Tables.{without_threads-kept, goes_with-selected}
use omni_os.Core.Continuity.Created.{prune_conversations-Refines}

pruned-kept :
    (s : Store) (now : ℕ) (id : String) (c : Conversation)
    → IsSound s id
    → find (has_id id) s.threads ≡ some c
    → now < c.expires_at
    → find (has_id id) (prune_conversations s now).threads ≡ some c
unfolding prune_conversations
pruned-kept s now id c sound found live =
    (without_threads-kept (is_expired now) s id c sound found
      (lt→leb_false c.expires_at now live)).0

pruned-IsSound :
    (s : Store) (now : ℕ) (id : String) → IsSound s id → IsSound (prune_conversations s now) id
pruned-IsSound s now id sound = (prune_conversations-Refines s now id sound).0

any-clashes :
    (new : Turn) (n : ℕ) (turns : List Turn)
    → new.position ≡ n + 1
    → All (λ (t : Turn). t.position ≤ n) (keep_if (is_of new.thread_id) turns)
    → All
        (λ (t : Turn). str_eq t.request_id new.request_id ≡ false)
        (keep_if (is_of new.thread_id) turns)
    → any (clashes new) turns ≡ false
any-clashes new n [] e ps qs = refl
any-clashes new n (t ∷ ts) e ps qs = elim (Bool-cases (is_of new.thread_id t)) [
  | inl own ↦
      let p = rw own at ps in
      let q = rw own at qs in
      let d : (t.position == new.position) ≡ false =
        ne→==_false t.position new.position (λ same. (let b = p.0 in omega (arith, e, same, b))) in
      rw (own, q.0, d) (any-clashes new n ts e p.1 q.1)
  | inr other ↦ rw other (any-clashes new n ts e (rw other at ps) (rw other at qs))
]

-- The store after a turn is saved.
abbrev saved : Store → List AuditRecord → ℕ → PreparedConversation → Reply → Store
saved s journal later p reply = record {
  threads = map (saved_row p.id) s.threads;
  turns = turn_of p reply later ∷ s.turns;
  vault = record s.vault { journal = journal };
}

save_turn-saved :
    (s : Store) (stamp : Stamp) (later : ℕ) (p : PreparedConversation) (reply : Reply)
    (journal : List AuditRecord)
    → any (clashes (turn_of p reply later)) s.turns ≡ false
    → audit_on s.vault.journal stamp "conversation_saved" (entity p.id) ≡ ok journal
    → save_turn s stamp later p reply ≡ ok (true, saved s journal later p reply)
unfolding save_turn
save_turn-saved s stamp later p reply journal free a = rw (free, a) refl

finish_conversation-current :
    (t : Store) (before now later : ℕ) (stamp : Stamp) (p : PreparedConversation) (reply : Reply)
    (c : Conversation)
    → conversation (prune_conversations t before) p.id ≡ ok c
    → is_current c p now ≡ true
    → len reply.text ≤ 100000
    → finish_conversation t before now later stamp p reply
      ≡ settle
          (prune_conversations t before)
          (save_turn (prune_conversations t before) stamp later p reply)
unfolding finish_conversation
finish_conversation-current t before now later stamp p reply c conv current short =
    rw (le→leb (len reply.text) 100000 short, conv, current) refl

prune-audit :
    (t : Store) (before : ℕ) (stamp : Stamp) (id : String) (journal : List AuditRecord)
    → audit_on t.vault.journal stamp "conversation_saved" (entity id) ≡ ok journal
    → audit_on (prune_conversations t before).vault.journal stamp "conversation_saved" (entity id)
      ≡ ok journal
unfolding prune_conversations
prune-audit t before stamp id journal a = a

-- The pending request of a live conversation is saved.
finish_conversation-saved :
    (t : Store) (before now later : ℕ) (stamp : Stamp) (p : PreparedConversation) (reply : Reply)
    (c : Conversation) (journal : List AuditRecord)
    → IsSound t p.id
    → find (has_id p.id) t.threads ≡ some c
    → c.pending_request ≡ some p.request_id
    → c.revision ≡ p.revision
    → len reply.text ≤ 100000
    → before < c.expires_at
    → now < c.expires_at
    → audit_on t.vault.journal stamp "conversation_saved" (entity p.id) ≡ ok journal
    → finish_conversation t before now later stamp p reply
      ≡ (saved (prune_conversations t before) journal later p reply, ok true)
finish_conversation-saved t before now later stamp p reply c journal sound found pending_ revision
      short live still a =
    let pruned = prune_conversations t before in
    let row = pruned-kept t before p.id c sound found live in
    let fine = pruned-IsSound t before p.id sound in
    let conv = row-conversation pruned p.id c fine row in
    let own = subst (IsSoundRow _) row fine.row in
    let free =
      any-clashes (turn_of p reply later) c.revision pruned.turns (ap (λ n. n + 1) (sym revision))
        own.0 (own.1 p.request_id pending_) in
    let current : is_current c p now ≡ true =
      rw
        (
          pending_,
          beq_refl p.request_id,
          eq→== c.revision p.revision revision,
          lt→ltb now c.expires_at still,
        )
        refl in
    finish_conversation-current t before now later stamp p reply c conv current short
    ∙ ap (settle pruned) (
        save_turn-saved pruned stamp later p reply journal free
          (prune-audit t before stamp p.id journal a))

-- The turn that stands first is found, while its thread lives.
pruned-turn :
    (s : Store) (now : ℕ) (c : Conversation) (new : Turn) (rest : List Turn)
    → s.turns ≡ new ∷ rest
    → IsSound s new.thread_id
    → find (has_id new.thread_id) s.threads ≡ some c
    → now < c.expires_at
    → find (is_turn new.thread_id new.request_id) (prune_conversations s now).turns ≡ some new
unfolding prune_conversations
pruned-turn s now c new rest e sound found live =
    let stays : goes_with (is_expired now) s.threads new ≡ false =
      goes_with-selected (is_expired now) new.thread_id s.threads c new sound.one found
        (beq_refl new.thread_id)
      ∙ lt→leb_false c.expires_at now live in
    rw (e, stays, beq_refl new.thread_id, beq_refl new.request_id) refl

-- The answer to a request that was saved.
abbrev answered : (String → String) → Asked → Reply → ℕ → PreparedConversation
answered hash request reply revision = record {
  id = request.id;
  request_id = request.request_id;
  hash = hash request.message;
  revision = request.revision;
  message = request.message;
  history = [];
  replay = some (record {
    reply = reply.text;
    receipt_id = reply.receipt;
    interaction_id = reply.interaction;
    provider_id = request.provider_id;
    model = request.model;
    conversation_id = request.id;
    conversation_revision = revision;
  });
}

prepare_conversation-answered :
    (hash to_lowercase : String → String) (is_uuid : String → Bool) (s : Store) (before now : ℕ)
    (request : Asked) (reply : Reply) (c : Conversation) (new : Turn)
    → request_check hash to_lowercase is_uuid request ≡ ok tt
    → conversation (prune_conversations s before) request.id ≡ ok c
    → is_same_talk c request ≡ true
    → grant_serves to_lowercase
        (prune_conversations s before).vault
        now
        request.grant
        request.destination
      ≡ ok tt
    → find (is_turn request.id request.request_id) (prune_conversations s before).turns ≡ some new
    → new.request_hash ≡ hash request.message
    → (new.assistant_text ≡ reply.text)
      × (new.receipt_id ≡ reply.receipt)
      × (new.interaction_id ≡ reply.interaction)
    → (prepare_conversation hash to_lowercase is_uuid s before now request).1
      ≡ ok (answered hash request reply c.revision)
unfolding prepare_conversation prepare_pruned
prepare_conversation-answered hash to_lowercase is_uuid s before now request reply c new fine conv
      same may found hashed (e1, e2, e3) =
    rw (fine, conv, same, may, found, hashed, beq_refl (hash request.message), e1, e2, e3) refl

-- The row of a request that began.
begun-row :
    (pruned t : Store) (request : Asked) (p : PreparedConversation) (d : Conversation)
    → IsSound pruned request.id
    → HasBegun pruned t request p d
    → find (has_id request.id) t.threads
      ≡ some (record d { pending_request = some request.request_id })
begun-row pruned t request p d sound b =
    let row = conversation-row pruned request.id d b.found sound in
    let key : (e : Conversation)
        → has_id request.id (begin_row request.id request.revision request.request_id e)
          ≡ has_id request.id e =
      λ e.
        elim (Bool-cases
          (has_id request.id e && (e.revision == request.revision && is_none e.pending_request))) [
            | inl a ↦ rw a refl
            | inr a ↦ rw a refl
          ] in
    ap (find (has_id request.id)) b.threads
    ∙ find-map (has_id request.id) _ pruned.threads key
    ∙ ap (option_map _) row
    ∙ rw
        (
          find-holds (has_id request.id) pruned.threads d row,
          eq→== d.revision request.revision b.current,
          b.idle,
        )
        refl

saved_row-hit :
    (id : String) (c : Conversation)
    → has_id id c ≡ true
    → saved_row id c ≡ record c { pending_request = none; revision = c.revision + 1 }
saved_row-hit id c hit = rw hit refl

saved-find :
    (s : Store) (journal : List AuditRecord) (later : ℕ) (p : PreparedConversation) (reply : Reply)
    (c : Conversation)
    → find (has_id p.id) s.threads ≡ some c
    → find (has_id p.id) (saved s journal later p reply).threads
      ≡ some (record c { pending_request = none; revision = c.revision + 1 })
saved-find s journal later p reply c row =
    let key : (e : Conversation) → has_id p.id (saved_row p.id e) ≡ has_id p.id e =
      λ e. elim (Bool-cases (has_id p.id e)) [ inl a ↦ rw a a | inr a ↦ rw a a ] in
    find-map (has_id p.id) _ s.threads key
    ∙ ap (option_map _) row
    ∙ ap some (saved_row-hit p.id c (find-holds (has_id p.id) s.threads c row))

abbrev with_journal : List AuditRecord → Vault → Vault
with_journal journal v = record v { journal = journal }

prune-vault : (s : Store) (now : ℕ) → (prune_conversations s now).vault ≡ s.vault
unfolding prune_conversations
prune-vault s now = refl

saved-answered :
    (hash to_lowercase : String → String) (is_uuid : String → Bool) (pruned t : Store)
    (request : Asked) (p : PreparedConversation) (d c : Conversation)
    (prune_at check_at save_at ask_at use_at : ℕ) (stamp : Stamp) (reply : Reply)
    (journal : List AuditRecord)
    → request_check hash to_lowercase is_uuid request ≡ ok tt
    → p ≡ fresh_of hash to_lowercase is_uuid pruned request
    → HasBegun pruned t request p d
    → record d { pending_request = some request.request_id } ≡ c
    → IsSound t request.id
    → len reply.text ≤ 100000
    → find (has_id request.id) t.threads ≡ some c
    → prune_at < c.expires_at
    → check_at < c.expires_at
    → ask_at < c.expires_at
    → audit_on t.vault.journal stamp "conversation_saved" (entity request.id) ≡ ok journal
    → grant_serves to_lowercase
        (record t.vault { journal = journal })
        use_at
        request.grant
        request.destination
      ≡ ok tt
    → ((finish_conversation t prune_at check_at save_at stamp p reply).1 ≡ ok true)
      × ((prepare_conversation hash to_lowercase is_uuid
            (finish_conversation t prune_at check_at save_at stamp p reply).0
            ask_at
            use_at
            request).1
          ≡ ok (answered hash request reply (request.revision + 1)))
saved-answered hash to_lowercase is_uuid pruned t request p d c prune_at check_at save_at ask_at
      use_at stamp reply journal fine e b c_of sound short row live still asks a may =
    let id_of : p.id ≡ request.id = ap (λ q. q.id) e in
    let request_of : p.request_id ≡ request.request_id = ap (λ q. q.request_id) e in
    let sound_p : IsSound t p.id = subst (IsSound t) (sym id_of) sound in
    let row_p : find (has_id p.id) t.threads ≡ some c =
      subst (λ i. find (has_id i) t.threads ≡ some c) (sym id_of) row in
    let pending_ : c.pending_request ≡ some p.request_id =
      ap (λ x. x.pending_request) (sym c_of) ∙ ap some (sym request_of) in
    let revision : c.revision ≡ request.revision = ap (λ x. x.revision) (sym c_of) ∙ b.current in
    let kept = prune_conversations t prune_at in
    let after = saved kept journal save_at p reply in
    let f =
      finish_conversation-saved t prune_at check_at save_at stamp p reply c journal sound_p row_p
        pending_ (revision ∙ ap (λ q. q.revision) (sym e)) short live still
        (subst (λ i. audit_on t.vault.journal stamp "conversation_saved" (entity i) ≡ ok journal)
          (sym id_of) a) in
    let sound_a : IsSound after p.id =
      subst (λ x. IsSound x p.id) (ap (λ x. x.0) f)
        ((finish_conversation-Planned t prune_at check_at save_at stamp p reply).2 p.id
          sound_p).0 in
    let next : Conversation = record c { pending_request = none; revision = c.revision + 1 } in
    let row_a =
      saved-find kept journal save_at p reply c
        (pruned-kept t prune_at p.id c sound_p row_p live) in
    let conv =
      row-conversation (prune_conversations after ask_at) p.id next
        (pruned-IsSound after ask_at p.id sound_a)
        (pruned-kept after ask_at p.id next sound_a row_a asks) in
    let turn =
      pruned-turn after ask_at next (turn_of p reply save_at) kept.turns refl sound_a row_a asks in
    let same : is_same_talk c request ≡ true =
      subst (λ x. is_same_talk x request ≡ true) c_of b.same in
    let vault_of : (prune_conversations after ask_at).vault ≡ record t.vault { journal = journal } =
      prune-vault after ask_at ∙ ap (with_journal journal) (prune-vault t prune_at) in
    (
      ap (λ x. x.1) f,
      ap (λ x. (prepare_conversation hash to_lowercase is_uuid x.0 ask_at use_at request).1) f
          ∙ prepare_conversation-answered hash to_lowercase is_uuid after ask_at use_at request
              reply next (turn_of p reply save_at) fine
              (subst (λ i. conversation (prune_conversations after ask_at) i ≡ ok next) id_of conv)
              same (rw vault_of may)
              (subst
                (λ i.
                  find (is_turn i request.request_id) (prune_conversations after ask_at).turns
                  ≡ some (turn_of p reply save_at))
                id_of
                (subst
                  (λ r.
                    find (is_turn p.id r) (prune_conversations after ask_at).turns
                    ≡ some (turn_of p reply save_at))
                  request_of turn))
              (ap (λ q. q.hash) e) (refl, refl, refl)
          ∙ ap (λ n. ok (answered hash request reply (n + 1))) revision,
    )

-- A request of a saved conversation that began is answered within the limit of 100000 bytes while its
-- conversation lives: then the exchange is saved, and when the same request is prepared again, while
-- the conversation lives and its grant still serves, the saved reply is the answer, under the next
-- revision, and nothing is sent. The record of the change is one that the journal accepts.
pub finish_conversation-prepare_conversation :
    (hash to_lowercase : String → String) (is_uuid : String → Bool) (empty s t : Store)
    (before now : ℕ) (request : Asked) (p : PreparedConversation)
    (prune_at check_at save_at ask_at use_at : ℕ) (stamp : Stamp) (reply : Reply) (c : Conversation)
    (journal : List AuditRecord)
    → empty.threads ≡ []
    → empty.turns ≡ []
    → StoreReach hash to_lowercase is_uuid empty s
    → prepare_conversation hash to_lowercase is_uuid s before now request ≡ (t, ok p)
    → p.replay ≡ none
    → len reply.text ≤ 100000
    → find (has_id request.id) t.threads ≡ some c
    → (prune_at < c.expires_at) × (check_at < c.expires_at) × (ask_at < c.expires_at)
    → audit_on t.vault.journal stamp "conversation_saved" (entity request.id) ≡ ok journal
    → grant_serves to_lowercase
        (record t.vault { journal = journal })
        use_at
        request.grant
        request.destination
      ≡ ok tt
    → ((finish_conversation t prune_at check_at save_at stamp p reply).1 ≡ ok true)
      × ((prepare_conversation hash to_lowercase is_uuid
            (finish_conversation t prune_at check_at save_at stamp p reply).0
            ask_at
            use_at
            request).1
          ≡ ok (answered hash request reply (request.revision + 1)))
finish_conversation-prepare_conversation hash to_lowercase is_uuid empty s t before now request p
      prune_at check_at save_at ask_at use_at stamp reply c journal ths ts reach h fresh short row
      (live, still, asks) a may =
    let (fine, e, (d, b)) =
      prepare_conversation-begun hash to_lowercase is_uuid s t before now request p h fresh in
    let sound = StoreReach-IsSound hash to_lowercase is_uuid empty s request.id ths ts reach in
    let sound_t : IsSound t request.id =
      subst (λ x. IsSound x request.id) (ap (λ x. x.0) h)
        ((prepare_conversation-Planned hash to_lowercase is_uuid s before now request).2 request.id
          sound).0 in
    let pruned = prune_conversations s before in
    let c_of : record d { pending_request = some request.request_id } ≡ c =
      some_injective _ c
        (sym (begun-row pruned t request p d (pruned-IsSound s before request.id sound) b) ∙ row) in
    saved-answered hash to_lowercase is_uuid pruned t request p d c prune_at check_at save_at ask_at
      use_at stamp reply journal fine e b c_of sound_t short row live still asks a may
