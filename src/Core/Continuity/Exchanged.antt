-- ===== src/Core/Continuity/Exchanged.antt =====
-- Preparing and finishing an exchange, against the abstract talk.
use omni_os.Prelude.{
  Option-cases, find, ensure-eq-ok, >>=-eq-ok, or_fail-eq-ok, Result, ok, err, text_comparable,
  pair_comparable, ℕ, ◌+◌, String, ◌≡◌, refl, sym, ap, ◌∙◌, subst, ◌⊎◌, inl, inr, Bool, true, false,
  Option, none, some, List, [], ◌∷◌, map, arith, str_eq, eq_iff,
}
use omni_os.Core.Errors.{Error, conversation_missing, other_conversation}
use omni_os.Core.Audit.{Stamp}
use omni_os.Core.Continuity.{
  Conversation, Turn, Store, has_id, prune_conversations, conversations, conversation, grant_serves,
  newest_first,
}
use omni_os.Core.Continuity.Exchange.{
  Asked, Reply, PreparedConversation, prepare_from, prepare_pruned, prepare_conversation, begin_row,
  saved_row, save_turn, finish_if, finish_found, finish_conversation, is_current, is_turn,
  is_same_talk, turn_of, is_none, Replay,
}
use omni_os.Core.Continuity.Rows.{find-sort_by}
use omni_os.Core.Continuity.Talk.{
  Op, expires, begins, saves, pair_of, Refines, Refines-trans, IsSound,
}
use omni_os.Core.Continuity.Tables.{Refines-tables}
use omni_os.Core.Continuity.Updates.{begin_row-Refines}
use omni_os.Core.Continuity.Inserts.{save-Refines}
use omni_os.Core.Continuity.Created.{Planned, after_check-Planned, settle-Planned, pruned-Planned}

-- A request that is prepared begins, or is replayed; one that fails has done nothing, or expired talks
-- are gone.
abbrev begun_ops : Asked → Option Replay → List Op
begun_ops request none = begins request.id request.revision request.request_id ∷ []
begun_ops request (some replay) = []

abbrev pub Prepares : ℕ → Asked → Result Error PreparedConversation → List Op → Type 0
Prepares before request (err e) ops = (ops ≡ []) ⊎ (ops ≡ expires before ∷ [])
Prepares before request (ok p) ops = ops ≡ expires before ∷ begun_ops request p.replay

-- A reply is saved, or dropped.
abbrev pub Finishes : ℕ → PreparedConversation → Reply → Result Error Bool → List Op → Type 0
Finishes before prepared reply (err e) ops = (ops ≡ []) ⊎ (ops ≡ expires before ∷ [])
Finishes before prepared reply (ok false) ops = ops ≡ expires before ∷ []
Finishes before prepared reply (ok true) ops =
    ops
    ≡ expires before
      ∷ saves prepared.id prepared.revision
          (record { request = prepared.request_id; human = prepared.message; model = reply.text })
      ∷ []

-- What `conversation` returns is the row with the id.
pub conversation-row :
    (s : Store) (id : String) (c : Conversation)
    → conversation s id ≡ ok c
    → IsSound s id
    → find (has_id id) s.threads ≡ some c
unfolding conversation conversations
conversation-row s id c h sound =
    sym (find-sort_by newest_first (has_id id) s.threads sound.one)
    ∙ or_fail-eq-ok (find (has_id id) (conversations s)) conversation_missing c h

pub row-conversation :
    (s : Store) (id : String) (c : Conversation)
    → IsSound s id
    → find (has_id id) s.threads ≡ some c
    → conversation s id ≡ ok c
unfolding conversation conversations
row-conversation s id c sound found =
    rw (find-sort_by newest_first (has_id id) s.threads sound.one ∙ found) refl

is_none-eq : (a : Option String) → is_none a ≡ true → a ≡ none
is_none-eq none h = refl
is_none-eq (some s) h = cc

prepare_from-Planned :
    (hash : String → String) (s t : Store) (before : ℕ) (request : Asked) (c : Conversation)
    (prepared : PreparedConversation) (found : Option Turn)
    → (IsSound s request.id → find (has_id request.id) s.threads ≡ some c)
    → find (is_turn request.id request.request_id) s.turns ≡ found
    → prepare_from hash s request c found ≡ ok (prepared, t)
    → (ops : List Op) × Prepares before request (ok prepared) (expires before ∷ ops)
      × Refines ops s t
prepare_from-Planned hash s t before request c prepared none row absent h =
    let mid : Store = record s {
      threads = map (begin_row request.id request.revision request.request_id) s.threads;
    } in
    let op = begins request.id request.revision request.request_id in
    let fresh_ : none ≡ prepared.replay = ground arith in
    (
      op ∷ [],
      ap (λ r. expires before ∷ begun_ops request r) fresh_,
      Refines-trans (op ∷ []) [] s mid t
          (begin_row-Refines request.id request.request_id request.revision c s row (ground arith)
            (is_none-eq c.pending_request (ground arith)) (ground arith) absent)
          (Refines-tables mid t (ground arith) (ground arith)),
    )
prepare_from-Planned hash s t before request c prepared (some u) row found h =
    let e : some (record {
      reply = u.assistant_text;
      receipt_id = u.receipt_id;
      interaction_id = u.interaction_id;
      provider_id = request.provider_id;
      model = request.model;
      conversation_id = request.id;
      conversation_revision = c.revision;
    })
        ≡ prepared.replay =
      ground arith in
    (
      [],
      ap (λ r. expires before ∷ begun_ops request r) e,
      Refines-tables s t (ground arith) (ground arith),
    )

prepare_pruned-Planned :
    (hash to_lowercase : String → String) (is_uuid : String → Bool) (s t : Store) (before now : ℕ)
    (request : Asked) (prepared : PreparedConversation)
    → prepare_pruned hash to_lowercase is_uuid s now request ≡ ok (prepared, t)
    → (ops : List Op) × Prepares before request (ok prepared) (expires before ∷ ops)
      × Refines ops s t
unfolding prepare_pruned
prepare_pruned-Planned hash to_lowercase is_uuid s t before now request prepared h =
    let (c, a, h1) = >>=-eq-ok (conversation s request.id) _ h in
    let (same, h2) = ensure-eq-ok (is_same_talk c request) other_conversation _ h1 in
    let (done, b, h3) =
      >>=-eq-ok (grant_serves to_lowercase s.vault now request.grant request.destination) _ h2 in
    prepare_from-Planned hash s t before request c prepared _ (conversation-row s request.id c a)
      refl h3

pub prepare_conversation-Planned :
    (hash to_lowercase : String → String) (is_uuid : String → Bool) (s : Store) (before now : ℕ)
    (request : Asked)
    → Planned
        (Prepares before request)
        s
        (prepare_conversation hash to_lowercase is_uuid s before now request)
unfolding prepare_conversation
prepare_conversation-Planned hash to_lowercase is_uuid s before now request =
    let pruned = prune_conversations s before in
    after_check-Planned (Prepares before request) s _ _ (λ e. inl refl)
      (pruned-Planned (Prepares before request) s before _ (
        settle-Planned (λ r ops. Prepares before request r (expires before ∷ ops)) pruned _
          (λ e. inr refl)
          (λ p t h.
            prepare_pruned-Planned hash to_lowercase is_uuid pruned t before now request p h)))

save_turn-Planned :
    (s t : Store) (stamp : Stamp) (before now : ℕ) (prepared : PreparedConversation) (reply : Reply)
    (c : Conversation) (b : Bool)
    → (IsSound s prepared.id → find (has_id prepared.id) s.threads ≡ some c)
    → c.pending_request ≡ some prepared.request_id
    → c.revision ≡ prepared.revision
    → save_turn s stamp now prepared reply ≡ ok (b, t)
    → (ops : List Op) × Finishes before prepared reply (ok b) (expires before ∷ ops)
      × Refines ops s t
unfolding save_turn
save_turn-Planned s t stamp before now prepared reply c b found pending_ revision h =
    let new = turn_of prepared reply now in
    let mid : Store = record s {
      threads = map (saved_row prepared.id) s.threads;
      turns = new ∷ s.turns;
    } in
    let e : true ≡ b = ground arith in
    let op = saves prepared.id prepared.revision (pair_of new) in
    (
      op ∷ [],
      subst (λ x. Finishes before prepared reply (ok x) (expires before ∷ op ∷ [])) e refl,
      Refines-trans (op ∷ []) [] s mid t
          (subst (λ n. Refines (saves prepared.id n (pair_of new) ∷ []) s mid) revision
            (save-Refines new c s found pending_ (ap (λ n. n + 1) (sym revision))))
          (Refines-tables mid t (ground arith) (ground arith)),
    )

pub is_current-pending :
    (c : Conversation) (prepared : PreparedConversation) (now : ℕ)
    → is_current c prepared now ≡ true
    → (c.pending_request ≡ some prepared.request_id) × (c.revision ≡ prepared.revision)
is_current-pending c prepared now h = elim (Option-cases c.pending_request) [
  | inl empty ↦ absurd (let n = rw empty at h in ground arith)
  | inr (r, p) ↦
      let q = rw p at h in
      let e : str_eq prepared.request_id r ≡ true = ground arith in
      (p ∙ ap some (sym ((eq_iff prepared.request_id r).0 e)), ground arith)
]

-- A reply that is dropped changes nothing.
dropped-Planned :
    (s t : Store) (before : ℕ) (prepared : PreparedConversation) (reply : Reply) (b : Bool)
    → ◌≡◌ {A = Result Error (Bool × Store)} (ok (false, s)) (ok (b, t))
    → (ops : List Op) × Finishes before prepared reply (ok b) (expires before ∷ ops)
      × Refines ops s t
dropped-Planned s t before prepared reply b h =
    let e : false ≡ b = ground arith in
    (
      [],
      subst (λ x. Finishes before prepared reply (ok x) (expires before ∷ [])) e refl,
      Refines-tables s t (ground arith) (ground arith),
    )

finish_if-Planned :
    (s t : Store) (stamp : Stamp) (before now later : ℕ) (prepared : PreparedConversation)
    (reply : Reply) (c : Conversation) (b current : Bool)
    → conversation s prepared.id ≡ ok c
    → is_current c prepared now ≡ current
    → finish_if s stamp later prepared reply current ≡ ok (b, t)
    → (ops : List Op) × Finishes before prepared reply (ok b) (expires before ∷ ops)
      × Refines ops s t
finish_if-Planned s t stamp before now later prepared reply c b false found e h =
    dropped-Planned s t before prepared reply b h
finish_if-Planned s t stamp before now later prepared reply c b true found e h =
    let (pending_, revision) = is_current-pending c prepared now e in
    save_turn-Planned s t stamp before later prepared reply c b
      (conversation-row s prepared.id c found) pending_ revision h

finish_found-Planned :
    (s t : Store) (stamp : Stamp) (before now later : ℕ) (prepared : PreparedConversation)
    (reply : Reply) (found : Result Error Conversation) (b : Bool)
    → conversation s prepared.id ≡ found
    → finish_found s stamp now later prepared reply found ≡ ok (b, t)
    → (ops : List Op) × Finishes before prepared reply (ok b) (expires before ∷ ops)
      × Refines ops s t
finish_found-Planned s t stamp before now later prepared reply (err e) b f h =
    dropped-Planned s t before prepared reply b h
finish_found-Planned s t stamp before now later prepared reply (ok c) b f h =
    finish_if-Planned s t stamp before now later prepared reply c b _ f refl h

pub finish_conversation-Planned :
    (s : Store) (before now later : ℕ) (stamp : Stamp) (prepared : PreparedConversation)
    (reply : Reply)
    → Planned
        (Finishes before prepared reply)
        s
        (finish_conversation s before now later stamp prepared reply)
unfolding finish_conversation
finish_conversation-Planned s before now later stamp prepared reply =
    let pruned = prune_conversations s before in
    after_check-Planned (Finishes before prepared reply) s _ _ (λ e. inl refl)
      (pruned-Planned (Finishes before prepared reply) s before _ (
        settle-Planned (λ r ops. Finishes before prepared reply r (expires before ∷ ops)) pruned _
          (λ e. inr refl)
          (λ b t h.
            finish_found-Planned pruned t stamp before now later prepared reply _ b refl h)))
