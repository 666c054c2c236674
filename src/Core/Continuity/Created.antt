-- ===== src/Core/Continuity/Created.antt =====
-- Creating, deleting and clearing conversations, against the abstract talk.
use omni_os.Prelude.{
  any, Result, ok, err, text_comparable, pair_comparable, ℕ, ◌+◌, ◌*◌, String, ◌≡◌, refl, subst,
  ◌⊎◌, inl, inr, Bool, true, false, List, [], ◌∷◌, map, arith,
}
use omni_os.Core.Errors.{Error}
use omni_os.Core.Audit.{Stamp}
use omni_os.Core.Work.{label}
use omni_os.Core.Continuity.{
  ConversationInput, Store, Drawn, has_id, without_threads, prune_conversations, settle,
  after_check, insert_conversation, read_back, create_conversation, delete_thread,
  delete_conversation, clear_found, clear_conversation_attempt, thread_of, awaits, clear_row,
  Conversation,
}
use omni_os.Core.Continuity.Talk.{
  Op, expires, opens, removes, abandons, Refines, Refines-refl, Refines-trans,
}
use omni_os.Core.Continuity.Tables.{expires-Refines, removes-Refines, Refines-tables}
use omni_os.Core.Continuity.Updates.{clear_row-Refines}
use omni_os.Core.Continuity.Inserts.{insert_thread-Refines}

-- What an operation returns goes with the operations on talks that it stands for.
abbrev pub Planned {ℓ} :
    {A : Type ℓ} → (Result Error A → List Op → Type 0) → Store → Store × Result Error A → Type 0
Planned Plan s (t, result) = (ops : List Op) × Plan result ops × Refines ops s t

pub after_check-Planned {ℓ} :
    {A : Type ℓ} (Plan : Result Error A → List Op → Type 0) (s : Store)
    (r : Result Error (Unit {0})) (rest : Store × Result Error A)
    → ((e : Error) → Plan (err e) [])
    → Planned Plan s rest
    → Planned Plan s (after_check s r rest)
after_check-Planned Plan s (err e) rest refused h = ([], refused e, Refines-refl s)
after_check-Planned Plan s (ok done) rest refused h = h

pub settle-Planned {ℓ} :
    {A : Type ℓ} (Plan : Result Error A → List Op → Type 0) (s : Store)
    (r : Result Error (A × Store))
    → ((e : Error) → Plan (err e) [])
    → ((a : A) (t : Store) → r ≡ ok (a, t) → (ops : List Op) × Plan (ok a) ops × Refines ops s t)
    → Planned Plan s (settle s r)
settle-Planned Plan s (err e) refused h = ([], refused e, Refines-refl s)
settle-Planned Plan s (ok (a, t)) refused h = h a t refl

pub prune_conversations-Refines :
    (s : Store) (now : ℕ) → Refines (expires now ∷ []) s (prune_conversations s now)
unfolding prune_conversations
prune_conversations-Refines s now = expires-Refines now s

-- Expired talks go first.
pub pruned-Planned {ℓ} :
    {A : Type ℓ} (Plan : Result Error A → List Op → Type 0) (s : Store) (now : ℕ)
    (x : Store × Result Error A)
    → Planned (λ r ops. Plan r (expires now ∷ ops)) (prune_conversations s now) x
    → Planned Plan s x
pruned-Planned Plan s now (t, result) (ops, plan, h) = (
  expires now ∷ ops,
  plan,
  Refines-trans (expires now ∷ []) ops s (prune_conversations s now) t
      (prune_conversations-Refines s now) h,
)

-- A creation that fails has done nothing, or expired talks are gone; the new talk may expire at once.
abbrev pub Creates :
    ℕ → ℕ → Drawn → ConversationInput → Result Error Conversation → List Op → Type 0
Creates before later drawn input (err e) ops =
    (ops ≡ [])
    ⊎ ((ops ≡ expires before ∷ [])
        ⊎ (ops
            ≡ expires before
              ∷ opens drawn.id (drawn.now + input.retention_days * 86400)
              ∷ expires later
              ∷ []))
Creates before later drawn input (ok c) ops =
    ops
    ≡ expires before
      ∷ opens drawn.id (drawn.now + input.retention_days * 86400)
      ∷ expires later
      ∷ []

abbrev pub Deletes : String → Result Error Bool → List Op → Type 0
Deletes id (ok true) ops = ops ≡ removes id ∷ []
Deletes id (ok false) ops = ops ≡ []
Deletes id (err e) ops = ops ≡ []

abbrev text_of : Result Error String → String
text_of (ok s) = s
text_of (err e) = ""

insert_conversation-tables :
    (to_lowercase : String → String) (s t : Store) (now : ℕ) (stamp : Stamp) (drawn : Drawn)
    (input : ConversationInput) (destination : String)
    → insert_conversation to_lowercase s now stamp drawn input destination ≡ ok (tt, t)
    → (any (has_id drawn.id) s.threads ≡ false)
      × (t.threads
          ≡ thread_of drawn input destination
              (text_of (label input.title))
              (text_of (label input.scope))
              (text_of (label input.model))
            ∷ s.threads)
      × (t.turns ≡ s.turns)
unfolding insert_conversation
insert_conversation-tables to_lowercase s t now stamp drawn input destination h =
    (ground arith, ground arith, ground arith)

read_back-Planned :
    (s : Store) (before later : ℕ) (drawn : Drawn) (input : ConversationInput) (t : Store)
    → Refines (opens drawn.id (drawn.now + input.retention_days * 86400) ∷ []) s t
    → (result : Result Error Conversation)
    → Planned
        (λ r ops. Creates before later drawn input r (expires before ∷ ops))
        s
        (prune_conversations t later, result)
read_back-Planned s before later drawn input t h (err e) = (
  opens drawn.id (drawn.now + input.retention_days * 86400) ∷ expires later ∷ [],
  inr (inr refl),
  Refines-trans (opens drawn.id (drawn.now + input.retention_days * 86400) ∷ [])
      (expires later ∷ []) s t (prune_conversations t later) h
      (prune_conversations-Refines t later),
)
read_back-Planned s before later drawn input t h (ok c) = (
  opens drawn.id (drawn.now + input.retention_days * 86400) ∷ expires later ∷ [],
  refl,
  Refines-trans (opens drawn.id (drawn.now + input.retention_days * 86400) ∷ [])
      (expires later ∷ []) s t (prune_conversations t later) h
      (prune_conversations-Refines t later),
)

inserted-Planned :
    (to_lowercase : String → String) (s : Store) (before now later : ℕ) (stamp : Stamp)
    (drawn : Drawn) (input : ConversationInput) (destination : String)
    (r : Result Error (Unit {0} × Store))
    → insert_conversation to_lowercase s now stamp drawn input destination ≡ r
    → Planned
        (λ r ops. Creates before later drawn input r (expires before ∷ ops))
        s
        (read_back to_lowercase drawn.id later (settle s r))
inserted-Planned to_lowercase s before now later stamp drawn input destination (err e) h =
    ([], inr (inl refl), Refines-refl s)
inserted-Planned to_lowercase s before now later stamp drawn input destination (ok (done, t)) h =
    let (new, ths, ts) =
      insert_conversation-tables to_lowercase s t now stamp drawn input destination h in
    let c =
      thread_of drawn input destination (text_of (label input.title)) (text_of (label input.scope))
        (text_of (label input.model)) in
    let mid : Store = record s { threads = c ∷ s.threads } in
    read_back-Planned s before later drawn input t
      (Refines-trans (opens c.id c.expires_at ∷ []) [] s mid t
        (insert_thread-Refines c s new refl refl) (Refines-tables mid t ths ts))
      _

pub create_conversation-Planned :
    (to_lowercase : String → String) (s : Store) (before now later : ℕ) (stamp : Stamp)
    (drawn : Drawn) (input : ConversationInput) (destination : String)
    → Planned
        (Creates before later drawn input)
        s
        (create_conversation to_lowercase s before now later stamp drawn input destination)
unfolding create_conversation
create_conversation-Planned to_lowercase s before now later stamp drawn input destination =
    let pruned = prune_conversations s before in
    after_check-Planned (Creates before later drawn input) s _ _ (λ e. inl refl)
      (pruned-Planned (Creates before later drawn input) s before _ (
        inserted-Planned to_lowercase pruned before now later stamp drawn input destination _ refl))

delete_thread-Planned :
    (s t : Store) (stamp : Stamp) (id : String) (found b : Bool)
    → delete_thread s stamp id found ≡ ok (b, t)
    → (ops : List Op) × Deletes id (ok b) ops × Refines ops s t
delete_thread-Planned s t stamp id false b h =
    let e : false ≡ b = ground arith in
    ([], subst (λ x. Deletes id (ok x) []) e refl, Refines-tables s t (ground arith) (ground arith))
delete_thread-Planned s t stamp id true b h =
    let mid = without_threads (has_id id) s in
    let e : true ≡ b = ground arith in
    (
      removes id ∷ [],
      subst (λ x. Deletes id (ok x) (removes id ∷ [])) e refl,
      Refines-trans (removes id ∷ []) [] s mid t (removes-Refines id s)
          (Refines-tables mid t (ground arith) (ground arith)),
    )

pub delete_conversation-Planned :
    (s : Store) (stamp : Stamp) (id : String)
    → Planned (Deletes id) s (delete_conversation s stamp id)
unfolding delete_conversation
delete_conversation-Planned s stamp id =
    settle-Planned (Deletes id) s _ (λ e. refl)
      (λ b t h. delete_thread-Planned s t stamp id (any (has_id id) s.threads) b h)

awaits-none :
    (id request : String) (threads : List Conversation)
    → any (awaits id request) threads ≡ false
    → map (clear_row id request) threads ≡ threads
awaits-none id request [] h = refl
awaits-none id request (c ∷ cs) h =
    let miss : awaits id request c ≡ false = ground arith in
    let ih = awaits-none id request cs (ground arith) in rw (miss, ih) refl

clear_found-Refines :
    (s : Store) (id request : String) (found : Bool)
    → any (awaits id request) s.threads ≡ found
    → Refines (abandons id request ∷ []) s (clear_found s id request found).0
clear_found-Refines s id request false h =
    subst (λ ths. Refines (abandons id request ∷ []) s (record s { threads = ths }))
      (awaits-none id request s.threads h) (clear_row-Refines id request s)
clear_found-Refines s id request true h = clear_row-Refines id request s

pub clear_conversation_attempt-Refines :
    (s : Store) (id request : String)
    → Refines (abandons id request ∷ []) s (clear_conversation_attempt s id request).0
unfolding clear_conversation_attempt
clear_conversation_attempt-Refines s id request = clear_found-Refines s id request _ refl
