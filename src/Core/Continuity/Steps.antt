-- ===== src/Core/Continuity/Steps.antt =====
-- The operations of crates/omni-core/src/continuity.rs as steps, in any order and with any outcome.
use omni_os.Prelude.{
  text_comparable, pair_comparable, ℕ, String, ◌≡◌, refl, Bool, List, [], ◌∷◌, ◌++◌,
}
use omni_os.Core.Audit.{Stamp}
use omni_os.Core.Vault.{Vault}
use omni_os.Core.Continuity.{
  ConversationInput, Store, Drawn, prune_conversations, create_conversation, delete_conversation,
  clear_conversation_attempt,
}
use omni_os.Core.Continuity.Exchange.{
  Asked, Reply, PreparedConversation, prepare_conversation, finish_conversation,
}
use omni_os.Core.Continuity.Talk.{
  Op, expires, abandons, Runs, Refines, Refines-refl, Refines-trans, view, IsSound,
}
use omni_os.Core.Continuity.Tables.{Refines-tables}
use omni_os.Core.Continuity.Created.{
  prune_conversations-Refines, create_conversation-Planned, delete_conversation-Planned,
  clear_conversation_attempt-Refines, Creates, Deletes,
}
use omni_os.Core.Continuity.Bounds.{IsWithin, Runs-IsWithin}
use omni_os.Core.Continuity.Exchanged.{
  prepare_conversation-Planned, finish_conversation-Planned, Prepares, Finishes,
}

module _ (hash to_lowercase : String → String) (is_uuid : String → Bool) where
  -- One operation, whatever it returns, or a change of the vault beside it.
  pub data StoreStep (s : Store) : Store → Type 0 where
    lists : (now : ℕ) → StoreStep s (prune_conversations s now)
    creates :
        (before now later : ℕ) (stamp : Stamp) (drawn : Drawn) (input : ConversationInput)
        (destination : String)
        → StoreStep s
            (create_conversation to_lowercase s before now later stamp drawn input destination).0
    deletes : (stamp : Stamp) (id : String) → StoreStep s (delete_conversation s stamp id).0
    clears : (id request : String) → StoreStep s (clear_conversation_attempt s id request).0
    prepares :
        (before now : ℕ) (request : Asked)
        → StoreStep s (prepare_conversation hash to_lowercase is_uuid s before now request).0
    finishes :
        (before now later : ℕ) (stamp : Stamp) (prepared : PreparedConversation) (reply : Reply)
        → StoreStep s (finish_conversation s before now later stamp prepared reply).0
    in_vault : (v : Vault) → StoreStep s (record s { vault = v })

  pub data StoreReach (s : Store) : Store → Type 0 where
    here : StoreReach s s
    next : {t u : Store} → StoreReach s t → StoreStep t u → StoreReach s u

  -- The operations on talks that a step stands for, with what it returns.
  abbrev pub StandsFor : (s t : Store) → StoreStep s t → List Op → Type 0
  StandsFor s t (lists now) ops = ops ≡ expires now ∷ []
  StandsFor s t (creates before now later stamp drawn input destination) ops =
      Creates before later drawn input
        (create_conversation to_lowercase s before now later stamp drawn input destination).1 ops
  StandsFor s t (deletes stamp id) ops = Deletes id (delete_conversation s stamp id).1 ops
  StandsFor s t (clears id request) ops = ops ≡ abandons id request ∷ []
  StandsFor s t (prepares before now request) ops =
      Prepares before request
        (prepare_conversation hash to_lowercase is_uuid s before now request).1 ops
  StandsFor s t (finishes before now later stamp prepared reply) ops =
      Finishes before prepared reply (finish_conversation s before now later stamp prepared reply).1
        ops
  StandsFor s t (in_vault v) ops = ops ≡ []

  StoreStep-Refines :
      (s t : Store) (step : StoreStep s t)
      → (ops : List Op) × StandsFor s t step ops × Refines ops s t
  StoreStep-Refines s t (lists now) = (expires now ∷ [], refl, prune_conversations-Refines s now)
  StoreStep-Refines s t (creates before now later stamp drawn input destination) =
      create_conversation-Planned to_lowercase s before now later stamp drawn input destination
  StoreStep-Refines s t (deletes stamp id) = delete_conversation-Planned s stamp id
  StoreStep-Refines s t (clears id request) =
      (abandons id request ∷ [], refl, clear_conversation_attempt-Refines s id request)
  StoreStep-Refines s t (prepares before now request) =
      prepare_conversation-Planned hash to_lowercase is_uuid s before now request
  StoreStep-Refines s t (finishes before now later stamp prepared reply) =
      finish_conversation-Planned s before now later stamp prepared reply
  StoreStep-Refines s t (in_vault v) = ([], refl, Refines-tables s t refl refl)

  StoreReach-Refines : (s t : Store) → StoreReach s t → (ops : List Op) × Refines ops s t
  StoreReach-Refines s t here = ([], Refines-refl s)
  StoreReach-Refines s t (next {t = u} reach step) =
      let (xs, h) = StoreReach-Refines s u reach in
      let (ys, plan, k) = StoreStep-Refines u t step in (xs ++ ys, Refines-trans xs ys s u t h k)

empty-IsSound : (s : Store) (id : String) → s.threads ≡ [] → s.turns ≡ [] → IsSound s id
empty-IsSound s id ths ts = record { one = rw ths tt; row = rw (ths, ts) refl }

-- In a store that operations built from empty tables, with any outcomes, each further operation stands
-- for operations on talks that its result tells, and under every id the talk after it is exactly what
-- these make of the one before. Listing ends the talks whose time is over. A creation, a preparation and
-- a reply do so first when they succeed, and when they fail at most that, or the creation at most what
-- its success does. A creation that succeeds opens one empty talk under a free id. A request that is
-- prepared without a replay begins, on the revision that it names, fewer than 100, where none is pending
-- and no exchange has it; a replay does no more. A reply that is taken is for the request that is
-- pending on its revision, and adds one exchange and the next revision; one that is dropped adds
-- nothing. Clearing a pending request takes it away with the next revision, and leaves all else. A
-- deletion that succeeds removes one talk, and one that does not nothing; nor does a change of the
-- vault. A talk has at most as many exchanges as revisions and at most 100 of these, no request in two
-- exchanges, and a pending request that is in none.
pub StoreStep-Runs :
    (hash to_lowercase : String → String) (is_uuid : String → Bool) (empty s t : Store)
    → empty.threads ≡ []
    → empty.turns ≡ []
    → StoreReach hash to_lowercase is_uuid empty s
    → (step : StoreStep hash to_lowercase is_uuid s t)
    → (ops : List Op) × StandsFor hash to_lowercase is_uuid s t step ops
      × ((id : String) → Runs ops id (view s id) (view t id) × IsWithin (view t id))
StoreStep-Runs hash to_lowercase is_uuid empty s t ths ts reach step =
    let (before, h) = StoreReach-Refines hash to_lowercase is_uuid empty s reach in
    let (ops, plan, k) = StoreStep-Refines hash to_lowercase is_uuid s t step in
    (
      ops,
      plan,
      λ id.
          let (sound, m) = h id (empty-IsSound empty id ths ts) in
          let n = (k id sound).1 in
          (
            n,
            Runs-IsWithin ops id (view s id) (view t id) n
                (Runs-IsWithin before id (view empty id) (view s id) m (rw ths tt)),
          ),
    )

-- Tables that operations built from empty ones are sound.
pub StoreReach-IsSound :
    (hash to_lowercase : String → String) (is_uuid : String → Bool) (empty s : Store) (id : String)
    → empty.threads ≡ []
    → empty.turns ≡ []
    → StoreReach hash to_lowercase is_uuid empty s
    → IsSound s id
StoreReach-IsSound hash to_lowercase is_uuid empty s id ths ts reach =
    let (ops, h) = StoreReach-Refines hash to_lowercase is_uuid empty s reach in
    (h id (empty-IsSound empty id ths ts)).0
