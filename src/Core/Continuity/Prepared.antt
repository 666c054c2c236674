-- ===== src/Core/Continuity/Prepared.antt =====
-- What a successful `prepare_conversation` has found and done.
use omni_os.Prelude.{
  find, ensure-eq-ok, >>=-eq-ok, ok_injective, Result, ok, err, text_comparable, pair_comparable, ℕ,
  ◌<◌, String, ◌≡◌, refl, ap, Bool, true, Option, none, some, map, arith,
}
use omni_os.Core.Errors.{Error, other_conversation}
use omni_os.Core.Continuity.{
  Conversation, Turn, Store, after_check, settle, grant_serves, conversation, prune_conversations,
}
use omni_os.Core.Continuity.Exchange.{
  Asked, PreparedConversation, begin_row, history_of, prepare_conversation, prepare_pruned,
  prepare_from, request_check, is_same_talk, is_turn, is_none,
}

settle-ok :
    (s t : Store) (r : Result Error (PreparedConversation × Store)) (p : PreparedConversation)
    → settle s r ≡ (t, ok p)
    → r ≡ ok (p, t)
settle-ok s t (err e) p h = absurd (let f : err e ≡ ok p = ap (λ x. x.1) h in cc)
settle-ok s t (ok (q, u)) p h =
    ap ok
      (let a : u ≡ t = ap (λ x. x.0) h in let b : q ≡ p = ok_injective q p (ap (λ x. x.1) h) in cc)

after_check-ok :
    (s t : Store) (r : Result Error (Unit {0})) (rest : Store × Result Error PreparedConversation)
    (p : PreparedConversation)
    → after_check s r rest ≡ (t, ok p)
    → (r ≡ ok tt) × (rest ≡ (t, ok p))
after_check-ok s t (err e) rest p h = absurd (let f : err e ≡ ok p = ap (λ x. x.1) h in cc)
after_check-ok s t (ok tt) rest p h = (refl, h)

-- A request that began: the conversation is the same, has no pending request, the revision asked for
-- and room; the request is new, and the row now awaits it.
pub record HasBegun (pruned t : Store) (request : Asked) (p : PreparedConversation)
    (c : Conversation) : Type 0 where
  pub found : conversation pruned request.id ≡ ok c
  pub same : is_same_talk c request ≡ true
  pub idle : is_none c.pending_request ≡ true
  pub current : c.revision ≡ request.revision
  pub room : request.revision < 100
  pub new : find (is_turn request.id request.request_id) pruned.turns ≡ none
  pub threads :
      t.threads ≡ map (begin_row request.id request.revision request.request_id) pruned.threads
  pub turns : t.turns ≡ pruned.turns

module _ (hash to_lowercase : String → String) (is_uuid : String → Bool) where
  -- What is prepared of a new request.
  abbrev pub fresh_of : Store → Asked → PreparedConversation
  fresh_of pruned request = record {
    id = request.id;
    request_id = request.request_id;
    hash = hash request.message;
    revision = request.revision;
    message = request.message;
    history = history_of pruned request.id;
    replay = none;
  }

  prepare_from-begun :
      (s t : Store) (request : Asked) (c : Conversation) (found : Option Turn)
      (p : PreparedConversation)
      → prepare_from hash s request c found ≡ ok (p, t)
      → p.replay ≡ none
      → (found ≡ none)
        × (p ≡ fresh_of s request)
        × (is_none c.pending_request ≡ true)
        × (c.revision ≡ request.revision)
        × (request.revision < 100)
        × (t.threads ≡ map (begin_row request.id request.revision request.request_id) s.threads)
        × (t.turns ≡ s.turns)
  prepare_from-begun s t request c none p h empty =
      (refl, ground arith, ground arith, ground arith, ground arith, ground arith, ground arith)
  prepare_from-begun s t request c (some u) p h empty = absurd (ground arith)

  pub prepare_conversation-begun :
      (s t : Store) (before now : ℕ) (request : Asked) (p : PreparedConversation)
      → prepare_conversation hash to_lowercase is_uuid s before now request ≡ (t, ok p)
      → p.replay ≡ none
      → (request_check hash to_lowercase is_uuid request ≡ ok tt)
        × (p ≡ fresh_of (prune_conversations s before) request)
        × ((c : Conversation) × HasBegun (prune_conversations s before) t request p c)
  unfolding prepare_conversation prepare_pruned
  prepare_conversation-begun s t before now request p h empty =
      let pruned = prune_conversations s before in
      let (fine, h1) = after_check-ok s t (request_check hash to_lowercase is_uuid request) _ p h in
      let h2 =
        settle-ok pruned t (prepare_pruned hash to_lowercase is_uuid pruned now request) p h1 in
      let (c, a, h3) = >>=-eq-ok (conversation pruned request.id) _ h2 in
      let (same, h4) = ensure-eq-ok (is_same_talk c request) other_conversation _ h3 in
      let (done, b, h5) =
        >>=-eq-ok (grant_serves to_lowercase pruned.vault now request.grant request.destination) _
          h4 in
      let (new, e, idle, current, room, threads, turns) =
        prepare_from-begun pruned t request c _ p h5 empty in
      (
        fine,
        e,
        (
          c,
          record {
            found = a;
            same = same;
            idle = idle;
            current = current;
            room = room;
            new = new;
            threads = threads;
            turns = turns;
          },
        ),
      )
