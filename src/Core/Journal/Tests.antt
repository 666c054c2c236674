-- ===== src/Core/Journal/Tests.antt =====
-- One interaction that a restart cuts off; a rate is a whole number.
use omni_os.Prelude.{
  length, keep_if, All, ok, text_comparable, pair_comparable, one_of, trim, ℕ, ◌+◌, ◌*◌, ◌/◌,
  String, ◌≡◌, refl, ap, subst, true, false, Option, none, some, [], ◌∷◌, map,
}
use omni_os.Core.Audit.{identifier, bounded_metadata, metric}
use omni_os.Core.Journal.{
  Floats, InteractionStart, InteractionRecord, Journal, journal_prune, check_start,
  insert_interaction, journal_start, journal_recover_interrupted,
}
use omni_os.Core.Journal.Recovered.{settled}
use omni_os.Core.Journal.Restarted.{
  JournalReach, here, next, starts, journal_recover_interrupted-settled, IsAborted,
}

abbrev whole : Floats ℕ
whole = record {
  of_natural = λ n. n;
  plus = λ a b. a + b;
  times = λ a b. a * b;
  over = λ a b. a / b;
  zero_ = 0;
  is_finite = λ a. true;
  is_negative = λ a. false;
}

abbrev no_time : String → Option ℕ
no_time s = none

abbrev same_base : String → Option String
same_base s = some s

abbrev chat : InteractionStart ℕ
chat = record {
  id = "i1";
  provider_id = "p1";
  provider_name = "Provider";
  model = "m";
  destination = "https://provider.test";
  operation = "chat";
  protocol = "openai";
  streaming = true;
  grant_id = none;
  receipt_id = none;
  request_bytes = 10;
  context_bytes = 5;
  source_bytes_baseline = none;
  estimated_context_tokens = some 2;
  estimated_source_tokens = none;
  started_at = none;
  rate_snapshot = none;
}

abbrev empty_journal : Journal ℕ
empty_journal = record { interactions = []; audit = [] }

abbrev chat_record : InteractionRecord ℕ
chat_record = record {
  id = "i1";
  provider_id = "p1";
  provider_name = "Provider";
  model = "m";
  destination = "https://provider.test";
  operation = "chat";
  protocol = "openai";
  streaming = true;
  grant_id = none;
  receipt_id = none;
  started_at = 100;
  finished_at = none;
  status = "pending";
  http_status = none;
  header_latency_ms = none;
  total_latency_ms = none;
  request_bytes = 10;
  response_bytes = 0;
  context_bytes = 5;
  source_bytes_baseline = none;
  estimated_context_tokens = some 2;
  estimated_source_tokens = none;
  input_tokens = none;
  output_tokens = none;
  cached_tokens = none;
  cache_write_tokens = none;
  total_tokens = none;
  error_code = none;
  rate_snapshot = none;
  estimated_cost = none;
  cost_currency = none;
}

abbrev one_chat : Journal ℕ
one_chat = record { interactions = chat_record ∷ []; audit = [] }

chat_begun :
    journal_start ℕ whole no_time same_base empty_journal (ok (true, 30)) 90 100 chat
    ≡ (one_chat, ok true)
unfolding journal_start journal_prune insert_interaction check_start identifier bounded_metadata
    metric trim
chat_begun = refl

chat_reached : JournalReach ℕ whole no_time same_base empty_journal one_chat
chat_reached =
    subst (JournalReach ℕ whole no_time same_base empty_journal) (ap (λ x. x.0) chat_begun)
      (next here (starts (ok (true, 30)) 90 100 chat))

journal_recover_interrupted-settled_example :
    let pruned = journal_prune ℕ one_chat 30 200 in
    let after = map (settled ℕ whole no_time same_base 210) pruned.interactions in
    (journal_recover_interrupted ℕ whole no_time same_base one_chat (ok (true, 30)) 200 210 ≡ (
      record pruned { interactions = after },
      ok (
          length (
            keep_if
              (λ (r : InteractionRecord ℕ). one_of ("pending" ∷ "streaming" ∷ []) r.status)
              pruned.interactions)),
    ))
    × All
        (λ (r : InteractionRecord ℕ).
          one_of ("succeeded" ∷ "failed" ∷ "aborted" ∷ []) r.status ≡ true)
        after
    × ((r : InteractionRecord ℕ)
        → one_of ("pending" ∷ "streaming" ∷ []) r.status ≡ true
        → IsAborted ℕ 210 r (settled ℕ whole no_time same_base 210 r))
    × ((r : InteractionRecord ℕ)
        → one_of ("succeeded" ∷ "failed" ∷ "aborted" ∷ []) r.status ≡ true
        → settled ℕ whole no_time same_base 210 r ≡ r)
journal_recover_interrupted-settled_example =
    journal_recover_interrupted-settled ℕ whole no_time same_base empty_journal one_chat true 30 200
      210 refl chat_reached
