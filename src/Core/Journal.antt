-- ===== src/Core/Journal.antt =====
-- The interactions of the journal, crates/omni-core/src/journal.rs: `journal_start`, `journal_finish`,
-- `journal_prune`, `journal_delete_history` and `journal_recover_interrupted`. A row of
-- `journal_interactions` is its record, from which its columns are copied. The preferences, which are
-- read from the settings, are an argument; `f64`, RFC 3339 and `normalize_base` are parameters.
pub mod Recovered
pub mod Restarted
pub mod Sound
mod Tests
use omni_os.Prelude.{
  ltb, leb, ◌==◌, if◌then◌else◌, length, all, any, keep_if, find, ensure, or_fail, ◌>>=◌, ◌>>◌,
  Result, ok, err, text_comparable, pair_comparable, one_of, ℕ, ◌+◌, ◌-◌, ◌*◌, ◌/◌, ◌^◌, String,
  Bool, true, false, not, ◌&&◌, ◌||◌, Option, none, some, option_map, List, [], ◌∷◌, map, str_eq,
}
use omni_os.Core.Errors.{
  Error, constraint_failed, metric_out_of_range, invalid_identifier, invalid_http_status,
  invalid_metadata, unknown_operation_name, unknown_protocol, context_too_large, bad_estimate,
  bad_rates, bad_time, bad_destination, unknown_completion, bytes_decreased, not_streaming,
  latency_order,
}
use omni_os.Core.Audit.{
  AuditRecord, Stamp, no_details, none_or, identifier, bounded_metadata, metric, sanitize_error,
}

-- What the code uses of `f64`.
pub record Floats (F : Type 0) : Type 0 where
  pub of_natural : ℕ → F
  pub plus : F → F → F
  pub times : F → F → F
  pub over : F → F → F
  pub zero_ : F
  pub is_finite : F → Bool
  pub is_negative : F → Bool

pub record TokenRates (F : Type 0) : Type 0 where
  pub currency : String
  pub input_per_million : F
  pub output_per_million : F
  pub cached_input_per_million : Option F
  pub cache_write_input_per_million : Option F

pub record InteractionStart (F : Type 0) : Type 0 where
  pub id : String
  pub provider_id : String
  pub provider_name : String
  pub model : String
  pub destination : String
  pub operation : String
  pub protocol : String
  pub streaming : Bool
  pub grant_id : Option String
  pub receipt_id : Option String
  pub request_bytes : ℕ
  pub context_bytes : ℕ
  pub source_bytes_baseline : Option ℕ
  pub estimated_context_tokens : Option ℕ
  pub estimated_source_tokens : Option ℕ
  pub started_at : Option String
  pub rate_snapshot : Option (TokenRates F)

pub record InteractionRecord (F : Type 0) : Type 0 where
  pub id : String
  pub provider_id : String
  pub provider_name : String
  pub model : String
  pub destination : String
  pub operation : String
  pub protocol : String
  pub streaming : Bool
  pub grant_id : Option String
  pub receipt_id : Option String
  pub started_at : ℕ
  pub finished_at : Option ℕ
  pub status : String
  pub http_status : Option ℕ
  pub header_latency_ms : Option ℕ
  pub total_latency_ms : Option ℕ
  pub request_bytes : ℕ
  pub response_bytes : ℕ
  pub context_bytes : ℕ
  pub source_bytes_baseline : Option ℕ
  pub estimated_context_tokens : Option ℕ
  pub estimated_source_tokens : Option ℕ
  pub input_tokens : Option ℕ
  pub output_tokens : Option ℕ
  pub cached_tokens : Option ℕ
  pub cache_write_tokens : Option ℕ
  pub total_tokens : Option ℕ
  pub error_code : Option String
  pub rate_snapshot : Option (TokenRates F)
  pub estimated_cost : Option F
  pub cost_currency : Option String

pub record InteractionFinish : Type 0 where
  pub status : String
  pub http_status : Option ℕ
  pub header_latency_ms : Option ℕ
  pub total_latency_ms : Option ℕ
  pub input_tokens : Option ℕ
  pub output_tokens : Option ℕ
  pub cached_tokens : Option ℕ
  pub cache_write_tokens : Option ℕ
  pub total_tokens : Option ℕ
  pub response_bytes : ℕ
  pub error_code : Option String
  pub finished_at : Option String

-- The two tables of the journal.
pub record Journal (F : Type 0) : Type 0 where
  pub interactions : List (InteractionRecord F)
  pub audit : List AuditRecord

-- `terminal`
abbrev pub terminal : String → Bool
terminal = one_of ("succeeded" ∷ "failed" ∷ "aborted" ∷ [])

-- `estimate_tokens`: a quarter of the bytes, rounded up.
abbrev pub estimate_tokens : ℕ → ℕ
estimate_tokens bytes = (bytes + 3) / 4

-- `Option::or`
abbrev pub or_else {ℓ} : {A : Type ℓ} → Option A → Option A → Option A
or_else none b = b
or_else (some a) b = some a

abbrev option_beq : Option ℕ → Option ℕ → Bool
option_beq none none = true
option_beq (some a) (some b) = a == b
option_beq a b = false

abbrev as_option {ℓ} : {A : Type ℓ} → Result (Unit {0}) A → Option A
as_option (ok a) = some a
as_option (err e) = none

-- Latencies where both are known.
abbrev pub in_order : Option ℕ → Option ℕ → Bool
in_order (some headers) (some total) = leb headers total
in_order a b = true

module _ (F : Type 0) where
  abbrev pub has_id : String → InteractionRecord F → Bool
  has_id id r = str_eq r.id id

  -- `journal_prune` at a time, in milliseconds, with the days of the preferences; without the counts that
  -- it returns.
  unfoldable pub journal_prune : Journal F → ℕ → ℕ → Journal F
  journal_prune journal days now =
      let is_old : ℕ → Bool = λ t. ltb (t + days * 86400000) now in
      record {
        interactions =
            keep_if (λ (r : InteractionRecord F). not (is_old r.started_at)) journal.interactions;
        audit = keep_if (λ (r : AuditRecord). not (is_old r.created_at)) journal.audit;
      }

  -- `journal_delete_history`
  unfoldable pub journal_delete_history : Journal F → Stamp → Result Error (ℕ × Journal F)
  journal_delete_history journal stamp = do
    let removed : ℕ = length journal.interactions
    ensure (not (any (λ (r : AuditRecord). str_eq r.id stamp.fresh_id) journal.audit))
        constraint_failed
    let event : AuditRecord = record {
      id = stamp.fresh_id;
      created_at = stamp.time;
      action = "history_cleared";
      level = "info";
      details = record no_details { count = some removed };
    }
    ok (removed, record { interactions = []; audit = event ∷ journal.audit })

module _ (F : Type 0) (f : Floats F) where
  open f use {of_natural, plus, times, over, zero_, is_finite, is_negative}

  abbrev is_rate : F → Bool
  is_rate value = is_finite value && not (is_negative value)

  -- `validate_rates`, as a test.
  abbrev pub validate_rates : TokenRates F → Bool
  validate_rates rates =
      str_eq rates.currency "USD"
      && (is_rate rates.input_per_million
          && (is_rate rates.output_per_million
              && (none_or is_rate rates.cached_input_per_million
                  && none_or is_rate rates.cache_write_input_per_million)))

  abbrev part_cost : ℕ → Option F → Result (Unit {0}) F
  part_cost count rate =
      if count == 0 then ok zero_ else (do r ← or_fail rate tt; ok (times (of_natural count) r))

  -- `estimated_cost`: unknown counts have no cost.
  unfoldable pub estimated_cost : InteractionRecord F → Option F
  estimated_cost r = as_option (do
    rates ← or_fail r.rate_snapshot tt
    input ← or_fail r.input_tokens tt
    output ← or_fail r.output_tokens tt
    cached ← or_fail r.cached_tokens tt
    written ← or_fail r.cache_write_tokens tt
    ensure (ltb (cached + written) (2 ^ 64) && leb (cached + written) input) tt
    cache_cost ← part_cost cached rates.cached_input_per_million
    write_cost ← part_cost written rates.cache_write_input_per_million
    let cost : F =
        over
          (plus
            (plus
              (plus (times (of_natural (input - (cached + written))) rates.input_per_million)
                (times (of_natural output) rates.output_per_million))
              cache_cost)
            write_cost)
          (of_natural 1000000)
    ensure (is_finite cost) tt
    ok cost)

  abbrev usd : Option F → Option String
  usd none = none
  usd (some cost) = some "USD"

  module _ (parse_time : String → Option ℕ) (normalize_base : String → Option String) where
    -- `timestamp`
    abbrev pub timestamp : Option String → ℕ → Result Error ℕ
    timestamp none now = ok now
    timestamp (some value) now = or_fail (parse_time value) bad_time

    abbrev pub record_of : InteractionStart F → String → ℕ → InteractionRecord F
    record_of start destination started = record {
      id = start.id;
      provider_id = start.provider_id;
      provider_name = start.provider_name;
      model = start.model;
      destination = destination;
      operation = start.operation;
      protocol = start.protocol;
      streaming = start.streaming;
      grant_id = start.grant_id;
      receipt_id = start.receipt_id;
      started_at = started;
      finished_at = none;
      status = "pending";
      http_status = none;
      header_latency_ms = none;
      total_latency_ms = none;
      request_bytes = start.request_bytes;
      response_bytes = 0;
      context_bytes = start.context_bytes;
      source_bytes_baseline = start.source_bytes_baseline;
      estimated_context_tokens = some (estimate_tokens start.context_bytes);
      estimated_source_tokens = option_map estimate_tokens start.source_bytes_baseline;
      input_tokens = none;
      output_tokens = none;
      cached_tokens = none;
      cache_write_tokens = none;
      total_tokens = none;
      error_code = none;
      rate_snapshot = start.rate_snapshot;
      estimated_cost = none;
      cost_currency = none;
    }

    -- The checks of `journal_start`, with the normalized destination.
    unfoldable pub check_start : InteractionStart F → Result Error String
    check_start start = do
      ensure (identifier start.id && identifier start.provider_id) invalid_identifier
      ensure (none_or identifier start.grant_id && none_or identifier start.receipt_id)
          invalid_identifier
      ensure
          (bounded_metadata start.provider_name 200
            && (bounded_metadata start.model 200 && bounded_metadata start.destination 2048))
          invalid_metadata
      destination ← or_fail (normalize_base start.destination) bad_destination
      ensure (one_of ("chat" ∷ "gateway" ∷ "capture" ∷ []) start.operation) unknown_operation_name
      ensure (one_of ("openai" ∷ "anthropic" ∷ "local" ∷ []) start.protocol) unknown_protocol
      ensure
          (all metric (
            some start.request_bytes
            ∷ some start.context_bytes
            ∷ start.source_bytes_baseline
            ∷ start.estimated_context_tokens
            ∷ start.estimated_source_tokens
            ∷ []))
          metric_out_of_range
      ensure (leb start.context_bytes start.request_bytes) context_too_large
      ensure
          (none_or (λ v. v == estimate_tokens start.context_bytes) start.estimated_context_tokens
            && none_or
                (λ v. option_beq (some v) (option_map estimate_tokens start.source_bytes_baseline))
                start.estimated_source_tokens)
          bad_estimate
      ensure (none_or validate_rates start.rate_snapshot) bad_rates
      ok destination

    -- The insertion, on the pruned journal.
    unfoldable pub insert_interaction :
        Journal F → InteractionStart F → ℕ → Result Error (Bool × Journal F)
    insert_interaction journal start now = do
      destination ← check_start start
      started ← timestamp start.started_at now
      ensure (not (any (has_id F start.id) journal.interactions)) constraint_failed
      ok (
        true,
        record journal {
          interactions = record_of start destination started ∷ journal.interactions;
        },
      )

    abbrev pub after_insert :
        Journal F → Result Error (Bool × Journal F) → Journal F × Result Error Bool
    after_insert journal (err e) = (journal, err e)
    after_insert journal (ok (b, after)) = (after, ok b)

    -- `journal_start`, with the preferences and two readings of the clock.
    unfoldable pub journal_start :
        Journal F
        → Result Error (Bool × ℕ)
        → ℕ
        → ℕ
        → InteractionStart F
        → Journal F × Result Error Bool
    journal_start journal (err e) before now start = (journal, err e)
    journal_start journal (ok (enabled, days)) before now start =
        let pruned = journal_prune F journal days before in
        if enabled
        then after_insert pruned (insert_interaction pruned start now)
        else (pruned, ok false)

    abbrev pub valid_completion : String → Bool
    valid_completion = one_of ("streaming" ∷ "succeeded" ∷ "failed" ∷ "aborted" ∷ [])

    abbrev pub with_cost : InteractionRecord F → InteractionRecord F
    with_cost r =
        let cost = estimated_cost r in record r { estimated_cost = cost; cost_currency = usd cost }

    abbrev pub finished_record :
        InteractionRecord F → InteractionFinish → Option ℕ → InteractionRecord F
    finished_record r finish finished = with_cost (record r {
      status = finish.status;
      http_status = or_else finish.http_status r.http_status;
      header_latency_ms = or_else finish.header_latency_ms r.header_latency_ms;
      total_latency_ms = or_else finish.total_latency_ms r.total_latency_ms;
      input_tokens = or_else finish.input_tokens r.input_tokens;
      output_tokens = or_else finish.output_tokens r.output_tokens;
      cached_tokens = or_else finish.cached_tokens r.cached_tokens;
      cache_write_tokens = or_else finish.cache_write_tokens r.cache_write_tokens;
      total_tokens = or_else finish.total_tokens r.total_tokens;
      response_bytes = finish.response_bytes;
      error_code = or_else (option_map sanitize_error finish.error_code) r.error_code;
      finished_at = finished;
    })

    abbrev pub finished_time : InteractionRecord F → InteractionFinish → ℕ → Result Error (Option ℕ)
    finished_time r finish now =
        if terminal finish.status
        then (do t ← timestamp finish.finished_at now; ok (some t))
        else ok r.finished_at

    abbrev pub replace : String → InteractionRecord F → InteractionRecord F → InteractionRecord F
    replace id after r = if has_id F id r then after else r

    -- On a record that is not terminal.
    abbrev pub finish_open :
        Journal F
        → String
        → InteractionFinish
        → ℕ
        → InteractionRecord F
        → Result Error (Bool × Journal F)
    finish_open journal id finish now r = do
      ensure (leb r.response_bytes finish.response_bytes) bytes_decreased
      ensure (not (str_eq finish.status "streaming") || r.streaming) not_streaming
      ensure
          (in_order (or_else finish.header_latency_ms r.header_latency_ms)
            (or_else finish.total_latency_ms r.total_latency_ms))
          latency_order
      finished ← finished_time r finish now
      ok (
        true,
        record journal {
          interactions = map (replace id (finished_record r finish finished)) journal.interactions;
        },
      )

    abbrev pub finish_found :
        Journal F
        → String
        → InteractionFinish
        → ℕ
        → Option (InteractionRecord F)
        → Result Error (Bool × Journal F)
    finish_found journal id finish now none = ok (false, journal)
    finish_found journal id finish now (some r) =
        if terminal r.status then ok (false, journal) else finish_open journal id finish now r

    -- `journal_finish`
    unfoldable pub journal_finish :
        Journal F → String → InteractionFinish → ℕ → Result Error (Bool × Journal F)
    journal_finish journal id finish now = do
      ensure (valid_completion finish.status) unknown_completion
      ensure (none_or (λ s. leb 100 s && leb s 599) finish.http_status) invalid_http_status
      ensure
          (all metric (
            finish.header_latency_ms
            ∷ finish.total_latency_ms
            ∷ finish.input_tokens
            ∷ finish.output_tokens
            ∷ finish.cached_tokens
            ∷ finish.cache_write_tokens
            ∷ finish.total_tokens
            ∷ some finish.response_bytes
            ∷ []))
          metric_out_of_range
      finish_found journal id finish now (find (has_id F id) journal.interactions)

    -- What is recorded of work that a restart has cut off.
    abbrev pub restarted : InteractionRecord F → InteractionFinish
    restarted r = record {
      status = "aborted";
      http_status = none;
      header_latency_ms = none;
      total_latency_ms = none;
      input_tokens = none;
      output_tokens = none;
      cached_tokens = none;
      cache_write_tokens = none;
      total_tokens = none;
      response_bytes = r.response_bytes;
      error_code = some "process_restarted";
      finished_at = none;
    }

    abbrev pub is_open : InteractionRecord F → Bool
    is_open r = one_of ("pending" ∷ "streaming" ∷ []) r.status

    abbrev pub count : Bool → ℕ
    count true = 1
    count false = 0

    abbrev pub add_count : ℕ → Journal F × Result Error ℕ → Journal F × Result Error ℕ
    add_count n (journal, err e) = (journal, err e)
    add_count n (journal, ok m) = (journal, ok (n + m))

    -- The loop of `journal_recover_interrupted`: a failure leaves what was recorded. One reading of the
    -- clock serves the whole loop.
    unfoldable pub recover_all :
        List (InteractionRecord F) → Journal F → ℕ → Journal F × Result Error ℕ
    recover_all [] journal now = (journal, ok 0)
    recover_all (r ∷ rs) journal now = elim (journal_finish journal r.id (restarted r) now) [
      | err e ↦ (journal, err e)
      | ok done ↦ add_count (count done.0) (recover_all rs done.1 now)
    ]

    -- `journal_recover_interrupted`
    unfoldable pub journal_recover_interrupted :
        Journal F → Result Error (Bool × ℕ) → ℕ → ℕ → Journal F × Result Error ℕ
    journal_recover_interrupted journal (err e) before now = (journal, err e)
    journal_recover_interrupted journal (ok (enabled, days)) before now =
        let pruned = journal_prune F journal days before in
        recover_all (keep_if is_open pruned.interactions) pruned now
