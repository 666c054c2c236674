-- ===== src/Core/Journal/Sound.antt =====
-- What every operation of crates/omni-core/src/journal.rs keeps of the interactions.
use omni_os.Prelude.{
  leb, Bool-cases, ltb→lt, all, any, keep_if, find, All, ensure-eq-ok, >>=-eq-ok, ok_injective,
  Result, ok, err, text_comparable, pair_comparable, one_of, ℕ, ◌^◌, ◌<◌, String, ◌≡◌, refl, sym,
  ap, ◌∙◌, subst, inl, inr, Bool, true, false, not, ◌&&◌, ◌||◌, Option, none, some, List, [], ◌∷◌,
  map, arith, str_eq, eq_iff,
}
use omni_os.Core.Journal.{check_start}
use omni_os.Core.Errors.{
  constraint_failed, Error, bytes_decreased, not_streaming, latency_order, unknown_completion,
  invalid_http_status, metric_out_of_range,
}
use omni_os.Core.Audit.{Stamp, none_or, metric}
use omni_os.Core.Continuity.Rows.{find-holds}
use omni_os.Core.Journal.{
  record_of, timestamp, or_else, valid_completion, insert_interaction, after_insert, journal_start,
  journal_finish, finish_open, finish_found, finished_record, finished_time, InteractionStart,
  InteractionFinish, terminal, replace,
}
use omni_os.Core.Errors.{Error}
use omni_os.Core.Audit.{Stamp, none_or, metric}
use omni_os.Core.Vault.Selected.{All-keep_if}
use omni_os.Core.Journal.{
  Floats, InteractionStart, InteractionRecord, InteractionFinish, Journal, terminal, in_order,
  has_id, journal_prune, journal_delete_history, insert_interaction, after_insert, journal_start,
  journal_finish, finish_open, finish_found, finished_record, finished_time, replace,
}

-- A status is open or final, the bytes are within 63 bits, and the latencies are in order.
pub record IsFine (F : Type 0) (r : InteractionRecord F) : Type 0 where
  pub known : (one_of ("pending" ∷ "streaming" ∷ []) r.status || terminal r.status) ≡ true
  pub bytes : r.response_bytes < 2 ^ 63
  pub latency : in_order r.header_latency_ms r.total_latency_ms ≡ true

-- Each id is in one row.
abbrev pub HasOwnIds : (F : Type 0) → List (InteractionRecord F) → Type 0
HasOwnIds F [] = Unit
HasOwnIds F (r ∷ rs) = (any (has_id F r.id) rs ≡ false) × HasOwnIds F rs

pub record IsSoundJournal (F : Type 0) (journal : Journal F) : Type 0 where
  pub own : HasOwnIds F journal.interactions
  pub fine : All (IsFine F) journal.interactions

module _ (F : Type 0) where
  any-kept :
      (id : String) (p : InteractionRecord F → Bool) (rs : List (InteractionRecord F))
      → any (has_id F id) rs ≡ false
      → any (has_id F id) (keep_if p rs) ≡ false
  any-kept id p [] h = refl
  any-kept id p (r ∷ rs) h = let ih = any-kept id p rs in ground arith

  HasOwnIds-keep_if :
      (p : InteractionRecord F → Bool) (rs : List (InteractionRecord F))
      → HasOwnIds F rs
      → HasOwnIds F (keep_if p rs)
  HasOwnIds-keep_if p [] own = tt
  HasOwnIds-keep_if p (r ∷ rs) own = elim (Bool-cases (p r)) [
    | inl kept ↦ rw kept (any-kept r.id p rs own.0, HasOwnIds-keep_if p rs own.1)
    | inr gone ↦ rw gone (HasOwnIds-keep_if p rs own.1)
  ]

  pub journal_prune-IsSoundJournal :
      (journal : Journal F) (days now : ℕ)
      → IsSoundJournal F journal
      → IsSoundJournal F (journal_prune F journal days now)
  unfolding journal_prune
  journal_prune-IsSoundJournal journal days now s = record {
    own = HasOwnIds-keep_if _ journal.interactions s.own;
    fine = All-keep_if (IsFine F) _ journal.interactions s.fine;
  }

  pub journal_delete_history-IsSoundJournal :
      (journal after : Journal F) (stamp : Stamp) (n : ℕ)
      → journal_delete_history F journal stamp ≡ ok (n, after)
      → IsSoundJournal F after
  unfolding journal_delete_history
  journal_delete_history-IsSoundJournal journal after stamp n h =
      let e : after.interactions ≡ [] = ground arith in record { own = rw e tt; fine = rw e tt }

  module _ (f : Floats F) (parse_time : String → Option ℕ)
      (normalize_base : String → Option String) where
    any-replace :
        (id other : String) (after : InteractionRecord F) (rs : List (InteractionRecord F))
        → after.id ≡ other
        → any (has_id F id) (map (replace F f parse_time normalize_base other after) rs)
          ≡ any (has_id F id) rs
    any-replace id other after [] e = refl
    any-replace id other after (r ∷ rs) e = elim (Bool-cases (str_eq r.id other)) [
      | inl hit ↦
          let same : after.id ≡ r.id = e ∙ sym ((eq_iff r.id other).0 hit) in
          rw (hit, same, any-replace id other after rs e) refl
      | inr miss ↦ rw (miss, any-replace id other after rs e) refl
    ]

    HasOwnIds-replace :
        (other : String) (after : InteractionRecord F) (rs : List (InteractionRecord F))
        → after.id ≡ other
        → HasOwnIds F rs
        → HasOwnIds F (map (replace F f parse_time normalize_base other after) rs)
    HasOwnIds-replace other after [] e own = tt
    HasOwnIds-replace other after (r ∷ rs) e own = elim (Bool-cases (str_eq r.id other)) [
      | inl hit ↦
          let same : after.id ≡ r.id = e ∙ sym ((eq_iff r.id other).0 hit) in
          rw (hit, same)
            (any-replace r.id other after rs e ∙ own.0, HasOwnIds-replace other after rs e own.1)
      | inr miss ↦
          rw miss
            (any-replace r.id other after rs e ∙ own.0, HasOwnIds-replace other after rs e own.1)
    ]

    All-replace :
        (other : String) (after : InteractionRecord F) (rs : List (InteractionRecord F))
        → IsFine F after
        → All (IsFine F) rs
        → All (IsFine F) (map (replace F f parse_time normalize_base other after) rs)
    All-replace other after [] a ps = tt
    All-replace other after (r ∷ rs) a ps = elim (Bool-cases (str_eq r.id other)) [
      | inl hit ↦ rw hit (a, All-replace other after rs a ps.1)
      | inr miss ↦ rw miss (ps.0, All-replace other after rs a ps.1)
    ]

    insert_interaction-IsSoundJournal :
        (journal after : Journal F) (start : InteractionStart F) (now : ℕ) (b : Bool)
        → insert_interaction F f parse_time normalize_base journal start now ≡ ok (b, after)
        → IsSoundJournal F journal
        → IsSoundJournal F after
    unfolding insert_interaction
    insert_interaction-IsSoundJournal journal after start now b h s =
        let (destination, a, h1) =
          >>=-eq-ok (check_start F f parse_time normalize_base start) _ h in
        let (started, c, h2) =
          >>=-eq-ok (timestamp F f parse_time normalize_base start.started_at now) _ h1 in
        let (free, h3) =
          ensure-eq-ok (not (any (has_id F start.id) journal.interactions)) constraint_failed _
            h2 in
        let r = record_of F f parse_time normalize_base start destination started in
        let e : after.interactions ≡ r ∷ journal.interactions =
          sym (ap (λ (x : Bool × Journal F). x.1.interactions) (ok_injective _ _ h3)) in
        let new : any (has_id F start.id) journal.interactions ≡ false = ground arith in
        record {
          own = rw e (new, s.own);
          fine = rw e (record { known = refl; bytes = omega arith; latency = refl }, s.fine);
        }

    after_insert-IsSoundJournal :
        (journal : Journal F) (start : InteractionStart F) (now : ℕ)
        (r : Result Error (Bool × Journal F))
        → insert_interaction F f parse_time normalize_base journal start now ≡ r
        → IsSoundJournal F journal
        → IsSoundJournal F (after_insert F f parse_time normalize_base journal r).0
    after_insert-IsSoundJournal journal start now (err e) h s = s
    after_insert-IsSoundJournal journal start now (ok (b, after)) h s =
        insert_interaction-IsSoundJournal journal after start now b h s

    pub journal_start-IsSoundJournal :
        (journal : Journal F) (preferences : Result Error (Bool × ℕ)) (before now : ℕ)
        (start : InteractionStart F)
        → IsSoundJournal F journal
        → IsSoundJournal F
            (journal_start F f parse_time normalize_base journal preferences before now start).0
    unfolding journal_start
    journal_start-IsSoundJournal journal (err e) before now start s = s
    journal_start-IsSoundJournal journal (ok (true, days)) before now start s =
        let pruned = journal_prune F journal days before in
        after_insert-IsSoundJournal pruned start now _ refl
          (journal_prune-IsSoundJournal journal days before s)
    journal_start-IsSoundJournal journal (ok (false, days)) before now start s =
        journal_prune-IsSoundJournal journal days before s

    finished_record-IsFine :
        (r : InteractionRecord F) (finish : InteractionFinish) (finished : Option ℕ)
        → valid_completion F f parse_time normalize_base finish.status ≡ true
        → metric (some finish.response_bytes) ≡ true
        → in_order
            (or_else finish.header_latency_ms r.header_latency_ms)
            (or_else finish.total_latency_ms r.total_latency_ms)
          ≡ true
        → IsFine F (finished_record F f parse_time normalize_base r finish finished)
    unfolding metric
    finished_record-IsFine r finish finished known bytes order = record {
      known = ground arith;
      bytes = ltb→lt finish.response_bytes (2 ^ 63) bytes;
      latency = order;
    }

    finish_open-IsSoundJournal :
        (journal after : Journal F) (id : String) (finish : InteractionFinish) (now : ℕ)
        (r : InteractionRecord F) (b : Bool)
        → finish_open F f parse_time normalize_base journal id finish now r ≡ ok (b, after)
        → valid_completion F f parse_time normalize_base finish.status ≡ true
        → metric (some finish.response_bytes) ≡ true
        → str_eq r.id id ≡ true
        → IsSoundJournal F journal
        → IsSoundJournal F after
    finish_open-IsSoundJournal journal after id finish now r b h known bytes named s =
        let (more, h1) =
          ensure-eq-ok (leb r.response_bytes finish.response_bytes) bytes_decreased _ h in
        let (stream, h2) =
          ensure-eq-ok (not (str_eq finish.status "streaming") || r.streaming) not_streaming _ h1 in
        let (order, h3) =
          ensure-eq-ok
            (in_order (or_else finish.header_latency_ms r.header_latency_ms)
              (or_else finish.total_latency_ms r.total_latency_ms))
            latency_order _ h2 in
        let (finished, t, h4) =
          >>=-eq-ok (finished_time F f parse_time normalize_base r finish now) _ h3 in
        let made = finished_record F f parse_time normalize_base r finish finished in
        let e : map (replace F f parse_time normalize_base id made) journal.interactions
            ≡ after.interactions =
          ap (λ (x : Bool × Journal F). x.1.interactions) (ok_injective _ _ h4) in
        record {
          own =
              subst (HasOwnIds F) e
                (HasOwnIds-replace id made journal.interactions ((eq_iff r.id id).0 named) s.own);
          fine = subst (All (IsFine F)) e (
              All-replace id made journal.interactions
                (finished_record-IsFine r finish finished known bytes order) s.fine);
        }

    finish_found-IsSoundJournal :
        (journal after : Journal F) (id : String) (finish : InteractionFinish) (now : ℕ)
        (found : Option (InteractionRecord F)) (b : Bool)
        → find (has_id F id) journal.interactions ≡ found
        → finish_found F f parse_time normalize_base journal id finish now found ≡ ok (b, after)
        → valid_completion F f parse_time normalize_base finish.status ≡ true
        → metric (some finish.response_bytes) ≡ true
        → IsSoundJournal F journal
        → IsSoundJournal F after
    finish_found-IsSoundJournal journal after id finish now none b found h known bytes s =
        subst (IsSoundJournal F) (ap (λ (x : Bool × Journal F). x.1) (ok_injective _ _ h)) s
    finish_found-IsSoundJournal journal after id finish now (some r) b found h known bytes s =
        elim (Bool-cases (terminal r.status)) [
          | inl final ↦
              subst (IsSoundJournal F)
                (ap (λ (x : Bool × Journal F). x.1) (ok_injective _ _ (rw final at h))) s
          | inr going ↦
              finish_open-IsSoundJournal journal after id finish now r b (rw going at h) known bytes
                (find-holds (has_id F id) journal.interactions r found) s
        ]

    pub journal_finish-IsSoundJournal :
        (journal after : Journal F) (id : String) (finish : InteractionFinish) (now : ℕ) (b : Bool)
        → journal_finish F f parse_time normalize_base journal id finish now ≡ ok (b, after)
        → IsSoundJournal F journal
        → IsSoundJournal F after
    unfolding journal_finish
    journal_finish-IsSoundJournal journal after id finish now b h s =
        let (known, h1) =
          ensure-eq-ok (valid_completion F f parse_time normalize_base finish.status)
            unknown_completion _ h in
        let (status, h2) =
          ensure-eq-ok (none_or (λ s. leb 100 s && leb s 599) finish.http_status)
            invalid_http_status _ h1 in
        let metrics =
          finish.header_latency_ms
          ∷ finish.total_latency_ms
          ∷ finish.input_tokens
          ∷ finish.output_tokens
          ∷ finish.cached_tokens
          ∷ finish.cache_write_tokens
          ∷ finish.total_tokens
          ∷ some finish.response_bytes
          ∷ [] in
        let (bytes, h3) = ensure-eq-ok (all metric metrics) metric_out_of_range _ h2 in
        finish_found-IsSoundJournal journal after id finish now _ b refl h3 known (ground arith) s
