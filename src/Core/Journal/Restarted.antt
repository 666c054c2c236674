-- ===== src/Core/Journal/Restarted.antt =====
-- A journal that operations built, after a restart.

-- A record that a restart cut off, with the outcome that it gets; its cost is estimated again.
use omni_os.Core.Audit.{sanitize_error, AuditRecord, Stamp}
use omni_os.Prelude.{
  length, keep_if, All, Result-cases, Result, ok, err, text_comparable, pair_comparable, one_of, ℕ,
  String, ◌≡◌, refl, sym, subst, inl, inr, Bool, true, Option, some, List, [], ◌∷◌, map,
}
use omni_os.Core.Errors.{Error}
use omni_os.Core.Journal.{
  Floats, InteractionStart, InteractionRecord, InteractionFinish, Journal, journal_prune,
  journal_delete_history, journal_start, journal_finish, is_open, restarted, count, add_count,
  recover_all, journal_recover_interrupted,
}
use omni_os.Core.Journal.Sound.{
  IsSoundJournal, journal_prune-IsSoundJournal, journal_delete_history-IsSoundJournal,
  journal_start-IsSoundJournal, journal_finish-IsSoundJournal,
}
use omni_os.Core.Journal.Recovered.{
  settled, terminal-settled, All-settled, AreApart, recover_all-settled, recover_all-∷,
}

pub record IsAborted (F : Type 0) (now : ℕ) (r after : InteractionRecord F) : Type 0 where
  pub status : after.status ≡ "aborted"
  pub error_code : after.error_code ≡ some "process_restarted"
  pub finished_at : after.finished_at ≡ some now
  pub rest :
      record after {
        status = r.status;
        error_code = r.error_code;
        finished_at = r.finished_at;
        estimated_cost = r.estimated_cost;
        cost_currency = r.cost_currency;
      }
      ≡ r

module _ (F : Type 0) (f : Floats F) (parse_time : String → Option ℕ)
    (normalize_base : String → Option String) where
  -- One operation on the interactions, or a change of the audit beside them.
  pub data JournalStep (j : Journal F) : Journal F → Type 0 where
    starts :
        (preferences : Result Error (Bool × ℕ)) (before now : ℕ) (start : InteractionStart F)
        → JournalStep j
            (journal_start F f parse_time normalize_base j preferences before now start).0
    finishes :
        (k : Journal F) (id : String) (finish : InteractionFinish) (now : ℕ) (b : Bool)
        → journal_finish F f parse_time normalize_base j id finish now ≡ ok (b, k)
        → JournalStep j k
    prunes : (days now : ℕ) → JournalStep j (journal_prune F j days now)
    clears :
        (k : Journal F) (stamp : Stamp) (n : ℕ)
        → journal_delete_history F j stamp ≡ ok (n, k)
        → JournalStep j k
    recovers :
        (preferences : Result Error (Bool × ℕ)) (before now : ℕ)
        → JournalStep j
            (journal_recover_interrupted F f parse_time normalize_base j preferences before now).0
    audits : (audit : List AuditRecord) → JournalStep j (record j { audit = audit })

  pub data JournalReach (j : Journal F) : Journal F → Type 0 where
    here : JournalReach j j
    next : {k l : Journal F} → JournalReach j k → JournalStep k l → JournalReach j l

  add_count-journal :
      (n : ℕ) (r : Journal F × Result Error ℕ)
      → IsSoundJournal F r.0
      → IsSoundJournal F (add_count F f parse_time normalize_base n r).0
  add_count-journal n (journal, err e) s = s
  add_count-journal n (journal, ok m) s = s

  recover_all-IsSoundJournal :
      (rs : List (InteractionRecord F)) (journal : Journal F) (now : ℕ)
      → IsSoundJournal F journal
      → IsSoundJournal F (recover_all F f parse_time normalize_base rs journal now).0
  unfolding recover_all
  recover_all-IsSoundJournal [] journal now s = s
  recover_all-IsSoundJournal (r ∷ rs) journal now s =
      elim (Result-cases (
        journal_finish F f parse_time normalize_base journal r.id
          (restarted F f parse_time normalize_base r) now)) [
            | inl ((b, after), h) ↦
                subst (λ (x : Journal F × Result Error ℕ). IsSoundJournal F x.0)
                  (sym (recover_all-∷ F f parse_time normalize_base journal after r rs now b h))
                  (add_count-journal (count F f parse_time normalize_base b) _ (
                    recover_all-IsSoundJournal rs after now (
                      journal_finish-IsSoundJournal F f parse_time normalize_base journal after r.id
                        (restarted F f parse_time normalize_base r) now b h s)))
            | inr (e, h) ↦ rw (h, recover_all) s
          ]

  journal_recover_interrupted-IsSoundJournal :
      (journal : Journal F) (preferences : Result Error (Bool × ℕ)) (before now : ℕ)
      → IsSoundJournal F journal
      → IsSoundJournal F
          (journal_recover_interrupted F f parse_time normalize_base journal preferences before
            now).0
  unfolding journal_recover_interrupted
  journal_recover_interrupted-IsSoundJournal journal (err e) before now s = s
  journal_recover_interrupted-IsSoundJournal journal (ok (enabled, days)) before now s =
      recover_all-IsSoundJournal _ (journal_prune F journal days before) now
        (journal_prune-IsSoundJournal F journal days before s)

  JournalStep-IsSoundJournal :
      (j k : Journal F) → JournalStep j k → IsSoundJournal F j → IsSoundJournal F k
  JournalStep-IsSoundJournal j k (starts preferences before now start) s =
      journal_start-IsSoundJournal F f parse_time normalize_base j preferences before now start s
  JournalStep-IsSoundJournal j k (finishes _ id finish now b h) s =
      journal_finish-IsSoundJournal F f parse_time normalize_base j k id finish now b h s
  JournalStep-IsSoundJournal j k (prunes days now) s = journal_prune-IsSoundJournal F j days now s
  JournalStep-IsSoundJournal j k (clears _ stamp n h) s =
      journal_delete_history-IsSoundJournal F j k stamp n h
  JournalStep-IsSoundJournal j k (recovers preferences before now) s =
      journal_recover_interrupted-IsSoundJournal j preferences before now s
  JournalStep-IsSoundJournal j k (audits audit) s = record { own = s.own; fine = s.fine }

  JournalReach-IsSoundJournal :
      (j k : Journal F) → JournalReach j k → IsSoundJournal F j → IsSoundJournal F k
  JournalReach-IsSoundJournal j k here s = s
  JournalReach-IsSoundJournal j k (next {k = l} reach step) s =
      JournalStep-IsSoundJournal l k step (JournalReach-IsSoundJournal j l reach s)

  apart_from_none : (rs : List (InteractionRecord F)) → AreApart F f parse_time normalize_base [] rs
  apart_from_none [] = tt
  apart_from_none (r ∷ rs) = (refl, apart_from_none rs)

  recovered-settled :
      (journal : Journal F) (enabled : Bool) (days before now : ℕ)
      → IsSoundJournal F (journal_prune F journal days before)
      → journal_recover_interrupted F f parse_time normalize_base journal
          (ok (enabled, days))
          before
          now
        ≡ (
          record (journal_prune F journal days before) {
            interactions =
                map
                  (settled F f parse_time normalize_base now)
                  (journal_prune F journal days before).interactions;
          },
          ok (
              length (
                keep_if
                  (is_open F f parse_time normalize_base)
                  (journal_prune F journal days before).interactions)),
        )
  unfolding journal_recover_interrupted
  recovered-settled journal enabled days before now s =
      let pruned = journal_prune F journal days before in
      recover_all-settled F f parse_time normalize_base pruned.audit [] pruned.interactions now
        s.own s.fine (apart_from_none pruned.interactions)

  settled-IsAborted :
      (now : ℕ) (r : InteractionRecord F)
      → one_of ("pending" ∷ "streaming" ∷ []) r.status ≡ true
      → IsAborted F now r (settled F f parse_time normalize_base now r)
  unfolding sanitize_error
  settled-IsAborted now r going =
      rw going (record { status = refl; error_code = refl; finished_at = refl; rest = refl })

  -- In a journal that operations built from one without interactions, with any outcomes, the recovery
  -- at a start never fails once the preferences are read: each interaction within the retention that is
  -- pending or streaming gets the status "aborted" with the error code "process_restarted" and the time
  -- of the recovery, all else that was known of it but its cost stays, and the result is how many they
  -- were; every record is final then, and one that was final stays as it was.
  pub journal_recover_interrupted-settled :
      (empty journal : Journal F) (enabled : Bool) (days before now : ℕ)
      → empty.interactions ≡ []
      → JournalReach empty journal
      → let pruned = journal_prune F journal days before in
        let after = map (settled F f parse_time normalize_base now) pruned.interactions in
        (journal_recover_interrupted F f parse_time normalize_base journal
            (ok (enabled, days))
            before
            now
          ≡ (
            record pruned { interactions = after },
            ok (
                length (
                  keep_if
                    (λ (r : InteractionRecord F). one_of ("pending" ∷ "streaming" ∷ []) r.status)
                    pruned.interactions)),
          ))
        × All
            (λ (r : InteractionRecord F).
              one_of ("succeeded" ∷ "failed" ∷ "aborted" ∷ []) r.status ≡ true)
            after
        × ((r : InteractionRecord F)
            → one_of ("pending" ∷ "streaming" ∷ []) r.status ≡ true
            → IsAborted F now r (settled F f parse_time normalize_base now r))
        × ((r : InteractionRecord F)
            → one_of ("succeeded" ∷ "failed" ∷ "aborted" ∷ []) r.status ≡ true
            → settled F f parse_time normalize_base now r ≡ r)
  journal_recover_interrupted-settled empty journal enabled days before now none_ reach =
      let start : IsSoundJournal F empty = record { own = rw none_ tt; fine = rw none_ tt } in
      let s =
        journal_prune-IsSoundJournal F journal days before
          (JournalReach-IsSoundJournal empty journal reach start) in
      (
        recovered-settled journal enabled days before now s,
        All-settled F f parse_time normalize_base now _ s.fine,
        settled-IsAborted now,
        terminal-settled F f parse_time normalize_base now,
      )
