-- ===== src/Core/Policy/Retained.antt =====
-- The decisions that the vault keeps: the last 1000 at most, newest first.
use omni_os.Prelude.{
  leb, Bool-cases, length, any, keep_if, All, Result-cases, Result, ok, err, text_comparable,
  pair_comparable, ℕ, ◌+◌, ◌≤◌, ◌<◌, String, ◌≡◌, inl, inr, Bool, true, false, not, Option, some,
  List, [], ◌∷◌, arith, str_eq,
}
use omni_os.Core.Errors.{Error}
use omni_os.Core.Audit.{Stamp, audit_on, no_details}
use omni_os.Core.Policy.Inspect.{Inspection}
use omni_os.Core.Policy.{Engine, CompiledPolicy}
use omni_os.Core.Policy.Store.{
  PolicyStore, Codec, Decision, record_decision, audit_blocked, keep_decision, finish,
  policy_evaluate,
}

abbrev Row : Type 0
Row = ℕ × Decision

-- Keys below a bound, each below the one before.
abbrev Descends : ℕ → List Row → Type 0
Descends top [] = Unit
Descends top ((seq, decision) ∷ rows) = (seq < top) × Descends seq rows

-- The rows of a store are its last ones: keys descend from the last one given, and none is 1000
-- or more below it.
pub record IsRetained (store : PolicyStore) : Type 0 where
  pub descending : Descends (store.last_seq + 1) store.decisions
  pub recent : All (λ (row : Row). store.last_seq < row.0 + 1000) store.decisions

Descends-weaken :
    (low high : ℕ) (rows : List Row) → low ≤ high → Descends low rows → Descends high rows
Descends-weaken low high [] h d = tt
Descends-weaken low high ((seq, x) ∷ rows) h d = (omega (arith, h, d.0), d.1)

keep_if-Descends :
    (p : Row → Bool) (top : ℕ) (rows : List Row) → Descends top rows → Descends top (keep_if p rows)
keep_if-Descends p top [] d = tt
keep_if-Descends p top ((seq, x) ∷ rows) d = elim (Bool-cases (p (seq, x))) [
  | inl kept ↦ rw kept (d.0, keep_if-Descends p seq rows d.1)
  | inr dropped ↦
      rw dropped (Descends-weaken seq top _ (omega (arith, d.0)) (keep_if-Descends p seq rows d.1))
]

keep_if-All {ℓ} :
    {A : Type ℓ} (p : A → Bool) (P : A → Type 0) (xs : List A)
    → ((x : A) → p x ≡ true → P x)
    → All P (keep_if p xs)
keep_if-All p P [] h = tt
keep_if-All p P (x ∷ xs) h = elim (Bool-cases (p x)) [
  | inl kept ↦ rw kept (h x kept, keep_if-All p P xs h)
  | inr dropped ↦ rw dropped (keep_if-All p P xs h)
]

length_bound :
    (top last : ℕ) (rows : List Row)
    → last < top + 1000
    → Descends top rows
    → All (λ (row : Row). last < row.0 + 1000) rows
    → length rows + last < top + 1000
length_bound top last [] h d r = omega (arith, h)
length_bound top last ((seq, x) ∷ rows) h d r =
    let ih = length_bound seq last rows r.0 d.1 r.1 in omega (arith, ih, d.0)

not_leb→lt : (a b : ℕ) → not (leb a b) ≡ true → b < a
not_leb→lt a b h = ground arith

record_decision-IsRetained :
    (store : PolicyStore) (decision : Decision)
    → IsRetained store
    → IsRetained (record_decision store decision)
unfolding record_decision
record_decision-IsRetained store decision kept =
    let seq = store.last_seq + 1 in
    let rows : List Row = (seq, decision) ∷ store.decisions in
    let young : Row → Bool = λ row. not (leb (row.0 + 1000) seq) in
    let down : Descends (seq + 1) rows =
      (omega arith, Descends-weaken _ seq _ (omega arith) kept.descending) in
    record {
      descending = keep_if-Descends young (seq + 1) rows down;
      recent =
          keep_if-All young (λ (row : Row). seq < row.0 + 1000) rows (λ row h. not_leb→lt _ _ h);
    }

-- An audit entry leaves the decisions.
audit_blocked-IsRetained :
    (store : PolicyStore) (stamp : Stamp) (decision : Decision)
    → IsRetained store
    → IsRetained (audit_blocked store stamp decision).0
unfolding audit_blocked
audit_blocked-IsRetained store stamp decision kept = elim (Bool-cases decision.allowed) [
  | inl allowed ↦ rw allowed kept
  | inr blocked ↦
      elim (Result-cases (
        audit_on store.journal stamp "policy_blocked"
          (record no_details { entity_id = some decision.id }))) [
            | inl (journal, e) ↦
                rw (blocked, e) (record { descending = kept.descending; recent = kept.recent })
            | inr (failure, e) ↦ rw (blocked, e) kept
          ]
]

keep_decision-IsRetained :
    (store : PolicyStore) (stamp : Stamp) (decision : Decision)
    → IsRetained store
    → IsRetained (keep_decision store stamp decision).0
unfolding keep_decision
keep_decision-IsRetained store stamp decision kept =
    elim (Bool-cases (any (λ (row : ℕ × Decision). str_eq row.1.id decision.id) store.decisions)) [
      | inl used ↦ rw used kept
      | inr fresh ↦ rw fresh (
          audit_blocked-IsRetained _ stamp decision
            (record_decision-IsRetained store decision kept))
    ]

finish-IsRetained :
    (store : PolicyStore) (stamp : Stamp) (persist : Bool) (r : Result Error Decision)
    → IsRetained store
    → IsRetained (finish store stamp persist r).0
unfolding finish
finish-IsRetained store stamp persist (err e) kept = kept
finish-IsRetained store stamp false (ok decision) kept = kept
finish-IsRetained store stamp true (ok decision) kept =
    keep_decision-IsRetained store stamp decision kept

-- Every call of `policy_evaluate`, whatever it returns, keeps the rows descending and recent, and
-- so at most 1000 of them.
pub policy_evaluate-IsRetained :
    {Regex : Type 0} (engine : Engine Regex) (codec : Codec) (store : PolicyStore)
    (stamp audit_stamp : Stamp)
    → (managed : Option (CompiledPolicy Regex)) (content : Inspection) (operation : String)
      (persist : Bool)
    → IsRetained store
    → let after =
        (policy_evaluate engine codec store stamp audit_stamp managed content operation
          persist).0 in
      IsRetained after × (length after.decisions ≤ 1000)
unfolding policy_evaluate
policy_evaluate-IsRetained engine codec store stamp audit_stamp managed content operation persist
      kept =
    let after =
      (policy_evaluate engine codec store stamp audit_stamp managed content operation persist).0 in
    let k : IsRetained after = finish-IsRetained store audit_stamp persist _ kept in
    let n =
      length_bound (after.last_seq + 1) after.last_seq after.decisions (omega arith) k.descending
        k.recent in
    (k, omega (arith, n))
