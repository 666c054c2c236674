-- ===== src/Core/Policy/Decided.antt =====
-- When a request is allowed: by the managed policy and by the local one.

use omni_os.Core.Policy.Store.{
  operations, PolicyStore, Codec, Decision, policy_current, policy_decision, decide,
  first_violation,
}
use omni_os.Core.Policy.{
  or_else, rule_violation, Engine, CompiledPolicy, PolicySpec, Rule, evaluate, file_violation,
}
use omni_os.Prelude.{
  ok_injective, if◌then◌else◌, Option-cases, ensure-eq-ok, >>=-eq-ok, ok, text_comparable,
  pair_comparable, one_of, ℕ, String, ◌≡◌, refl, subst, ◌↔◌, ◌⊎◌, inl, inr, Bool, true, false,
  Option, none, some, List, [], ◌∷◌, arith, str_eq,
}
use omni_os.Core.Errors.{unknown_operation}
use omni_os.Core.Audit.{Stamp}
use omni_os.Core.Policy.Inspect.{Inspection, InspectedFile, Violation, violation_of}
use omni_os.Core.Policy.Verdict.{IsAllowed, evaluate-none_iff}

abbrev NotAllowed : Option Violation → Type 0
NotAllowed v = (w : Violation) → v ≡ some w → str_eq w.code "allowed" ≡ false

abbrev NamedOther : Option Violation → Type 0
NamedOther none = Unit
NamedOther (some w) = str_eq w.code "allowed" ≡ false

pub some-NotAllowed : (v : Violation) → str_eq v.code "allowed" ≡ false → NotAllowed (some v)
some-NotAllowed v other w h = subst (λ (o : Option Violation). NamedOther o) h other

if-NotAllowed :
    (b : Bool) (x y : Option Violation)
    → NotAllowed x
    → NotAllowed y
    → NotAllowed (if b then x else y)
if-NotAllowed true x y nx ny = nx
if-NotAllowed false x y nx ny = ny

module _ {Regex : Type 0} (engine : Engine Regex) where
  or_else-NotAllowed :
      (x y : Option Violation) → NotAllowed x → NotAllowed y → NotAllowed (or_else engine x y)
  or_else-NotAllowed none y nx ny = ny
  or_else-NotAllowed (some v) y nx ny = nx

  rule_violation-NotAllowed :
      (code : String) (hit : Option (Rule × Regex))
      → str_eq code "allowed" ≡ false
      → NotAllowed (rule_violation engine code hit)
  rule_violation-NotAllowed reason none other w h = cc
  rule_violation-NotAllowed reason (some (rule, regex)) other w h =
      some-NotAllowed (record { code = reason; rule_id = some rule.id }) other w h

  file_violation-NotAllowed :
      (spec : PolicySpec) (files : List InspectedFile)
      → NotAllowed (file_violation engine spec files)
  unfolding file_violation
  file_violation-NotAllowed spec [] w h = cc
  file_violation-NotAllowed spec (file ∷ files) w h =
      if-NotAllowed _ _ _ (some-NotAllowed (violation_of "file_type_not_allowed") refl)
        (if-NotAllowed _ _ _ (some-NotAllowed (violation_of "file_too_large") refl)
          (file_violation-NotAllowed spec files))
        w h

  evaluate-NotAllowed :
      (policy : CompiledPolicy Regex) (content : Inspection)
      → NotAllowed content.violation
      → NotAllowed (evaluate engine policy content)
  unfolding evaluate
  evaluate-NotAllowed policy content named =
      if-NotAllowed _ _ _ (some-NotAllowed (violation_of "request_too_large") refl) (
        or_else-NotAllowed _ _ named (
          if-NotAllowed _ _ _ (some-NotAllowed (violation_of "too_many_files") refl) (
            or_else-NotAllowed _ _ (file_violation-NotAllowed policy.spec content.files) (
              or_else-NotAllowed _ _ (rule_violation-NotAllowed "blocked_pattern" _ refl)
                (rule_violation-NotAllowed "required_pattern_missing" _ refl)))))

  -- The managed policy, if there is one, allows the request.
  abbrev pub ManagedAllows : Option (CompiledPolicy Regex) → Inspection → Type 0
  ManagedAllows none content = Unit
  ManagedAllows (some policy) content = IsAllowed engine policy content

  refuted :
      (policy : CompiledPolicy Regex) (content : Inspection) (v : Violation)
      → evaluate engine policy content ≡ some v
      → ¬ IsAllowed engine policy content
  refuted policy content v e allowed =
      let n = (evaluate-none_iff engine policy content).1 allowed in cc

  -- The first violation has none of its own exactly when neither policy finds one.
  first_violation-cases :
      (codec : Codec) (managed : Option (CompiledPolicy Regex)) (local : CompiledPolicy Regex)
      (content : Inspection)
      → NotAllowed content.violation
      → ((first_violation engine codec managed local content ≡ none)
          × ManagedAllows managed content
          × IsAllowed engine local content)
        ⊎ ((v : String × Violation) × (first_violation engine codec managed local content ≡ some v)
            × (str_eq v.1.code "allowed" ≡ false)
            × ¬ (ManagedAllows managed content × IsAllowed engine local content))
  unfolding first_violation
  first_violation-cases codec none local content named =
      elim (Option-cases (evaluate engine local content)) [
        | inl e ↦ inl (rw e refl, tt, (evaluate-none_iff engine local content).0 e)
        | inr (v, e) ↦ inr (
          ("local", v),
          rw e refl,
          evaluate-NotAllowed local content named v e,
          λ h. refuted local content v e h.1,
        )
      ]
  first_violation-cases codec (some policy) local content named =
      elim (Option-cases (evaluate engine policy content)) [
        | inr (v, e) ↦ inr (
          ("managed", v),
          rw e refl,
          evaluate-NotAllowed policy content named v e,
          λ h. refuted policy content v e h.0,
        )
        | inl m ↦ elim (Option-cases (evaluate engine local content)) [
          | inl e ↦ inl (
            rw (m, e) refl,
            (evaluate-none_iff engine policy content).0 m,
            (evaluate-none_iff engine local content).0 e,
          )
          | inr (v, e) ↦ inr (
            ("local", v),
            rw (m, e) refl,
            evaluate-NotAllowed local content named v e,
            λ h. refuted local content v e h.1,
          )
        ]
      ]

  decide-allowed_iff :
      (codec : Codec) (stamp : Stamp) (operation : String) (revision : ℕ)
      → (managed : Option (CompiledPolicy Regex)) (local : CompiledPolicy Regex)
        (content : Inspection)
      → NotAllowed content.violation
      → let d = decide engine codec stamp operation revision managed local content in
        (d.revision ≡ revision)
        × ((d.allowed ≡ true) ↔ (ManagedAllows managed content × IsAllowed engine local content))
  unfolding decide
  decide-allowed_iff codec stamp operation revision managed local content named =
      elim (first_violation-cases codec managed local content named) [
        | inl (e, m, l) ↦ rw e (refl, (λ h. (m, l), λ h. refl))
        | inr (v, e, other, neither) ↦
            rw e (refl, (λ h. absurd (ground (arith, other)), λ h. absurd (neither h)))
      ]

  -- A decision that is made is on the current revision, and allows the request exactly when both the
  -- managed policy, if there is one, and the policy that compiles from the stored document allow it.
  -- A violation of the inspection is not called "allowed".
  pub policy_decision-allowed_iff :
      (codec : Codec) (store : PolicyStore) (stamp : Stamp)
      (managed : Option (CompiledPolicy Regex))
      → (content : Inspection) (operation : String) (decision : Decision)
      → NotAllowed content.violation
      → policy_decision engine codec store stamp managed content operation ≡ ok decision
      → (local : CompiledPolicy Regex) × (policy_current engine codec store
          ≡ ok (decision.revision, local))
        × ((decision.allowed ≡ true)
            ↔ (ManagedAllows managed content × IsAllowed engine local content))
  unfolding policy_decision
  policy_decision-allowed_iff codec store stamp managed content operation decision named h =
      let (listed, h1) = ensure-eq-ok (one_of operations operation) unknown_operation _ h in
      let ((revision, local), c, h2) = >>=-eq-ok (policy_current engine codec store) _ h1 in
      let made : decide engine codec stamp operation revision managed local content ≡ decision =
        ok_injective _ _ h2 in
      let (same, allowed) =
        decide-allowed_iff codec stamp operation revision managed local content named in
      subst
        (λ (d : Decision).
          (local : CompiledPolicy Regex) × (policy_current engine codec store
            ≡ ok (d.revision, local))
          × ((d.allowed ≡ true) ↔ (ManagedAllows managed content × IsAllowed engine local content)))
        made (local, rw same c, allowed)
