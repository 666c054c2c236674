-- ===== src/Core/Policy/Verdict.antt =====
-- The verdict of a policy: exactly what it lets through, and that block rules win.

use omni_os.Core.Policy.{
  some, Engine, CompiledPolicy, PolicySpec, Rule, block_match, require_match, file_violation,
  blocks, misses, evaluate,
}
use omni_os.Prelude.{
  ◌||◌, ◌⊎◌, ◌++◌, one_of, Bool-cases, le→ltb_false, length, find, All, ◌≤◌, ◌≡◌, refl, ◌↔◌, inl,
  inr, Bool, true, false, none, List, [], ◌∷◌, arith,
}
use omni_os.Core.Policy.Inspect.{Inspection, InspectedFile}

module _ {Regex : Type 0} (engine : Engine Regex) where
  -- A file of an allowed type within the size limit.
  abbrev pub FileAllowed : PolicySpec → InspectedFile → Type 0
  FileAllowed spec file =
      (one_of spec.allowed_extensions file.extension ≡ true) × (file.bytes ≤ spec.max_file_bytes)

  -- A block rule matches neither text; a require rule matches the text.
  abbrev pub RuleMet : Inspection → Rule × Regex → Type 0
  RuleMet content (rule, regex) =
      (rule.action ≡ block_match
        → (engine.is_match regex content.text ≡ false)
          × (engine.is_match regex content.joined ≡ false))
      × (rule.action ≡ require_match → engine.is_match regex content.text ≡ true)

  -- What a policy lets through.
  pub record IsAllowed (policy : CompiledPolicy Regex) (content : Inspection) : Type 0 where
    pub size : content.bytes ≤ policy.spec.max_request_bytes
    pub inspectable : content.violation ≡ none
    pub few_files : length content.files ≤ policy.spec.max_files
    pub files : All (FileAllowed policy.spec) content.files
    pub rules : All (RuleMet content) policy.expressions

  find-none_iff {ℓ} :
      {A : Type ℓ} (p : A → Bool) (xs : List A) → (find p xs ≡ none) ↔ All (λ x. p x ≡ false) xs
  find-none_iff p [] = (λ h. tt, λ h. refl)
  find-none_iff p (x ∷ xs) = elim (Bool-cases (p x)) [
    | inl t ↦ (λ h. absurd (ground arith), λ h. absurd (ground arith))
    | inr f ↦
        (λ h. (f, (find-none_iff p xs).0 (ground arith)), λ h. rw f ((find-none_iff p xs).1 h.1))
  ]

  file_violation-none_iff :
      (spec : PolicySpec) (files : List InspectedFile)
      → (file_violation engine spec files ≡ none) ↔ All (FileAllowed spec) files
  unfolding file_violation
  file_violation-none_iff spec [] = (λ h. tt, λ h. refl)
  file_violation-none_iff spec (file ∷ files) =
      let ih = file_violation-none_iff spec files in (λ h. ground arith, λ h. ground arith)

  blocks-RuleMet :
      (content : Inspection) (rule : Rule) (regex : Regex)
      → ((blocks engine content (rule, regex) ≡ false)
          × (misses engine content (rule, regex) ≡ false))
        ↔ RuleMet content (rule, regex)
  blocks-RuleMet content rule regex = (λ h. ground arith, λ h. ground arith)

  All-RuleMet :
      (content : Inspection) (es : List (Rule × Regex))
      → All (λ x. blocks engine content x ≡ false) es
      → All (λ x. misses engine content x ≡ false) es
      → All (RuleMet content) es
  All-RuleMet content [] b m = tt
  All-RuleMet content ((rule, regex) ∷ es) b m =
      ((blocks-RuleMet content rule regex).0 (b.0, m.0), All-RuleMet content es b.1 m.1)

  RuleMet-All :
      (content : Inspection) (es : List (Rule × Regex))
      → All (RuleMet content) es
      → All (λ x. blocks engine content x ≡ false) es
        × All (λ x. misses engine content x ≡ false) es
  RuleMet-All content [] h = (tt, tt)
  RuleMet-All content ((rule, regex) ∷ es) h =
      let (b, m) = (blocks-RuleMet content rule regex).1 h.0 in
      let (bs, ms) = RuleMet-All content es h.1 in ((b, bs), (m, ms))

  evaluate-parts :
      (policy : CompiledPolicy Regex) (content : Inspection)
      → evaluate engine policy content ≡ none
      → (content.bytes ≤ policy.spec.max_request_bytes)
        × (content.violation ≡ none)
        × (length content.files ≤ policy.spec.max_files)
        × (file_violation engine policy.spec content.files ≡ none)
        × (find (blocks engine content) policy.expressions ≡ none)
        × (find (misses engine content) policy.expressions ≡ none)
  unfolding evaluate
  evaluate-parts policy content h = ground arith

  -- A policy finds no violation exactly in what it allows: the size, no flagged attachment or depth, the
  -- number, types and sizes of the files, no match of any block rule in either text, and a match of
  -- every require rule, wherever the rules stand.
  pub evaluate-none_iff :
      (policy : CompiledPolicy Regex) (content : Inspection)
      → (evaluate engine policy content ≡ none) ↔ IsAllowed policy content
  unfolding evaluate
  evaluate-none_iff policy content = (
    λ h.
        let p = evaluate-parts policy content h in
        record {
          size = p.0;
          inspectable = p.1;
          few_files = p.2;
          files = (file_violation-none_iff policy.spec content.files).0 p.3;
          rules =
              All-RuleMet content policy.expressions ((find-none_iff _ policy.expressions).0 p.4)
                ((find-none_iff _ policy.expressions).0 p.5);
        },
    λ h.
        let (b, m) = RuleMet-All content policy.expressions h.rules in
        rw
          (
            le→ltb_false _ _ h.size,
            h.inspectable,
            le→ltb_false _ _ h.few_files,
            (file_violation-none_iff policy.spec content.files).1 h.files,
            (find-none_iff (blocks engine content) policy.expressions).1 b,
            (find-none_iff (misses engine content) policy.expressions).1 m,
          )
          refl,
  )

  find-first {ℓ} :
      {A : Type ℓ} (p : A → Bool) (before after : List A) (x : A)
      → All (λ y. p y ≡ false) before
      → p x ≡ true
      → find p (before ++ x ∷ after) ≡ some x
  find-first p [] after x none_before here = rw here refl
  find-first p (y ∷ before) after x none_before here =
      rw none_before.0 (find-first p before after x none_before.1 here)

  -- In a request of allowed size, files and shape, the first block rule that matches one of the two
  -- texts decides and is named in the violation, whatever the other rules are: require rules before
  -- or after it, met or not, change nothing.
  pub evaluate-block_wins :
      (policy : CompiledPolicy Regex) (content : Inspection) (before after : List (Rule × Regex))
      → (rule : Rule) (regex : Regex) → policy.expressions ≡ before ++ (rule, regex) ∷ after
      → content.bytes ≤ policy.spec.max_request_bytes
      → content.violation ≡ none
      → length content.files ≤ policy.spec.max_files
      → All (FileAllowed policy.spec) content.files
      → All (λ e. blocks engine content e ≡ false) before
      → rule.action ≡ block_match
      → (engine.is_match regex content.text ≡ true) ⊎ (engine.is_match regex content.joined ≡ true)
      → evaluate engine policy content
        ≡ some (record { code = "blocked_pattern"; rule_id = some rule.id })
  unfolding evaluate
  evaluate-block_wins policy content before after rule regex split size shape few files earlier kind
        matched =
      let either : (engine.is_match regex content.text || engine.is_match regex content.joined)
          ≡ true =
        ground arith in
      let here : blocks engine content (rule, regex) ≡ true = rw kind either in
      rw
        (
          le→ltb_false _ _ size,
          shape,
          le→ltb_false _ _ few,
          (file_violation-none_iff policy.spec content.files).1 files,
          split,
          find-first (blocks engine content) before after (rule, regex) earlier here,
        )
        refl
