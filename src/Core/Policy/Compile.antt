-- ===== src/Core/Policy/Compile.antt =====
-- What `CompiledPolicy::compile` accepts, and what it keeps of a policy.

-- No two elements are the same text.
use omni_os.Core.Policy.{
  add_enabled, Engine, CompiledPolicy, PolicySpec, Rule, good_name, good_limits, good_extensions,
  good_id, good_text, compile_rules, compile,
}
use omni_os.Prelude.{
  ok_injective, leb, if◌then◌else◌, le→leb, leb→le, length, any, All, ensure, or_fail, ◌>>=◌, ◌>>◌,
  Result, ok, err, text_comparable, pair_comparable, one_of, ◌≤◌, String, ◌≡◌, refl, sym, ap, ◌∙◌,
  subst, ◌↔◌, Bool, true, false, not, ◌&&◌, Option, none, some, List, [], ◌∷◌, map, arith, str_eq,
  eq_iff,
}
use omni_os.Core.Errors.{
  Error, rule_id, rule_text, rule_pattern, policy_name, policy_limits, policy_extensions,
  policy_too_many_rules, bad_json,
}
use omni_os.Core.Policy.Inspect.{file_types}

abbrev pub AreUnique : List String → Type 0
AreUnique [] = Unit
AreUnique (x ∷ xs) = (one_of xs x ≡ false) × AreUnique xs

abbrev ids_of : List Rule → List String
ids_of rules = map (λ (r : Rule). r.id) rules

-- None of the names in the second list is in the first.
abbrev AreNew : List String → List String → Type 0
AreNew seen names = All (λ x. one_of seen x ≡ false) names

AreNew-cons :
    (x : String) (seen names : List String)
    → AreNew (x ∷ seen) names ↔ ((one_of names x ≡ false) × AreNew seen names)
AreNew-cons x seen [] = (λ h. (refl, tt), λ h. tt)
AreNew-cons x seen (n ∷ names) =
    let ih = AreNew-cons x seen names in
    let swap : (str_eq x n ≡ true) ↔ (str_eq n x ≡ true) = (
      λ h. (eq_iff n x).1 (sym ((eq_iff x n).0 h)),
      λ h. (eq_iff x n).1 (sym ((eq_iff n x).0 h)),
    ) in
    (λ h. ground arith, λ h. ground arith)

both_iff : (a b : Bool) → (a && not b) ≡ true → (a ≡ true) × (b ≡ false)
both_iff a b h = ground arith

three : (a b c : Bool) → ((a && not b) && c) ≡ true → ((a ≡ true) × (b ≡ false)) × (c ≡ true)
three a b c h = ground arith

abbrev IsSupported : String → Type 0
IsSupported ext = any (λ (p : String × String). str_eq ext p.0) file_types ≡ true

good_extensions_iff :
    (seen exts : List String)
    → (good_extensions seen exts ≡ true)
      ↔ (All IsSupported exts × AreUnique exts × AreNew seen exts)
unfolding good_extensions
good_extensions_iff seen [] = (λ h. (tt, tt, tt), λ h. refl)
good_extensions_iff seen (ext ∷ exts) =
    let ih = good_extensions_iff (ext ∷ seen) exts in
    let new = AreNew-cons ext seen exts in
    (
      λ h.
          let (here, there) =
            three (any (λ (p : String × String). str_eq ext p.0) file_types) (one_of seen ext)
              (good_extensions (ext ∷ seen) exts) h in
          let (supported, unique, fresh) = ih.0 there in
          let (apart, rest) = new.0 fresh in ((here.0, supported), (apart, unique), (here.1, rest)),
      λ h. let r = ih.1 (h.0.1, h.1.1, new.1 (h.1.0, h.2.1)) in rw (h.0.0, h.2.0, r) refl,
    )

module _ {Regex : Type 0} (engine : Engine Regex) where
  -- A rule that compiles.
  abbrev GoodRule : Rule → Type 0
  GoodRule rule = (good_id rule.id ≡ true) × (good_text rule ≡ true)

  -- The enabled rules, in order, each with the expression that its text builds; every rule's text
  -- builds one, also of a rule that is not enabled.
  abbrev pub AreBuilt : List Rule → List (Rule × Regex) → Type 0
  AreBuilt [] es = es ≡ []
  AreBuilt (rule ∷ rules) es =
      (regex : Regex) × (rest : List (Rule × Regex)) × (engine.build rule.regex_text ≡ some regex)
      × AreBuilt rules rest
      × (es ≡ (if rule.enabled then (rule, regex) ∷ rest else rest))

  -- One turn of the loop over the rules.
  abbrev turn :
      Bool
      → Bool
      → Option Regex
      → Result Error (List (Rule × Regex))
      → (Regex → List (Rule × Regex) → List (Rule × Regex))
      → Result Error (List (Rule × Regex))
  turn id text built rest add = do
    ensure id rule_id
    ensure text rule_text
    regex ← or_fail built rule_pattern
    es ← rest
    ok (add regex es)

  turn-eq-ok :
      (id text : Bool) (built : Option Regex) (rest : Result Error (List (Rule × Regex)))
      → (add : Regex → List (Rule × Regex) → List (Rule × Regex)) (es : List (Rule × Regex))
      → turn id text built rest add ≡ ok es
      → (id ≡ true)
        × (text ≡ true)
        × (regex : Regex) × (others : List (Rule × Regex)) × (built ≡ some regex)
        × (rest ≡ ok others)
        × (es ≡ add regex others)
  turn-eq-ok false text built rest add es h = cc
  turn-eq-ok true false built rest add es h = cc
  turn-eq-ok true true none rest add es h = cc
  turn-eq-ok true true (some regex) (err e) add es h = cc
  turn-eq-ok true true (some regex) (ok others) add es h =
      (refl, refl, regex, others, refl, refl, cc)

  compile_rules_iff :
      (ids : List String) (rules : List Rule) (es : List (Rule × Regex))
      → (compile_rules engine ids rules ≡ ok es) ↔ (
          All GoodRule rules
          × AreUnique (ids_of rules)
          × AreNew ids (ids_of rules)
          × AreBuilt rules es)
  unfolding compile_rules
  compile_rules_iff ids [] es =
      (λ h. (tt, tt, tt, sym (ok_injective [] es h)), λ h. ap ok (sym h.3))
  compile_rules_iff ids (rule ∷ rules) es = (
    λ h.
        let (id, text, regex, rest, e, r, q) =
          turn-eq-ok (good_id rule.id && not (one_of ids rule.id)) (good_text rule)
            (engine.build rule.regex_text) (compile_rules engine (rule.id ∷ ids) rules)
            (add_enabled engine rule) es h in
        let (good, unique, new, built) = (compile_rules_iff (rule.id ∷ ids) rules rest).0 r in
        let (apart, fresh) = (AreNew-cons rule.id ids (ids_of rules)).0 new in
        let (fine, other) = both_iff (good_id rule.id) (one_of ids rule.id) id in
        (((fine, text), good), (apart, unique), (other, fresh), (regex, rest, e, built, q)),
    λ h.
        let ((id, text), good) = h.0 in
        let (apart, unique) = h.1 in
        let (new, fresh) = h.2 in
        let (regex, rest, e, built, q) = h.3 in
        let r : compile_rules engine (rule.id ∷ ids) rules ≡ ok rest =
          (compile_rules_iff (rule.id ∷ ids) rules rest).1
            (good, unique, (AreNew-cons rule.id ids (ids_of rules)).1 (apart, fresh), built) in
        rw (id, new, text, e, r, q) refl,
  )

  -- What a policy has to be for `compile`, and what the result is.
  pub record IsCompilation (spec : PolicySpec) (compiled : CompiledPolicy Regex) : Type 0 where
    pub name : good_name spec.name ≡ true
    pub limits : good_limits spec ≡ true
    pub extensions_supported : All IsSupported spec.allowed_extensions
    pub extensions_unique : AreUnique spec.allowed_extensions
    pub few_rules : length spec.rules ≤ 32
    pub rules_good : All GoodRule spec.rules
    pub ids_unique : AreUnique (ids_of spec.rules)
    pub built : AreBuilt spec.rules compiled.expressions
    pub digest : engine.fingerprint spec ≡ some compiled.fingerprint
    pub spec_kept : compiled.spec ≡ spec
    pub not_pinned : compiled.pinned ≡ false

  AreNew-nil : (names : List String) → AreNew [] names
  AreNew-nil [] = tt
  AreNew-nil (n ∷ names) = (refl, AreNew-nil names)

  -- The checks and computations of `compile`, in order.
  checks-eq-ok :
      {E D P : Type 0} (a b c d : Bool) (first : Result Error E) (second : Option D)
      (make : D → E → P) (p : P)
      → (ensure a policy_name
          >> (ensure b policy_limits
              >> (ensure c policy_extensions
                  >> (ensure d policy_too_many_rules
                      >> (first >>= λ es.
                          or_fail second bad_json >>= λ digest. ok (make digest es))))))
        ≡ ok p
      → (a ≡ true)
        × (b ≡ true)
        × (c ≡ true)
        × (d ≡ true)
        × (es : E) × (digest : D) × (first ≡ ok es)
        × (second ≡ some digest)
        × (make digest es ≡ p)
  checks-eq-ok false b c d first second make p h = cc
  checks-eq-ok true false c d first second make p h = cc
  checks-eq-ok true true false d first second make p h = cc
  checks-eq-ok true true true false first second make p h = cc
  checks-eq-ok true true true true (err e) second make p h = cc
  checks-eq-ok true true true true (ok es) none make p h = cc
  checks-eq-ok true true true true (ok es) (some digest) make p h =
      (refl, refl, refl, refl, es, digest, refl, refl, ok_injective (make digest es) p h)

  abbrev compiled_of : PolicySpec → String → List (Rule × Regex) → CompiledPolicy Regex
  compiled_of spec digest es = record {
    spec = spec;
    fingerprint = digest;
    pinned = false;
    expressions = es;
  }

  -- `compile` accepts a policy exactly when its name is 1–100 bytes without control characters and
  -- not all white space, its limits are in range, its file types are supported and unique, it has at
  -- most 32 rules, each of which, enabled or not, has a good and unique id, a good name and a text
  -- that builds an expression, and its digest can be computed. The result then keeps the policy, is
  -- not pinned, and holds exactly the enabled rules, in their order, each with its own expression.
  pub compile_iff :
      (spec : PolicySpec) (compiled : CompiledPolicy Regex)
      → (compile engine spec ≡ ok compiled) ↔ IsCompilation spec compiled
  unfolding compile
  compile_iff spec compiled = (
    λ h.
        let (name, limits, exts, few, es, digest, rules, d, same) =
          checks-eq-ok (good_name spec.name) (good_limits spec)
            (good_extensions [] spec.allowed_extensions) (leb (length spec.rules) 32)
            (compile_rules engine [] spec.rules) (engine.fingerprint spec) (compiled_of spec)
            compiled h in
        let (supported, unique, unused) = (good_extensions_iff [] spec.allowed_extensions).0 exts in
        let (good, ids, fresh, built) = (compile_rules_iff [] spec.rules es).0 rules in
        record {
          name = name;
          limits = limits;
          extensions_supported = supported;
          extensions_unique = unique;
          few_rules = leb→le _ _ few;
          rules_good = good;
          ids_unique = ids;
          built =
              subst (λ (c : CompiledPolicy Regex). AreBuilt spec.rules c.expressions) same built;
          digest = d ∙ ap (λ (c : CompiledPolicy Regex). some c.fingerprint) same;
          spec_kept = sym (ap (λ (c : CompiledPolicy Regex). c.spec) same);
          not_pinned = sym (ap (λ (c : CompiledPolicy Regex). c.pinned) same);
        },
    λ h.
        let exts =
          (good_extensions_iff [] spec.allowed_extensions).1
            (h.extensions_supported, h.extensions_unique, AreNew-nil _) in
        let rules =
          (compile_rules_iff [] spec.rules compiled.expressions).1
            (h.rules_good, h.ids_unique, AreNew-nil _, h.built) in
        let same : compiled_of spec compiled.fingerprint compiled.expressions ≡ compiled =
          ap (λ (s : PolicySpec). record compiled { spec = s; pinned = false }) (sym h.spec_kept)
          ∙ ap (λ (b : Bool). record compiled { pinned = b }) (sym h.not_pinned) in
        rw (h.name, h.limits, exts, le→leb _ _ h.few_rules, rules, h.digest) (ap ok same),
  )
