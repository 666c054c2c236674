-- ===== src/Core/Policy/Trusted.antt =====
-- What a managed policy that loads rests on.
use omni_os.Prelude.{
  ok_injective, some_injective, or_fail-eq-ok, leb, leb→le, length, take, or_fail, ensure-eq-ok,
  >>=-eq-ok, ok, text_comparable, pair_comparable, ℕ, zero, suc, ◌+◌, ◌≤◌, ◌<◌, String, ◌≡◌, refl,
  sym, ap, ◌∙◌, subst, ◌≢◌, ◌↔◌, Bool, true, false, not, ◌&&◌, Option, none, some, List, [], ◌∷◌,
  arith,
}
use omni_os.Core.Errors.{
  managed_missing, managed_unreadable, managed_not_regular, managed_writable, managed_too_large,
  managed_invalid, managed_digest,
}
use omni_os.Core.Audit.{none_or, some_and}
use omni_os.Core.Policy.{Engine, CompiledPolicy, compile}
use omni_os.Core.Policy.Compile.{compile_iff}
use omni_os.Core.Policy.Managed.{
  Metadata, PolicyFile, Reader, not_writable, max_file, pin_fits, load_managed_pinned,
}

take-whole {ℓ} :
    {A : Type ℓ} (m n : ℕ) (xs : List A)
    → n < m
    → length (take m xs) ≤ n
    → (take m xs ≡ xs) × (length xs ≤ n)
take-whole zero n xs lt h = absurd (omega (arith, lt))
take-whole (suc m) n [] lt h = (refl, omega arith)
take-whole (suc m) zero (x ∷ xs) lt h = absurd (omega (arith, h))
take-whole (suc m) (suc n) (x ∷ xs) lt h =
    let (same, short) = take-whole m n xs (omega (arith, lt)) (omega (arith, h)) in
    (ap (◌∷◌ x) same, omega (arith, short))

plain_file : (a b : Bool) → (a && not b) ≡ true → (a ≡ true) × (b ≡ false)
plain_file a b h = ground arith

pin_cases :
    (pin : Option String) (p : String → Bool)
    → none_or p pin ≡ true
    → ((expected : String) → pin ≡ some expected → p expected ≡ true)
      × ((some_and (λ (s : String). true) pin ≡ true) ↔ (pin ≢ none))
pin_cases none p h = ((λ expected e. cc), (λ f. cc, λ f. absurd (f refl)))
pin_cases (some s) p h = (
  (λ expected e. subst (λ t. p t ≡ true) (some_injective s expected e) h),
  (λ f e. cc, λ f. refl),
)

module _ {Regex : Type 0} (engine : Engine Regex) (reader : Reader) where
  -- What a managed policy rests on.
  pub record IsTrusted (file : PolicyFile) (pin : Option String) (policy : CompiledPolicy Regex)
      : Type 0 where
    pub metadata : Metadata
    pub content : List ℕ
    pub found : file.metadata ≡ some metadata
    pub regular : (metadata.is_file ≡ true) × (metadata.is_symlink ≡ false)
    pub protected : not_writable metadata.mode ≡ true
    pub readable : file.content ≡ some content
    pub small : length content ≤ max_file
    pub whole : reader.from_slice content ≡ some policy.spec
    pub valid : compile engine policy.spec ≡ ok (record policy { pinned = false })
    pub digest :
        (expected : String) → pin ≡ some expected → pin_fits engine reader content expected ≡ true
    pub pinned_iff : (policy.pinned ≡ true) ↔ (pin ≢ none)

  -- A load that returns a policy has read the whole of a regular file, no symlink, that neither its
  -- group nor others may write; the policy is what the file says, has passed every check of
  -- `compile`, and is pinned exactly when a digest is expected, which then has 64 hex digits and is
  -- that of the file's bytes.
  pub load_managed_pinned-IsTrusted :
      (file : PolicyFile) (pin : Option String) (policy : CompiledPolicy Regex)
      → load_managed_pinned engine reader file pin ≡ ok policy
      → IsTrusted file pin policy
  unfolding load_managed_pinned
  load_managed_pinned-IsTrusted file pin policy h =
      let (metadata, m, h1) = >>=-eq-ok (or_fail file.metadata managed_missing) _ h in
      let (regular, h2) =
        ensure-eq-ok (metadata.is_file && not metadata.is_symlink) managed_not_regular _ h1 in
      let (guarded, h3) = ensure-eq-ok (not_writable metadata.mode) managed_writable _ h2 in
      let (content, c, h4) = >>=-eq-ok (or_fail file.content managed_unreadable) _ h3 in
      let bytes : List ℕ = take (max_file + 1) content in
      let (small, h5) = ensure-eq-ok (leb (length bytes) max_file) managed_too_large _ h4 in
      let (spec, s, h6) = >>=-eq-ok (or_fail (reader.from_slice bytes) managed_invalid) _ h5 in
      let (fits, h7) =
        ensure-eq-ok (none_or (pin_fits engine reader bytes) pin) managed_digest _ h6 in
      let (compiled, k, h8) = >>=-eq-ok (compile engine spec) _ h7 in
      let (same, short) =
        take-whole (max_file + 1) max_file content (omega arith) (leb→le _ _ small) in
      let whole : reader.from_slice content ≡ some spec =
        subst (λ b. reader.from_slice b ≡ some spec) same (or_fail-eq-ok _ _ spec s) in
      let (digest, pinned) =
        pin_cases pin (pin_fits engine reader content)
          (subst (λ b. none_or (pin_fits engine reader b) pin ≡ true) same fits) in
      let r = (compile_iff engine spec compiled).0 k in
      let plain : record compiled { pinned = false } ≡ compiled =
        ap (λ (b : Bool). record compiled { pinned = b }) (sym r.not_pinned) in
      subst (IsTrusted file pin) (ok_injective _ policy h8) (record {
        metadata = metadata;
        content = content;
        found = or_fail-eq-ok _ _ metadata m;
        regular = plain_file _ _ regular;
        protected = guarded;
        readable = or_fail-eq-ok _ _ content c;
        small = short;
        whole = whole ∙ ap some (sym r.spec_kept);
        valid = ap (compile engine) r.spec_kept ∙ k ∙ ap ok (sym plain);
        digest = digest;
        pinned_iff = pinned;
      })
