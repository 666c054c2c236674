-- ===== src/Core/Policy/Saved.antt =====
-- Saving a policy: one revision at a time, and what is saved is what is read.
use omni_os.Prelude.{
  ltb, ◌==◌, if◌then◌else◌, ==_iff, Bool-cases, length, ensure, or_fail, ◌>>=◌, ◌>>◌, >>=-eq-ok,
  Result, ok, err, text_comparable, pair_comparable, ℕ, ◌+◌, ◌^◌, String, ◌≡◌, refl, sym, ap, ◌∙◌,
  subst, ◌≢◌, ◌⊎◌, inl, inr, Bool, true, false, Option, none, some, List, arith,
}
use omni_os.Core.Errors.{Error, bad_json, out_of_range}
use omni_os.Core.Audit.{AuditRecord, Stamp, no_details, audit_on}
use omni_os.Core.Policy.{Engine, CompiledPolicy, PolicySpec, compile}
use omni_os.Core.Policy.Compile.{compile_iff}
use omni_os.Core.Policy.Store.{PolicyStore, Codec, policy_current, policy_save}

-- serde reads what it wrote of this policy.
abbrev pub ReadsBack : Codec → PolicySpec → Type 0
ReadsBack codec spec =
    (document : String) → codec.write spec ≡ some document → codec.read document ≡ some spec

-- The steps of a save that returns, after the policy is compiled.
saving :
    {D J A : Type 0} (written : Option D) (small : Bool) (audited : Result Error J)
    (make : D → J → A) (a : A)
    → (or_fail written bad_json >>= λ d.
        ensure small out_of_range >> (audited >>= λ j. ok (make d j)))
      ≡ ok a
    → (d : D) × (j : J) × (written ≡ some d) × (make d j ≡ a)
saving none small audited make a h = cc
saving (some d) false audited make a h = cc
saving (some d) true (err e) make a h = cc
saving (some d) true (ok j) make a h = (d, j, refl, cc)

-- The outcome of an update of the row under its revision.
update_row :
    (store after : PolicyStore) (expected : ℕ) (journal : List AuditRecord) (document : String)
    (saved : Bool)
    → ◌≡◌ {A = Bool × PolicyStore}
        (if store.revision == expected
          then (
            true,
            record store { revision = store.revision + 1; document = document; journal = journal },
          )
          else (false, store))
        (saved, after)
    → ((saved ≡ true)
        × (store.revision ≡ expected)
        × (after ≡ record store {
          revision = store.revision + 1;
          document = document;
          journal = journal;
        }))
      ⊎ ((saved ≡ false) × (store.revision ≢ expected) × (after ≡ store))
update_row store after expected journal document saved h =
    elim (Bool-cases (store.revision == expected)) [
      | inl same ↦ inl (
        sym (ap (λ (r : Bool × PolicyStore). r.0) (rw same at h)),
        (==_iff store.revision expected).0 same,
        sym (ap (λ (r : Bool × PolicyStore). r.1) (rw same at h)),
      )
      | inr other ↦ inr (
        sym (ap (λ (r : Bool × PolicyStore). r.0) (rw other at h)),
        (λ e. ground arith),
        sym (ap (λ (r : Bool × PolicyStore). r.1) (rw other at h)),
      )
    ]

module _ {Regex : Type 0} (engine : Engine Regex) (codec : Codec) where
  -- The policy is saved, under the next revision, and read back as it was compiled; or another
  -- revision is current and nothing changes.
  abbrev SaveOutcome : PolicyStore → ℕ → PolicySpec → Bool → PolicyStore → Type 0
  SaveOutcome store expected spec saved after =
      ((saved ≡ true)
        × (store.revision ≡ expected)
        × ((compiled : CompiledPolicy Regex) × (compile engine spec ≡ ok compiled)
            × (policy_current engine codec after ≡ ok (expected + 1, compiled)))
        × (after.decisions ≡ store.decisions)
        × (after.revision ≡ expected + 1))
      ⊎ ((saved ≡ false) × (store.revision ≢ expected) × (after ≡ store))

  reads_saved :
      (store after : PolicyStore) (expected : ℕ) (spec : PolicySpec)
      (compiled : CompiledPolicy Regex)
      → (document : String) (journal : List AuditRecord) → store.revision ≡ expected
      → after
        ≡ record store { revision = store.revision + 1; document = document; journal = journal }
      → codec.read document ≡ some spec
      → compile engine spec ≡ ok compiled
      → policy_current engine codec after ≡ ok (expected + 1, compiled)
  unfolding policy_current
  reads_saved store after expected spec compiled document journal same e read c =
      rw (e, read, c, same) refl

  -- A call of `policy_save` that returns has one of two outcomes. Where the expected revision is
  -- current, the policy compiles, and the store then holds it, as compiled, under the next revision,
  -- with the decisions as before. Otherwise it returns false and changes nothing. serde reads what
  -- it wrote of this policy.
  pub policy_save-outcome :
      (store after : PolicyStore) (stamp : Stamp) (expected : ℕ) (spec : PolicySpec) (saved : Bool)
      → ReadsBack codec spec
      → policy_save engine codec store stamp expected spec ≡ ok (saved, after)
      → SaveOutcome store expected spec saved after
  unfolding policy_save policy_current
  policy_save-outcome store after stamp expected spec saved back h =
      let (compiled, c, rest) = >>=-eq-ok (compile engine spec) _ h in
      let (document, journal, w, made) =
        saving (codec.write compiled.spec) (ltb expected (2 ^ 63))
          (if store.revision == expected
            then audit_on store.journal stamp "policy_updated"
                (record no_details { count = some (length compiled.spec.rules) })
            else ok store.journal)
          (λ d j.
            if store.revision == expected
            then (true, record store { revision = store.revision + 1; document = d; journal = j })
            else (false, store))
          (saved, after) rest in
      let kept : compiled.spec ≡ spec = ((compile_iff engine spec compiled).0 c).spec_kept in
      elim (update_row store after expected journal document saved made) [
        | inl (done, same, e) ↦ inl (
          done,
          same,
          (
            compiled,
            c,
            reads_saved store after expected spec compiled document journal same e
                (back document (subst (λ s. codec.write s ≡ some document) kept w)) c,
          ),
          ap (λ (s : PolicyStore). s.decisions) e,
          ap (λ (s : PolicyStore). s.revision) e ∙ ap (λ n. n + 1) same,
        )
        | inr no_change ↦ inr no_change
      ]

  -- Of two saves that expect the same revision, one after the other, only one takes effect: after
  -- the first has saved, the second, where it returns, returns false and changes nothing. serde reads what it
  -- wrote of the two policies.
  pub policy_save-policy_save_same :
      (store middle after : PolicyStore) (first second : Stamp) (expected : ℕ)
      → (mine yours : PolicySpec) (saved : Bool) → ReadsBack codec mine
      → ReadsBack codec yours
      → policy_save engine codec store first expected mine ≡ ok (true, middle)
      → policy_save engine codec middle second expected yours ≡ ok (saved, after)
      → (saved ≡ false) × (after ≡ middle)
  policy_save-policy_save_same store middle after first second expected mine yours saved b c h k =
      let next : middle.revision ≡ expected + 1 =
        elim (policy_save-outcome store middle first expected mine true b h) [
          | inl (done, now, read, listed, e) ↦ e
          | inr (kept, other, e) ↦ absurd (ground arith)
        ] in
      elim (policy_save-outcome middle after second expected yours saved c k) [
        | inl (done, same, read, listed, e) ↦ absurd (omega (arith, next, same))
        | inr (kept, other, e) ↦ (kept, e)
      ]
