-- ===== src/Core/Vault/Deleted.antt =====
-- A memory that is deleted is gone: its row, its history, and every context.
use omni_os.Prelude.{
  Bool-cases, find, All, ok_injective, ok, text_comparable, pair_comparable, ℕ, String, ◌≡◌, refl,
  ap, ◌∙◌, subst, inl, inr, Bool, true, false, not, Option, none, some, List, [], ◌∷◌, arith,
  str_eq, eq_iff,
}
use omni_os.Core.Audit.{Stamp}
use omni_os.Core.Vault.{
  Grant, Vault, Memory, MemoryRow, HistoryRow, delete_memory, delete_found, without_row,
  without_unused,
}
use omni_os.Core.Vault.Context.{context, in_scope}
use omni_os.Core.Vault.Selected.{IsStored, context-IsEntitled, keep_if-All}

abbrev RowOther : String → MemoryRow → Type 0
RowOther id r = str_eq r.id id ≡ false

abbrev HistoryOther : String → HistoryRow → Type 0
HistoryOther id h = str_eq h.memory_id id ≡ false

find-none {ℓ} :
    {A : Type ℓ} (p : A → Bool) (xs : List A) → find p xs ≡ none → All (λ x. p x ≡ false) xs
find-none p [] h = tt
find-none p (x ∷ xs) h = elim (Bool-cases (p x)) [
  | inl hit ↦ absurd (let n = rw hit at h in cc)
  | inr miss ↦ (miss, find-none p xs (rw miss at h))
]

not-eq-true : (b : Bool) → not b ≡ true → b ≡ false
not-eq-true true h = cc
not-eq-true false h = refl

rows_kept : (source_id : String) (v : Vault) → (without_unused source_id v).rows ≡ v.rows
rows_kept source_id v = ground arith

history_kept : (source_id : String) (v : Vault) → (without_unused source_id v).history ≡ v.history
history_kept source_id v = ground arith

All-Unit : {A : Type 0} (xs : List A) → All (λ (x : A). Unit {0}) xs
All-Unit [] = tt
All-Unit (x ∷ xs) = (tt, All-Unit xs)

no_delete : (found : Bool) → (false ≡ true) → ⊥
no_delete found h = cc

gone :
    (v w : Vault) (stamp : Stamp) (id : String) (row : Option MemoryRow) (found : Bool)
    → find (λ (r : MemoryRow). str_eq r.id id) v.rows ≡ row
    → delete_found v stamp id row ≡ ok (found, w)
    → All (RowOther id) w.rows × (found ≡ true → All (HistoryOther id) w.history)
gone v w stamp id none found none_found h =
    let e = ok_injective (false, v) (found, w) h in
    (
      subst (λ (p : Bool × Vault). All (RowOther id) p.1.rows) e (find-none _ v.rows none_found),
      λ f. absurd (no_delete found (ap (λ (p : Bool × Vault). p.0) e ∙ f)),
    )
gone v w stamp id (some row) found hit h =
    let rows : w.rows ≡ (without_unused row.source_id (without_row id v)).rows = ground arith in
    let history : w.history ≡ (without_unused row.source_id (without_row id v)).history =
      ground arith in
    (
      rw (rows, rows_kept row.source_id (without_row id v))
          (keep_if-All (λ r. Unit {0}) (RowOther id) _ v.rows (λ r h u. not-eq-true _ h)
            (All-Unit v.rows)),
      λ f.
          rw (history, history_kept row.source_id (without_row id v))
            (keep_if-All (λ h. Unit {0}) (HistoryOther id) _ v.history (λ r h u. not-eq-true _ h)
              (All-Unit v.history)),
    )

unstored :
    (id : String) (rows : List MemoryRow) (m : Memory)
    → All (RowOther id) rows
    → IsStored rows m
    → str_eq m.id id ≡ false
unstored id [] m other stored = cc
unstored id (row ∷ rows) m other stored = elim (Bool-cases (str_eq row.id m.id)) [
  | inl same ↦ subst (λ i. str_eq i id ≡ false) ((eq_iff row.id m.id).0 same) other.0
  | inr differs ↦ unstored id rows m other.1 (rw differs at stored)
]

All-unstored :
    (id : String) (rows : List MemoryRow) (ms : List Memory)
    → All (RowOther id) rows
    → All (IsStored rows) ms
    → All (λ (m : Memory). str_eq m.id id ≡ false) ms
All-unstored id rows [] other stored = tt
All-unstored id rows (m ∷ ms) other stored =
    (unstored id rows m other stored.0, All-unstored id rows ms other stored.1)

covered-IsStored :
    (rows : List MemoryRow) (g : Grant) (ms : List Memory)
    → All (λ (m : Memory). (m.status ≡ "confirmed") × (in_scope g m ≡ true) × IsStored rows m) ms
    → All (IsStored rows) ms
covered-IsStored rows g [] ps = tt
covered-IsStored rows g (m ∷ ms) ps = (ps.0.2, covered-IsStored rows g ms ps.1)

-- After a call of `delete_memory` that returns, whether it found the memory or not, no row has its
-- id, and no context, under any grant at any time, holds a memory with this id; and where it was
-- found, none of its history is left.
pub delete_memory-gone :
    (to_lowercase : String → String) (v w : Vault) (stamp : Stamp) (id : String) (found : Bool)
    → delete_memory v stamp id ≡ ok (found, w)
    → All (RowOther id) w.rows
      × (found ≡ true → All (HistoryOther id) w.history)
      × ((now : ℕ) (grant_id destination : String) (query : Option String) (ms : List Memory)
          → context to_lowercase w now grant_id destination query ≡ ok ms
          → All (λ (m : Memory). str_eq m.id id ≡ false) ms)
unfolding delete_memory
delete_memory-gone to_lowercase v w stamp id found h =
    let (rows, history) =
      gone v w stamp id (find (λ (r : MemoryRow). str_eq r.id id) v.rows) found refl h in
    (
      rows,
      history,
      λ now grant_id destination query ms k.
          let e = context-IsEntitled to_lowercase w now grant_id destination query ms k in
          All-unstored id w.rows ms rows (covered-IsStored w.rows e.grant ms e.covered),
    )
