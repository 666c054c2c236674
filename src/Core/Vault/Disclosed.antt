-- ===== src/Core/Vault/Disclosed.antt =====
-- A receipt is for exactly what the grant authorizes at that moment.
use omni_os.Prelude.{
  ==_iff, ensure-eq-ok, >>=-eq-ok, ok, text_comparable, pair_comparable, ℕ, String, ◌≡◌, refl, ap,
  ◌∙◌, true, Option, none, some, List, [], ◌∷◌, map, arith, eq_iff,
}
use omni_os.Core.Errors.{context_changed}
use omni_os.Core.Vault.{Vault, Memory, Receipt}
use omni_os.Core.Vault.Context.{context}
use omni_os.Core.Vault.Receipts.{
  memory_beq, memories_beq, receipt, receipt_unless_empty, current_context_receipt,
}
use omni_os.Core.Vault.Selected.{IsEntitled, context-IsEntitled}

memory_beq-≡ : (a b : Memory) → memory_beq a b ≡ true → a ≡ b
memory_beq-≡ a b h =
    let id = eq_iff a.id b.id in
    let source = eq_iff a.source_id b.source_id in
    let content = eq_iff a.content b.content in
    let status = eq_iff a.status b.status in
    let kind = eq_iff a.source b.source in
    let created = ==_iff a.created_at b.created_at in
    let updated = ==_iff a.updated_at b.updated_at in ground arith

memories_beq-≡ : (xs ys : List Memory) → memories_beq xs ys ≡ true → xs ≡ ys
memories_beq-≡ [] [] h = refl
memories_beq-≡ [] (y ∷ ys) h = cc
memories_beq-≡ (x ∷ xs) [] h = cc
memories_beq-≡ (x ∷ xs) (y ∷ ys) h =
    let one : memory_beq x y ≡ true = ground arith in
    let rest : memories_beq xs ys ≡ true = ground arith in
    let head = memory_beq-≡ x y one in let tail = memories_beq-≡ xs ys rest in cc

-- The outcome of a disclosure.
abbrev Disclosed : Vault → String → String → List Memory → Option Receipt → Vault → Type 0
Disclosed vault destination grant_id selected none after = (selected ≡ []) × (after ≡ vault)
Disclosed vault destination grant_id selected (some made) after =
    (made.destination ≡ destination)
    × (made.grant_id ≡ some grant_id)
    × (made.memory_ids ≡ map (λ (m : Memory). m.id) selected)
    × (made.status ≡ "authorized")
    × (after ≡ record vault { receipt_rows = made ∷ vault.receipt_rows })

unless_empty-Disclosed :
    (vault after : Vault) (id : String) (time : ℕ) (destination grant_id : String)
    (selected : List Memory) (made : Option Receipt)
    → receipt_unless_empty vault id time destination grant_id selected ≡ ok (made, after)
    → Disclosed vault destination grant_id selected made after
unfolding receipt
unless_empty-Disclosed vault after id time destination grant_id [] none h = (refl, ground arith)
unless_empty-Disclosed vault after id time destination grant_id [] (some r) h = cc
unless_empty-Disclosed vault after id time destination grant_id (m ∷ ms) none h =
    absurd (ground arith)
unless_empty-Disclosed vault after id time destination grant_id (m ∷ ms) (some r) h =
    (ground arith, ground arith, ground arith, ground arith, ground arith)

-- A call of `current_context_receipt` that returns was given exactly the memories that the grant
-- authorizes at that time, under a live grant for the destination. It returns no receipt, and
-- changes nothing, for no memories; otherwise it adds one receipt for this destination, grant and
-- exactly these memories.
pub current_context_receipt-Disclosed :
    (to_lowercase : String → String) (vault after : Vault) (id : String) (now time : ℕ)
    → (destination grant_id : String) (selected : List Memory) (made : Option Receipt)
    → current_context_receipt to_lowercase vault id now time destination grant_id selected
      ≡ ok (made, after)
    → (context to_lowercase vault now grant_id destination none ≡ ok selected)
      × IsEntitled vault now grant_id destination selected
      × Disclosed vault destination grant_id selected made after
unfolding current_context_receipt
current_context_receipt-Disclosed to_lowercase vault after id now time destination grant_id selected
      made h =
    let (current, c, h1) =
      >>=-eq-ok (context to_lowercase vault now grant_id destination none) _ h in
    let (same, h2) = ensure-eq-ok (memories_beq current selected) context_changed _ h1 in
    let exact : context to_lowercase vault now grant_id destination none ≡ ok selected =
      c ∙ ap ok (memories_beq-≡ current selected same) in
    (
      exact,
      context-IsEntitled to_lowercase vault now grant_id destination none selected exact,
      unless_empty-Disclosed vault after id time destination grant_id selected made h2,
    )
