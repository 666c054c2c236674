-- ===== src/Core/Policy/Seen.antt =====
-- What `visit` sees: every text of a value that it does not flag.
use Prim.Native.String.{◌++◌ as joined_with}
use package.text.Mathlib.TextLemmas.{append-nil, append_assoc}
use omni_os.Prelude.{
  ltb, if◌then◌else◌, le→ltb_false, text_comparable, pair_comparable, ℕ, ◌+◌, ◌≤◌, code, String,
  ◌≡◌, refl, sym, ap, ◌∙◌, ◌≢◌, ◌↔◌, false, none, arith,
}
use omni_os.Core.Policy.Inspect.{
  Value, Items, Fields, null, boolean, number, text, array, object, nil, item, end, field,
  Inspection, push, flag, is_opaque, flag_field, visit, visit_items, visit_fields,
}

-- All texts of a value, in order, without a separator.
abbrev mutual
  pub all_text : Value → String
  all_text null = ""
  all_text (boolean b) = ""
  all_text (number n) = ""
  all_text (text s) = s
  all_text (array items) = items_text items
  all_text (object fields) = fields_text fields

  pub items_text : Items → String
  items_text nil = ""
  items_text (item value items) = joined_with (all_text value) (items_text items)

  pub fields_text : Fields → String
  fields_text end = ""
  fields_text (field key value fields) = joined_with (all_text value) (fields_text fields)

-- No value stands deeper than 64 levels, and no field names an attachment that is not text.
abbrev mutual
  pub IsInspectable : Value → ℕ → Type 0
  IsInspectable null depth = depth ≤ 64
  IsInspectable (boolean b) depth = depth ≤ 64
  IsInspectable (number n) depth = depth ≤ 64
  IsInspectable (text s) depth = depth ≤ 64
  IsInspectable (array items) depth = (depth ≤ 64) × ItemsInspectable items (depth + 1)
  IsInspectable (object fields) depth = (depth ≤ 64) × FieldsInspectable fields (depth + 1)

  pub ItemsInspectable : Items → ℕ → Type 0
  ItemsInspectable nil depth = Unit
  ItemsInspectable (item value items) depth =
      IsInspectable value depth × ItemsInspectable items depth

  pub FieldsInspectable : Fields → ℕ → Type 0
  FieldsInspectable end depth = Unit
  FieldsInspectable (field key value fields) depth =
      (is_opaque key value ≡ false) × IsInspectable value depth × FieldsInspectable fields depth

-- A value that leaves no violation flagged none and pushed its texts.
abbrev Sees : Type 0 → String → Inspection → Inspection → Type 0
Sees P s before after =
    after.violation ≡ none
    → P × (before.violation ≡ none) × (after.joined ≡ joined_with before.joined s)

flagged_ne : (content : Inspection) (code : String) → (flag code content).violation ≢ none
flagged_ne content code h = cc

too_deep :
    (depth : ℕ) (content inside : Inspection)
    → (if ltb 64 depth then flag "content_too_deep" content else inside).violation ≡ none
    → (depth ≤ 64) × (inside.violation ≡ none)
too_deep depth content inside h = ground arith

deep_else :
    (depth : ℕ) (content inside : Inspection)
    → depth ≤ 64
    → (if ltb 64 depth then flag "content_too_deep" content else inside) ≡ inside
deep_else depth content inside h = rw (le→ltb_false 64 depth h) refl

unflagged :
    (key : String) (value : Value) (content : Inspection)
    → (flag_field key value content).violation ≡ none
    → (is_opaque key value ≡ false) × (flag_field key value content ≡ content)
unflagged key value content h = ground arith

node :
    (P : Type 0) (s : String) (depth : ℕ) (content inside : Inspection)
    → Sees P s content inside
    → Sees
        ((depth ≤ 64) × P)
        s
        content
        (if ltb 64 depth then flag "content_too_deep" content else inside)
node P s depth content inside sees h =
    let (d, inner) = too_deep depth content inside h in
    let (p, b, j) = sees inner in ((d, p), b, rw (deep_else depth content inside d) j)

leaf :
    (s : String) (depth : ℕ) (content inside : Inspection)
    → (inside.violation ≡ content.violation)
    → (inside.joined ≡ joined_with content.joined s)
    → Sees (depth ≤ 64) s content (if ltb 64 depth then flag "content_too_deep" content else inside)
leaf s depth content inside v j h =
    let r = node (Unit {0}) s depth content inside (λ i. (tt, sym v ∙ i, j)) h in (r.0.0, r.1, r.2)

no_text : (content : Inspection) → content.joined ≡ joined_with content.joined ""
no_text content = sym (append-nil content.joined)

mutual
  unfolding visit push

  visit-Sees :
      (v : Value) (depth : ℕ) (content : Inspection)
      → Sees (IsInspectable v depth) (all_text v) content (visit v depth content)
  visit-Sees null depth content h = leaf "" depth content content refl (no_text content) h
  visit-Sees (boolean b) depth content h = leaf "" depth content content refl (no_text content) h
  visit-Sees (number n) depth content h = leaf "" depth content content refl (no_text content) h
  visit-Sees (text s) depth content h = leaf s depth content (push content s) refl refl h
  visit-Sees (array items) depth content h =
      node (ItemsInspectable items (depth + 1)) (items_text items) depth content
        (visit_items items (depth + 1) content) (visit_items-Sees items (depth + 1) content) h
  visit-Sees (object fields) depth content h =
      node (FieldsInspectable fields (depth + 1)) (fields_text fields) depth content
        (visit_fields fields (depth + 1) content) (visit_fields-Sees fields (depth + 1) content) h

  visit_items-Sees :
      (items : Items) (depth : ℕ) (content : Inspection)
      → Sees
          (ItemsInspectable items depth)
          (items_text items)
          content
          (visit_items items depth content)
  visit_items-Sees nil depth content h = (tt, h, no_text content)
  visit_items-Sees (item value items) depth content h =
      let (ps, b, j) = visit_items-Sees items depth (visit value depth content) h in
      let (p, b', j') = visit-Sees value depth content b in
      ((p, ps), b', j ∙ ap (λ t. joined_with t (items_text items)) j' ∙ append_assoc _ _ _)

  visit_fields-Sees :
      (fields : Fields) (depth : ℕ) (content : Inspection)
      → Sees
          (FieldsInspectable fields depth)
          (fields_text fields)
          content
          (visit_fields fields depth content)
  visit_fields-Sees end depth content h = (tt, h, no_text content)
  visit_fields-Sees (field key value fields) depth content h =
      let (ps, b, j) =
        visit_fields-Sees fields depth (visit value depth (flag_field key value content)) h in
      let (p, b', j') = visit-Sees value depth (flag_field key value content) b in
      let (plain, same) = unflagged key value content b' in
      (
        (plain, p, ps),
        ap (λ (c : Inspection). c.violation) (sym same) ∙ b',
        j
            ∙ ap (λ t. joined_with t (fields_text fields))
                (j' ∙ ap (λ (c : Inspection). joined_with c.joined (all_text value)) same)
            ∙ append_assoc _ _ _,
      )

mutual
  unfolding visit push

  pub visit_passes :
      (v : Value) (depth : ℕ) (content : Inspection)
      → IsInspectable v depth
      → (visit v depth content).violation ≡ content.violation
  visit_passes null depth content p = rw (deep_else depth content content p) refl
  visit_passes (boolean b) depth content p = rw (deep_else depth content content p) refl
  visit_passes (number n) depth content p = rw (deep_else depth content content p) refl
  visit_passes (text s) depth content p = rw (deep_else depth content (push content s) p) refl
  visit_passes (array items) depth content p =
      rw (deep_else depth content (visit_items items (depth + 1) content) p.0)
        (items_pass items (depth + 1) content p.1)
  visit_passes (object fields) depth content p =
      rw (deep_else depth content (visit_fields fields (depth + 1) content) p.0)
        (fields_pass fields (depth + 1) content p.1)

  items_pass :
      (items : Items) (depth : ℕ) (content : Inspection)
      → ItemsInspectable items depth
      → (visit_items items depth content).violation ≡ content.violation
  items_pass nil depth content p = refl
  items_pass (item value items) depth content p =
      items_pass items depth (visit value depth content) p.1 ∙ visit_passes value depth content p.0

  fields_pass :
      (fields : Fields) (depth : ℕ) (content : Inspection)
      → FieldsInspectable fields depth
      → (visit_fields fields depth content).violation ≡ content.violation
  fields_pass end depth content p = refl
  fields_pass (field key value fields) depth content p =
      fields_pass fields depth (visit value depth (flag_field key value content)) p.2
      ∙ visit_passes value depth (flag_field key value content) p.1
      ∙ rw p.0 refl

-- A visit leaves a request without a violation exactly when it had none before and the value is
-- inspectable: no value deeper than 64 levels, and no field, at any depth, that names an attachment
-- which is not text. Then every text of the value has been added to the joined text, in order.
pub visit-violation_iff :
    (v : Value) (content : Inspection)
    → ((visit v 0 content).violation ≡ none) ↔ (
        (content.violation ≡ none)
        × IsInspectable v 0
        × ((visit v 0 content).joined ≡ joined_with content.joined (all_text v)))
visit-violation_iff v content = (
  λ h. let (p, b, j) = visit-Sees v 0 content h in (b, p, j),
  λ h. visit_passes v 0 content h.1 ∙ h.0,
)
