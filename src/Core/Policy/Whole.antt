-- ===== src/Core/Policy/Whole.antt =====
-- An inspection without a violation holds the whole request: every text of the body and of its files.
use Prim.Native.String.{◌++◌ as joined_with}
use package.text.Mathlib.TextLemmas.{nil-append, append-nil, append_assoc}
use omni_os.Prelude.{
  ok_injective, ltb, if◌then◌else◌, All, or_fail, >>=-eq-ok, ok, text_comparable, pair_comparable,
  ℕ, ◌+◌, String, len, ◌≡◌, refl, sym, ap, ◌∙◌, ◌↔◌, true, false, Option, none, List, [], ◌∷◌, ◌++◌,
  map, arith, str_eq,
}
use omni_os.Core.Errors.{bad_json}
use omni_os.Core.Policy.Inspect.{
  flag, flag_field, visit_items, visit_fields, Items, Fields, null, boolean, number, text, array,
  object, nil, item, end, field, Inspection, InspectedFile, Value, TextAttachment, push, visit,
}
use omni_os.Core.Policy.Seen.{visit_passes, all_text, IsInspectable, visit-violation_iff}
use omni_os.Core.Policy.Files.{
  Json, extension_of, media_type_fits, bad_name, is_binary, file_flag, add_files, new, inspect_file,
}

append_nil {ℓ} : {A : Type ℓ} (xs : List A) → xs ++ [] ≡ xs
append_nil [] = refl
append_nil (x ∷ xs) = ap (◌∷◌ x) (append_nil xs)

append_one {ℓ} :
    {A : Type ℓ} (xs : List A) (y : A) (zs : List A) → (xs ++ (y ∷ [])) ++ zs ≡ xs ++ (y ∷ zs)
append_one [] y zs = refl
append_one (x ∷ xs) y zs = ap (◌∷◌ x) (append_one xs y zs)

-- Before anything is pushed.
abbrev empty : ℕ → Inspection
empty n = record { bytes = n; text = ""; joined = ""; files = []; violation = none }

deep_files :
    (depth : ℕ) (before inside : Inspection)
    → inside.files ≡ before.files
    → (if ltb 64 depth then flag "content_too_deep" before else inside).files ≡ before.files
deep_files depth before inside h = ground arith

field_files :
    (key : String) (value : Value) (content : Inspection)
    → (flag_field key value content).files ≡ content.files
field_files key value content = ground arith

-- A visit adds no file.
mutual
  unfolding visit push

  visit-files :
      (v : Value) (depth : ℕ) (content : Inspection) → (visit v depth content).files ≡ content.files
  visit-files null depth content = deep_files depth content content refl
  visit-files (boolean b) depth content = deep_files depth content content refl
  visit-files (number n) depth content = deep_files depth content content refl
  visit-files (text s) depth content = deep_files depth content (push content s) refl
  visit-files (array items) depth content =
      deep_files depth content _ (visit_items-files items (depth + 1) content)
  visit-files (object fields) depth content =
      deep_files depth content _ (visit_fields-files fields (depth + 1) content)

  visit_items-files :
      (items : Items) (depth : ℕ) (content : Inspection)
      → (visit_items items depth content).files ≡ content.files
  visit_items-files nil depth content = refl
  visit_items-files (item value items) depth content =
      visit_items-files items depth (visit value depth content) ∙ visit-files value depth content

  visit_fields-files :
      (fields : Fields) (depth : ℕ) (content : Inspection)
      → (visit_fields fields depth content).files ≡ content.files
  visit_fields-files end depth content = refl
  visit_fields-files (field key value fields) depth content =
      visit_fields-files fields depth (visit value depth (flag_field key value content))
      ∙ visit-files value depth (flag_field key value content)
      ∙ field_files key value content

module _ (json : Json) where
  -- A text file that the code can read: a plain name, the media type of its extension, no binary
  -- content, and JSON in a file named so.
  pub record IsReadable (file : TextAttachment) : Type 0 where
    pub plain_name : bad_name file.name ≡ false
    pub media_type : media_type_fits (extension_of file.name) file.media_type ≡ true
    pub textual : is_binary file.text ≡ false
    pub valid_json : str_eq (extension_of file.name) "json" ≡ true → json.reads file.text ≡ true

  -- The names and texts of the files, in order.
  abbrev files_text : List TextAttachment → String
  files_text [] = ""
  files_text (file ∷ files) = joined_with file.name (joined_with file.text (files_text files))

  abbrev inspected : TextAttachment → InspectedFile
  inspected file = record { extension = extension_of file.name; bytes = len file.text }

  file_flag-none_iff :
      (file : TextAttachment) (before : Option _)
      → (file_flag json file before ≡ none) ↔ (IsReadable file × (before ≡ none))
  unfolding file_flag
  file_flag-none_iff file before = (
    λ h. (
      record {
        plain_name = ground arith;
        media_type = ground arith;
        textual = ground arith;
        valid_json = ground arith;
      },
      ground arith,
    ),
    λ h.
        let a = h.0.plain_name in
        let b = h.0.media_type in let c = h.0.textual in let d = h.0.valid_json in ground arith,
  )

  add_files-eq-ok :
      (files : List TextAttachment) (before after : Inspection)
      → add_files json files before ≡ ok after
      → ((after.violation ≡ none) ↔ (All IsReadable files × (before.violation ≡ none)))
        × (after.files ≡ before.files ++ map inspected files)
        × (after.joined ≡ joined_with before.joined (files_text files))
  unfolding add_files push
  add_files-eq-ok [] before after h =
      let same : before ≡ after = ok_injective before after h in
      (
        (
          λ v. (tt, ap (λ (c : Inspection). c.violation) same ∙ v),
          λ v. ap (λ (c : Inspection). c.violation) (sym same) ∙ v.1,
        ),
        ap (λ (c : Inspection). c.files) (sym same) ∙ sym (append_nil before.files),
        ap (λ (c : Inspection). c.joined) (sym same) ∙ sym (append-nil before.joined),
      )
  add_files-eq-ok (file ∷ files) before after h =
      let (size, s, rest) =
        >>=-eq-ok (or_fail (json.file_size file) bad_json)
          (λ n. add_files json files (inspect_file json before file n)) h in
      let (flags, listed, joined) =
        add_files-eq-ok files (inspect_file json before file size) after rest in
      let here = file_flag-none_iff file before.violation in
      (
        (
          λ v. let (fs, f) = flags.0 v in let (g, b) = here.0 f in ((g, fs), b),
          λ v. flags.1 (v.0.1, here.1 (v.0.0, v.1)),
        ),
        listed ∙ append_one before.files (inspected file) (map inspected files),
        joined
            ∙ append_assoc (joined_with before.joined file.name) file.text (files_text files)
            ∙ append_assoc before.joined file.name _,
      )

  -- An inspection of a request has no violation exactly when the body is inspectable at every depth
  -- and every file is readable. Then its joined text is that of the whole body followed by the name
  -- and the text of every file, and it lists every file, in order.
  pub new-violation_iff :
      (body : Value) (files : List TextAttachment) (content : Inspection)
      → new json body files ≡ ok content
      → ((content.violation ≡ none) ↔ (IsInspectable body 0 × All IsReadable files))
        × (content.files ≡ map inspected files)
        × (content.violation ≡ none
            → content.joined ≡ joined_with (all_text body) (files_text files))
  unfolding new
  new-violation_iff body files content h =
      let (size, s, rest) =
        >>=-eq-ok (or_fail (json.value_size body) bad_json)
          (λ n. add_files json files (visit body 0 (empty n))) h in
      let (flags, listed, joined) =
        add_files-eq-ok files (visit body 0 (empty size)) content rest in
      let seen = visit-violation_iff body (empty size) in
      (
        (
          λ v. let (fs, b) = flags.0 v in ((seen.0 b).1, fs),
          λ v. flags.1 (v.1, (visit_passes body 0 (empty size) v.0)),
        ),
        listed ∙ ap (λ l. l ++ map inspected files) (visit-files body 0 (empty size)),
        λ v.
            joined
            ∙ ap (λ s. joined_with s (files_text files))
                ((seen.0 (flags.0 v).1).2 ∙ nil-append (all_text body)),
      )
