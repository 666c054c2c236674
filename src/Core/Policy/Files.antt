-- ===== src/Core/Policy/Files.antt =====
-- The files of a request: `Inspection::new` of crates/omni-core/src/policy.rs and the operations that
-- add to an inspection. What serde_json does with a text is a parameter.
use omni_os.Prelude.{
  ltb, ◌==◌, if◌then◌else◌, find, or_fail, ◌>>=◌, Result, ok, is_control, any_char, is_empty,
  to_ascii_lowercase, starts_with, after_last, ℕ, ◌+◌, ◌-◌, ◌^◌, min, String, len, Bool, false, not,
  ◌&&◌, ◌||◌, Option, none, some, List, [], ◌∷◌, ◌++◌, str_eq,
}
use omni_os.Core.Errors.{Error, bad_json}
use omni_os.Core.Policy.Inspect.{
  Inspection, Violation, Value, TextAttachment, violation_of, file_types, push, visit,
}

-- The length of a JSON text that `to_vec` writes, of a value and of a file (`none` is an error), and
-- whether `from_str` reads a text.
pub record Json : Type 0 where
  pub value_size : Value → Option ℕ
  pub file_size : TextAttachment → Option ℕ
  pub reads : String → Bool

abbrev or_empty : Option String → String
or_empty none = ""
or_empty (some s) = s

unfoldable pub extension_of : String → String
extension_of name = to_ascii_lowercase (or_empty (after_last b'.' name))

-- The media type of the extension is the one that the file claims.
unfoldable pub media_type_fits : String → String → Bool
media_type_fits extension media_type =
    elim (find (λ (p : String × String). str_eq extension p.0) file_types) [
      | none ↦ false
      | some (ext, mime) ↦ str_eq mime media_type
    ]

abbrev is_path_char : ℕ → Bool
is_path_char c = is_control c || (c == b'/' || (c == b'\\' || c == b':'))

unfoldable pub bad_name : String → Bool
bad_name name =
    is_empty name || (ltb 180 (len name) || (starts_with name "." || any_char is_path_char name))

abbrev is_binary_char : ℕ → Bool
is_binary_char c = is_control c && not (c == b'\n' || (c == b'\r' || c == b'\t'))

unfoldable pub is_binary : String → Bool
is_binary text =
    starts_with text "MZ"
    || (starts_with text "\u{7f}ELF"
        || (starts_with text "%PDF-"
            || (starts_with text "PK\u{3}\u{4}" || any_char is_binary_char text)))

abbrev max_usize : ℕ
max_usize = 2 ^ 64 - 1

module _ (json : Json) where
  -- What is flagged of a file, given the violation before.
  unfoldable pub file_flag : TextAttachment → Option Violation → Option Violation
  file_flag file before =
      let extension = extension_of file.name in
      if bad_name file.name
      then some (violation_of "invalid_file_name")
      else if not (media_type_fits extension file.media_type)
      then some (violation_of "file_media_type_mismatch")
      else if is_binary file.text
      then some (violation_of "uninspectable_file")
      else if str_eq extension "json" && not (json.reads file.text)
      then some (violation_of "invalid_json_file")
      else before

  -- One turn of the loop over the files, after its size is known.
  abbrev pub inspect_file : Inspection → TextAttachment → ℕ → Inspection
  inspect_file content file size =
      push
        (push
          (record content {
            bytes = min (content.bytes + size) max_usize;
            violation = file_flag file content.violation;
            files =
                content.files
                ++ record { extension = extension_of file.name; bytes = len file.text } ∷ [];
          })
          file.name)
        file.text

  unfoldable pub add_files : List TextAttachment → Inspection → Result Error Inspection
  add_files [] content = ok content
  add_files (file ∷ files) content = do
    size ← or_fail (json.file_size file) bad_json
    add_files files (inspect_file content file size)

  -- `Inspection::new`
  unfoldable pub new : Value → List TextAttachment → Result Error Inspection
  new body attachments = do
    size ← or_fail (json.value_size body) bad_json
    add_files attachments (
        visit body 0
          (record { bytes = size; text = ""; joined = ""; files = []; violation = none }))

  -- `Inspection::account_wire_size`
  abbrev pub account_wire_size : Inspection → Value → Result Error Inspection
  account_wire_size content body = do
    size ← or_fail (json.value_size body) bad_json
    ok (record content { bytes = size })

-- `Inspection::include_source`
abbrev pub include_source : Inspection → Value → Inspection
include_source content value = visit value 0 content
