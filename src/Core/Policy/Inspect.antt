-- ===== src/Core/Policy/Inspect.antt =====
-- What a policy sees of a request: `Inspection` of crates/omni-core/src/policy.rs. A JSON value is a tree;
-- the length of a JSON text (`serde_json::to_vec`) and `serde_json::from_str` on a file are parameters.
use Prim.Native.String.{◌++◌ as joined_with}
use omni_os.Prelude.{
  ltb, if◌then◌else◌, any, text_comparable, pair_comparable, is_empty, ℕ, ◌+◌, code, String, Bool,
  false, ◌&&◌, ◌||◌, Option, none, some, List, [], ◌∷◌, str_eq,
}

-- `serde_json::Value`; a number is never read.
mutual
  pub data Value : Type 0 where
    null : Value
    boolean : Bool → Value
    number : ℕ → Value
    text : String → Value
    array : Items → Value
    object : Fields → Value

  pub data Items : Type 0 where
    nil : Items
    item : Value → Items → Items

  pub data Fields : Type 0 where
    end : Fields
    field : String → Value → Fields → Fields

pub record Violation : Type 0 where
  pub code : String
  pub rule_id : Option String

abbrev pub violation_of : String → Violation
violation_of code = record { code = code; rule_id = none }

pub record InspectedFile : Type 0 where
  pub extension : String
  pub bytes : ℕ

pub record Inspection : Type 0 where
  pub bytes : ℕ
  pub text : String
  pub joined : String
  pub files : List InspectedFile
  pub violation : Option Violation

pub record TextAttachment : Type 0 where
  pub name : String
  pub media_type : String
  pub text : String

abbrev pub file_types : List (String × String)
file_types =
    ("txt", "text/plain")
    ∷ ("md", "text/markdown")
    ∷ ("csv", "text/csv")
    ∷ ("json", "application/json")
    ∷ ("log", "text/plain")
    ∷ ("yaml", "application/yaml")
    ∷ ("yml", "application/yaml")
    ∷ []

-- `Inspection::push`
unfoldable pub push : Inspection → String → Inspection
push content s = record content {
  text =
      if is_empty content.text
      then joined_with content.text s
      else joined_with (joined_with content.text "\n") s;
  joined = joined_with content.joined s;
}

abbrev pub flag : String → Inspection → Inspection
flag code content = record content { violation = some (violation_of code) }

-- Keys that name an attachment which is not text.
unfoldable pub opaque_key : String → Bool
opaque_key key = any (str_eq key) (
    "file_id" ∷ "file_data" ∷ "file_url" ∷ "image_url" ∷ "input_audio" ∷ "audio" ∷ "video"
    ∷ "attachments" ∷ "omni_attachments" ∷ [])

-- Kinds, in a field `type`, of such an attachment.
unfoldable pub opaque_kind : Value → Bool
opaque_kind (text kind) = any (str_eq kind) (
    "image" ∷ "image_url" ∷ "document" ∷ "file" ∷ "input_file" ∷ "input_image" ∷ "input_audio"
    ∷ "video" ∷ "omni_text_file" ∷ [])
opaque_kind _ = false

unfoldable pub is_opaque : String → Value → Bool
unfolding opaque_key opaque_kind
is_opaque key value = opaque_key key || (str_eq key "type" && opaque_kind value)

-- The two flags that a field may raise are one and the same.
abbrev pub flag_field : String → Value → Inspection → Inspection
flag_field key value content =
    if is_opaque key value then flag "opaque_attachment_not_supported" content else content

-- `Inspection::visit`
unfoldable mutual
  pub visit : Value → ℕ → Inspection → Inspection
  visit null depth content = if ltb 64 depth then flag "content_too_deep" content else content
  visit (boolean b) depth content =
      if ltb 64 depth then flag "content_too_deep" content else content
  visit (number n) depth content = if ltb 64 depth then flag "content_too_deep" content else content
  visit (text s) depth content =
      if ltb 64 depth then flag "content_too_deep" content else push content s
  visit (array items) depth content =
      let inside = visit_items items (depth + 1) content in
      if ltb 64 depth then flag "content_too_deep" content else inside
  visit (object fields) depth content =
      let inside = visit_fields fields (depth + 1) content in
      if ltb 64 depth then flag "content_too_deep" content else inside

  pub visit_items : Items → ℕ → Inspection → Inspection
  visit_items nil depth content = content
  visit_items (item value items) depth content = visit_items items depth (visit value depth content)

  pub visit_fields : Fields → ℕ → Inspection → Inspection
  visit_fields end depth content = content
  visit_fields (field key value fields) depth content =
      visit_fields fields depth (visit value depth (flag_field key value content))
