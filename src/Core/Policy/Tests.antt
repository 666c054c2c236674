-- ===== src/Core/Policy/Tests.antt =====
-- Policies at concrete requests, under a toy engine that matches a text within a text.
use omni_os.Prelude.{
  All, ok, text_comparable, pair_comparable, trim, to_ascii_lowercase, contains_text, String, ◌≡◌,
  refl, ◌↔◌, inr, true, false, none, some, [], ◌∷◌, arith,
}
use omni_os.Core.Policy.{
  Engine, CompiledPolicy, PolicySpec, Rule, block_match, require_match, default_spec, compile,
  compile_rules, good_extensions, evaluate,
}
use omni_os.Core.Policy.Inspect.{
  Value, text, array, nil, item, Inspection, TextAttachment, push, visit,
}
use omni_os.Core.Policy.Files.{
  Json, new, add_files, file_flag, extension_of, media_type_fits, bad_name, is_binary,
}
use omni_os.Core.Policy.Verdict.{IsAllowed, evaluate-none_iff, evaluate-block_wins}
use omni_os.Core.Policy.Seen.{IsInspectable, visit-violation_iff}
use omni_os.Core.Policy.Compile.{IsCompilation, compile_iff}
use omni_os.Core.Policy.Whole.{IsReadable, new-violation_iff}

abbrev toy : Engine String
toy = record {
  build = λ s. some s;
  is_match = λ regex s. contains_text s regex;
  fingerprint = λ spec. some "f1";
}

abbrev no_secret : Rule
no_secret = record {
  id = "no-secret";
  name = "No secrets";
  regex_text = "secret";
  action = block_match;
  enabled = true;
}

abbrev approved : Rule
approved = record {
  id = "approved";
  name = "Approved";
  regex_text = "approved";
  action = require_match;
  enabled = true;
}

abbrev strict : PolicySpec
strict = record default_spec { rules = approved ∷ no_secret ∷ [] }

abbrev strict_compiled : CompiledPolicy String
strict_compiled = record {
  spec = strict;
  fingerprint = "f1";
  pinned = false;
  expressions = (approved, "approved") ∷ (no_secret, "secret") ∷ [];
}

strict_compiles : compile toy strict ≡ ok strict_compiled
unfolding compile compile_rules good_extensions trim
strict_compiles = refl

compile_iff_example :
    (compile toy strict ≡ ok strict_compiled) ↔ IsCompilation toy strict strict_compiled
compile_iff_example = compile_iff toy strict strict_compiled

-- A body of two texts that together say what neither does alone.
abbrev body : Value
body = array (item (text "sec") (item (text "ret") nil))

abbrev note : TextAttachment
note = record { name = "note.TXT"; media_type = "text/plain"; text = "hi" }

abbrev json : Json
json = record { value_size = λ v. some 13; file_size = λ f. some 50; reads = λ s. false }

abbrev inspected_body : Inspection
inspected_body = record {
  bytes = 63;
  text = "sec\nret\nnote.TXT\nhi";
  joined = "secretnote.TXThi";
  files = record { extension = "txt"; bytes = 2 } ∷ [];
  violation = none;
}

body_inspected : new json body (note ∷ []) ≡ ok inspected_body
unfolding new add_files visit push file_flag extension_of media_type_fits bad_name is_binary
    to_ascii_lowercase
body_inspected = refl

new-violation_iff_example :
    ((inspected_body.violation ≡ none) ↔ (IsInspectable body 0 × All (IsReadable json) (note ∷ [])))
    × (inspected_body.files ≡ record { extension = "txt"; bytes = 2 } ∷ [])
    × (inspected_body.violation ≡ none → inspected_body.joined ≡ "secretnote.TXThi")
unfolding extension_of to_ascii_lowercase
new-violation_iff_example = new-violation_iff json body (note ∷ []) inspected_body body_inspected

abbrev nothing : Inspection
nothing = record { bytes = 13; text = ""; joined = ""; files = []; violation = none }

visit-violation_iff_example : ((visit body 0 nothing).violation ≡ none) ↔ (
    (nothing.violation ≡ none) × IsInspectable body 0 × ((visit body 0 nothing).joined ≡ "secret"))
visit-violation_iff_example = visit-violation_iff body nothing

evaluate-none_iff_example :
    (evaluate toy strict_compiled inspected_body ≡ none)
    ↔ IsAllowed toy strict_compiled inspected_body
evaluate-none_iff_example = evaluate-none_iff toy strict_compiled inspected_body

evaluate-block_wins_example :
    evaluate toy strict_compiled inspected_body
    ≡ some (record { code = "blocked_pattern"; rule_id = some "no-secret" })
evaluate-block_wins_example =
    evaluate-block_wins toy strict_compiled inspected_body ((approved, "approved") ∷ []) []
      no_secret "secret" refl (omega arith) refl (omega arith) ((refl, omega arith), tt) (refl, tt)
      refl (inr refl)
