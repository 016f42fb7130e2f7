-- ===== src/Tests/Sending.antt =====
-- What leaves for a provider, on a payload with one name and one token.
use maskgate.Base.{
  Exec, List, Text, [], codes, contains, decimal, err, false, if◌then◌else◌, is_substring,
  json_decode_error, list_beq, list_eq, nat_eq, none, ok, option_eq, pair_eq, refl, replace,
  starts_with, true, utf8_size, ℕ, ◌++◌, ◌+◌, ◌==◌, ◌||◌, ◌∷◌, ◌≡◌,
}
use maskgate.Json.{Json, Items, Fields}
use maskgate.PolicyV2.{PathPart}
use maskgate.Session.{Entity}
use maskgate.Wire.{PrivacyCheckedPayload, Codec, check}
use maskgate.Wire.Checked.{IsChecked, check_lem}
use maskgate.Outbound.{sanitize_outbound_payload}
use maskgate.Outbound.Laws.{FieldImages, HasDistinctKeys, sanitize_lem}
use maskgate.Tests.Samples.{ascii}

abbrev token : Text
token = codes "<MG:ABCDEFGHIJKLMNOPQRSTUVWXYZ>"

abbrev letter : Json
letter = Json.object (
    Fields.field (codes "input") (Json.string (codes "Ann met " ++ token))
      (Fields.field (codes "stream") (Json.boolean false) Fields.end))

abbrev body : Text
body = codes "{\"input\":\"Ann met <MG:ABCDEFGHIJKLMNOPQRSTUVWXYZ>\",\"stream\":false}"

-- A codec that knows one value.
abbrev one_letter : Codec
one_letter = record {
  dumps = λ v. ok body;
  loads = λ t. if t == body then ok letter else err json_decode_error;
  unquote = λ t. t;
  detector_error = λ t. none;
}

-- A detector that knows one name.
abbrev find_ann : Text → List Entity
find_ann t =
    if starts_with (codes "Ann") t
    then record { entity_type = codes "PERSON"; text = codes "Ann"; start = 0; stop = 3 } ∷ []
    else []

abbrev sealed : PrivacyCheckedPayload
sealed = record { provider = codes "mock"; target = codes "/v1"; body = body }

letter_checked :
    check ascii one_letter find_ann
      (codes "mock")
      (codes "/v1")
      letter
      (token ∷ [])
      (codes "Ann" ∷ [])
    ≡ ok sealed
unfolding check list_beq starts_with is_substring contains maskgate.Wire.inspect_wire
    maskgate.Pattern.find_all maskgate.Pattern.literal maskgate.Wire.is_name maskgate.Unicode.strip
    maskgate.Wire.erase replace utf8_size maskgate.Wire.is_base64_content maskgate.Pattern.fullmatch
    maskgate.Wire.opens_json maskgate.Pattern.search_in
letter_checked = refl

check_lem_example :
    IsChecked ascii one_letter find_ann
      (token ∷ [])
      (codes "Ann" ∷ [])
      (codes "mock")
      (codes "/v1")
      letter
      sealed
check_lem_example =
    check_lem ascii one_letter find_ann (token ∷ []) (codes "Ann" ∷ []) (codes "mock") (codes "/v1")
      letter sealed letter_checked

-- Masking that counts its calls and masks one name, so that two keys become the same.
abbrev count_and_mask : List PathPart → Text → Exec ℕ Text
count_and_mask path t n =
    (ok (if t == codes "Ann" || t == codes "Bob" then codes "X" else t), n + 1)

abbrev pair_of_names : Fields
pair_of_names = Fields.field (codes "Ann") (Json.string (codes "Bob")) (
    Fields.field (codes "Bob") Json.null
      (Fields.field (codes "model") (Json.string (codes "m")) Fields.end))

abbrev masked_names : Fields
masked_names = Fields.field (codes "X") (Json.string (codes "X")) (
    Fields.field (codes "X__MGKEY_2") Json.null
      (Fields.field (codes "model") (Json.string (codes "m")) Fields.end))

names_masked : (sanitize_outbound_payload count_and_mask true pair_of_names 0).0 ≡ ok masked_names
unfolding sanitize_outbound_payload decimal maskgate.Json.has_field
    maskgate.Outbound.is_protocol_string list_beq contains maskgate.Json.append_field
    maskgate.Outbound.is_valid_protocol_string maskgate.Pattern.fullmatch
names_masked = refl

sanitize_lem_example :
    FieldImages count_and_mask true [] pair_of_names masked_names × HasDistinctKeys masked_names
sanitize_lem_example = sanitize_lem count_and_mask true pair_of_names masked_names 0 names_masked
