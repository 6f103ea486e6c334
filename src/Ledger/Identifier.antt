-- ===== src/Ledger/Identifier.antt =====
-- `validate_identifier` of src/ledger.rs.
pub mod Accepts
use Prim.Native.Char.{code}
use quote_ledger.Common.{
  ℕ, String, Bool, true, not, ◌&&◌, ◌||◌, leb, ltb, ◌==◌, Result, ok, ◌>>◌, refuse_if, str_eq,
}
use quote_ledger.Common.Text.{is_empty, trim, len}
use quote_ledger.Wire.{Status, Code, Message}
use quote_ledger.Mapping.{status}

abbrev pub max_id_len : ℕ
max_id_len = 128

abbrev pub is_ascii_alphanumeric : ℕ → Bool
is_ascii_alphanumeric c =
    (leb b'0' c && leb c b'9') || (leb b'A' c && leb c b'Z') || (leb b'a' c && leb c b'z')

abbrev pub is_identifier_char : ℕ → Bool
is_identifier_char c = is_ascii_alphanumeric c || (c == b'-' || c == b'_' || c == b':' || c == b'.')

-- `value.chars().all(…)`
unfoldable pub all_identifier_chars : String → Bool
all_identifier_chars String.[] = true
all_identifier_chars (String.◌∷◌ c s) = is_identifier_char (code c) && all_identifier_chars s

unfoldable pub validate_identifier : String → String → Result Unit Status
validate_identifier field value = do
  refuse_if (is_empty (trim value))
      (status Code.invalid_argument (Message.about field "is required"))
  refuse_if (ltb max_id_len (len value))
      (status Code.invalid_argument (Message.about field "exceeds 128 characters"))
  refuse_if (not (str_eq value (trim value))) (
      status Code.invalid_argument (Message.about field "must not contain leading/trailing spaces"))
  refuse_if (not (all_identifier_chars value))
      (status Code.invalid_argument (Message.about field "contains invalid characters"))
  ok tt
