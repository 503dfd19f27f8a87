-- ===== src/Models/Text.antt =====
-- The text checks of models.py, `_required_text` and `_identifier`, on Python's `str`.
pub mod Checks
use Prim.Native.Char.{code}
use Prim.Native.String
use Prim.Native.String.{len}
use ump.Prelude.{
  ℕ, String, Bool, true, false, ◌&&◌, ◌||◌, List, [], ◌∷◌, Result, Done, ok, ◌>>◌, refuse, ltb, leb,
}

-- What the constructors of models.py raise: a text field out of bounds, or one of the other
-- checks, named after its message.
pub data ModelError : Type 0 where
  bad_text : String → ModelError
  duplicate_resources negative_not_before negative_deadline bad_window : ModelError
  no_capabilities duplicate_capabilities bad_time_window bad_uncertainty bad_revision : ModelError
  not_terminal flag_disagrees outputs_not_object outputs_too_large : ModelError
  bad_document snapshot_differs : ModelError

abbrev pub max_id_bytes : ℕ
max_id_bytes = 128

abbrev pub max_text_bytes : ℕ
max_text_bytes = 1024

-- `str.isspace` of one code point
abbrev pub is_space : ℕ → Bool
is_space c =
    (leb 9 c && leb c 13)
    || (leb 28 c && leb c 32)
    || (leb 133 c && leb c 133)
    || (leb 160 c && leb c 160)
    || (leb 5760 c && leb c 5760)
    || (leb 8192 c && leb c 8202)
    || (leb 8232 c && leb c 8233)
    || (leb 8239 c && leb c 8239)
    || (leb 8287 c && leb c 8287)
    || (leb 12288 c && leb c 12288)

-- `not value.strip()`
abbrev pub blank : String → Bool
blank String.[] = true
blank (String.◌∷◌ c rest) = is_space (code c) && blank rest

-- `_required_text(value, field_name, maximum)`
unfoldable pub required_text : String → String → ℕ → Result ModelError Done
required_text value field_name maximum =
    refuse (blank value || ltb maximum (len value)) (bad_text field_name)

-- `_identifier(value, field_name)`
unfoldable pub identifier : String → String → Result ModelError Done
unfolding required_text
identifier value field_name = required_text value field_name max_id_bytes

-- `for value in values: _identifier(value, field_name)`
unfoldable pub identifiers : List String → String → Result ModelError Done
unfolding identifier
identifiers [] field_name = ok tt
identifiers (value ∷ rest) field_name = identifier value field_name >> identifiers rest field_name
