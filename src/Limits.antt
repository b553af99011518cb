-- ===== src/Limits.antt =====
-- internal/model/limits.go: the bounds on what an agent may send. A text is the list of its characters,
-- which Go counts as runes.
pub mod Bounds
use Prim.Native.String
use self_organizing_multi_ag.Base.{
  ℕ, nat_eq, ◌+◌, String, Bool, true, false, Option, none, some, List, [], ◌∷◌, length, ltb,
  if◌then◌else◌,
}
use self_organizing_multi_ag.Errors.{
  ApiError, FieldName, field, element, max_characters, max_entries, max_bytes, not_object,
  validation_error,
}

-- `MaxTextField`, `MaxShortField`, `MaxListItems`, `MaxObjectSize`
abbrev pub max_text_field : ℕ
max_text_field = 4000

abbrev pub max_short_field : ℕ
max_short_field = 200

abbrev pub max_list_items : ℕ
max_list_items = 64

abbrev pub max_object_size : ℕ
max_object_size = 16384

-- What a check returns: nothing, or the error.
abbrev pub Check : Type 0
Check = Option ApiError

-- `if bad { return e }`
abbrev pub refuse_if : Bool → ApiError → Check
refuse_if true e = some e
refuse_if false e = none

-- Checks one after the other, each only where the ones before it pass.
unfoldable pub first_error : List Check → Check
first_error [] = none
first_error (none ∷ cs) = first_error cs
first_error (some e ∷ cs) = some e

-- `utf8.RuneCountInString`
abbrev pub rune_count : String → ℕ
rune_count s = String.count s

-- `checkText`
unfoldable pub check_text : FieldName → String → ℕ → Check
check_text name s max =
    refuse_if (ltb max (rune_count s)) (validation_error (max_characters name max))

-- The loop of `checkList`, from an index.
unfoldable pub check_elements : FieldName → ℕ → List String → ℕ → Check
unfolding check_text
check_elements name i [] max = none
check_elements name i (s ∷ items) max =
    first_error (check_text (element name i) s max ∷ check_elements name (i + 1) items max ∷ [])

-- `checkList`
unfoldable pub check_list : FieldName → List String → ℕ → ℕ → Check
check_list name items max_items max_item =
    if ltb max_items (length items)
    then some (validation_error (max_entries name max_items))
    else check_elements name 0 items max_item

-- A free-form object: how many entries it has, and the bytes of its JSON where it has one.
pub record ObjectSize : Type 0 where
  pub entries : ℕ
  pub encoded : Option ℕ

-- Its part for an object that is not empty.
abbrev pub check_encoded : FieldName → Option ℕ → Check
check_encoded name none = some (validation_error (not_object name))
check_encoded name (some bytes) =
    refuse_if (ltb max_object_size bytes) (validation_error (max_bytes name max_object_size))

-- `checkObjectSize`
unfoldable pub check_object_size : FieldName → ObjectSize → Check
check_object_size name obj = if nat_eq obj.entries 0 then none else check_encoded name obj.encoded
