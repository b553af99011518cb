-- ===== src/Limits/Bounds.antt =====
-- Lemmas on the checks of internal/model/limits.go.
use self_organizing_multi_ag.Base.{
  ℕ, ◌+◌, ◌≤◌, String, ◌≡◌, ◌↔◌, ◌⊎◌, inl, inr, refl, none, some, List, [], ◌∷◌, length,
  Option-cases, All, arith,
}
use self_organizing_multi_ag.Errors.{FieldName, element}
use self_organizing_multi_ag.Limits.{
  Check, first_error, rune_count, check_text, check_elements, check_list, check_object_size,
  ObjectSize, max_object_size,
}

-- All checks pass.
abbrev pub Passes : Check → Type 0
Passes c = c ≡ none

pub first_error_iff : (cs : List Check) → Passes (first_error cs) ↔ All Passes cs
unfolding first_error
first_error_iff [] = (λ h. tt, λ h. refl)
first_error_iff (none ∷ cs) =
    (λ h. (refl, (first_error_iff cs).0 h), λ h. (first_error_iff cs).1 h.1)
first_error_iff (some e ∷ cs) = (λ h. absurd (cc h), λ h. absurd (cc h.0))

abbrev pub Short : ℕ → String → Type 0
Short max s = rune_count s ≤ max

pub check_text_iff :
    (name : FieldName) (s : String) (max : ℕ) → Passes (check_text name s max) ↔ Short max s
unfolding check_text
check_text_iff name s max = ground arith

check_elements_iff :
    (name : FieldName) (i : ℕ) (items : List String) (max : ℕ)
    → Passes (check_elements name i items max) ↔ All (Short max) items
unfolding check_elements first_error
check_elements_iff name i [] max = (λ h. tt, λ h. refl)
check_elements_iff name i (s ∷ items) max =
    ground (arith, check_text_iff (element name i) s max, check_elements_iff name (i + 1) items max)

-- At most so many texts, each at most so long.
abbrev pub ShortList : ℕ → ℕ → List String → Type 0
ShortList max_items max_item items = (length items ≤ max_items) × All (Short max_item) items

pub check_list_iff :
    (name : FieldName) (items : List String) (max_items max_item : ℕ)
    → Passes (check_list name items max_items max_item) ↔ ShortList max_items max_item items
unfolding check_list
check_list_iff name items max_items max_item =
    ground (arith, check_elements_iff name 0 items max_item)

-- An object that is empty, or has a JSON text of at most the limit.
abbrev pub SmallObject : ObjectSize → Type 0
SmallObject obj =
    (obj.entries ≡ 0) ⊎ ((bytes : ℕ) × (obj.encoded ≡ some bytes) × (bytes ≤ max_object_size))

pub check_object_size_iff :
    (name : FieldName) (obj : ObjectSize) → Passes (check_object_size name obj) ↔ SmallObject obj
unfolding check_object_size
check_object_size_iff name obj = elim (Option-cases obj.encoded) [
  | inl opaque ↦ ground arith
  | inr (bytes, e) ↦ ground arith
]
