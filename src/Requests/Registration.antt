-- ===== src/Requests/Registration.antt =====
-- Lemmas on the validator of registrations, internal/model/agent.go.
use self_organizing_multi_ag.Base.{
  ℕ, ◌+◌, ◌≤◌, ◌≡◌, ◌↔◌, refl, Bool, true, false, List, [], ◌∷◌, length, All, arith, nat_eq,
}
use self_organizing_multi_ag.Errors.{field, element, member}
use self_organizing_multi_ag.Limits.{
  Check, first_error, max_text_field, max_short_field, max_list_items,
}
use self_organizing_multi_ag.Limits.Bounds.{
  Passes, Short, check_text_iff, ShortList, check_list_iff, SmallObject, check_object_size_iff,
}
use self_organizing_multi_ag.Db.{Capability, Tool}
use self_organizing_multi_ag.Requests.{
  RegisterRequest, check_each, check_named, known_risk, check_tool, check_capability, off_scale,
  validate_register,
}
use self_organizing_multi_ag.Requests.Accepts.{NonEmpty}

-- A loop of checks passes when each of them does.
check_each_iff :
    {A : Type 0} (check : ℕ → A → Check) (P : A → Type 0)
    → ((i : ℕ) (a : A) → Passes (check i a) ↔ P a)
    → (i : ℕ) (items : List A) → Passes (check_each check i items) ↔ All P items
unfolding check_each first_error
check_each_iff check P each i [] = (λ h. tt, λ h. refl)
check_each_iff check P each i (a ∷ items) =
    ground (arith, each i a, check_each_iff check P each (i + 1) items)

abbrev pub ToolFits : Tool → Type 0
ToolFits t =
    NonEmpty t.name
    × Short max_short_field t.name
    × Short max_short_field t.version
    × ShortList max_list_items max_short_field t.operations
    × (known_risk t.risk ≡ true)

abbrev pub CapabilityFits : Capability → Type 0
CapabilityFits c =
    Short max_short_field c.name
    × Short max_text_field c.description
    × ShortList max_list_items max_short_field c.tags

check_named_iff : (i : ℕ) (c : Capability) → Passes (check_named i c) ↔ NonEmpty c.name
check_named_iff i c = ground arith

check_tool_iff : (i : ℕ) (t : Tool) → Passes (check_tool i t) ↔ ToolFits t
unfolding check_tool first_error
check_tool_iff i t = ground (
  arith,
  check_text_iff (member (element (field "tools") i) "name") t.name max_short_field,
  check_text_iff (member (element (field "tools") i) "version") t.version max_short_field,
  check_list_iff (member (element (field "tools") i) "operations") t.operations max_list_items
      max_short_field,
)

check_capability_iff : (i : ℕ) (c : Capability) → Passes (check_capability i c) ↔ CapabilityFits c
unfolding check_capability first_error
check_capability_iff i c = ground (
  arith,
  check_text_iff (member (element (field "capabilities") i) "name") c.name max_short_field,
  check_text_iff (member (element (field "capabilities") i) "description") c.description
      max_text_field,
  check_list_iff (member (element (field "capabilities") i) "tags") c.tags max_list_items
      max_short_field,
)

abbrev pub RegisterFits : {Load : Type 0} → (Load → Bool) → RegisterRequest Load → Type 0
RegisterFits out r =
    (nat_eq (length r.capabilities) 0 ≡ false)
    × All (λ c. NonEmpty c.name) r.capabilities
    × (length r.tools ≤ max_list_items)
    × All ToolFits r.tools
    × (off_scale out r.current_load ≡ false)
    × (length r.capabilities ≤ max_list_items)
    × All CapabilityFits r.capabilities
    × ShortList max_list_items max_short_field r.skills
    × ShortList max_list_items max_short_field r.preferred_roles
    × ShortList max_list_items max_short_field r.evidence
    × Short max_short_field r.operator
    × SmallObject r.constraints

-- `RegisterRequest.Validate` accepts exactly the registrations with at least one capability, every
-- capability and tool named and within its bounds, every list, text and object within its bound,
-- and a load that is on the scale where there is one.
validate_register_iff :
    {Load : Type 0} (out : Load → Bool) (r : RegisterRequest Load)
    → Passes (validate_register out r) ↔ RegisterFits out r
unfolding validate_register first_error
validate_register_iff out r = ground (
  arith,
  check_each_iff check_named (λ c. NonEmpty c.name) check_named_iff 0 r.capabilities,
  check_each_iff check_tool ToolFits check_tool_iff 0 r.tools,
  check_each_iff check_capability CapabilityFits check_capability_iff 0 r.capabilities,
  check_list_iff (field "skills") r.skills max_list_items max_short_field,
  check_list_iff (field "preferred_roles") r.preferred_roles max_list_items max_short_field,
  check_list_iff (field "evidence") r.evidence max_list_items max_short_field,
  check_text_iff (field "operator") r.operator max_short_field,
  check_object_size_iff (field "constraints") r.constraints,
)
