-- ===== src/Handoff/Policy.antt =====
-- delta/handoff.py: inheritance policies and their lookup by work category.
pub mod Lookup
use delta_agent.Common.{String, Bool, false, ◌||◌, Option, none, some, List, [], ◌∷◌, ◌++◌, map}
use delta_agent.Common.Result.{Result, ok, err, handoff_policy, ◌>>=◌, ◌>>◌, require, refuse}
use delta_agent.Common.Sort.{sort_texts}
use delta_agent.Common.Text.{◌⧺◌, is_identifier, is_empty}
use delta_agent.Common.Dict.{Dict, lookup, insert}
use delta_agent.Core.Value
use delta_agent.Core.Value.{Value, str}
use delta_agent.Core.Platform.{Platform}
use delta_agent.Core.Schema.{Scope}

-- `_identifier` of handoff.py
unfoldable pub identifier : String → String → Result (Unit {0})
identifier value label =
    require (is_identifier value) (handoff_policy (label ⧺ " must be a non-empty trimmed string"))

pub data ProviderRule : Type 0 where
  any_provider same_provider provider_allowlist : ProviderRule

pub data ExternalExposureRule : Type 0 where
  internal_allowed shareable_only : ExternalExposureRule

abbrev pub rule_text : ProviderRule → String
rule_text any_provider = "any_provider"
rule_text same_provider = "same_provider"
rule_text provider_allowlist = "provider_allowlist"

abbrev pub exposure_rule_text : ExternalExposureRule → String
exposure_rule_text internal_allowed = "internal_allowed"
exposure_rule_text shareable_only = "shareable_only"

pub record InheritancePolicy : Type 0 where
  pub policy_id : String
  pub project_scope : Scope
  pub recipient_scope : Scope
  pub work_category : String
  pub provider_rule : ProviderRule
  pub external_exposure_rule : ExternalExposureRule
  pub agent_allowlist : Option (List String)
  pub allowed_providers : Option (List String)
  pub version : String

abbrev pub any_empty : List String → Bool
any_empty [] = false
any_empty (x ∷ xs) = is_empty x || any_empty xs

abbrev pub check_allowlist : Option (List String) → String → Result (Unit {0})
check_allowlist none label = ok tt
check_allowlist (some []) label =
    err (handoff_policy (label ⧺ " must be a non-empty tuple or None"))
check_allowlist (some (x ∷ xs)) label =
    refuse (any_empty (x ∷ xs)) (handoff_policy (label ⧺ " contains an invalid identity"))

-- The allowlist of providers is given exactly with the rule that reads it.
abbrev pub check_rule : ProviderRule → Option (List String) → Result (Unit {0})
check_rule provider_allowlist none =
    err (handoff_policy "provider allowlist rule requires provider_allowlist")
check_rule provider_allowlist (some xs) = ok tt
check_rule _ none = ok tt
check_rule _ (some xs) =
    err (handoff_policy "provider_allowlist is only valid with the allowlist rule")

unfoldable pub check_policy : InheritancePolicy → Result InheritancePolicy
check_policy p = do
  identifier p.policy_id "policy_id"
  identifier p.work_category "work_category"
  identifier p.version "policy version"
  check_allowlist p.agent_allowlist "agent_allowlist"
  check_allowlist p.allowed_providers "provider_allowlist"
  check_rule p.provider_rule p.allowed_providers
  ok p

abbrev pub scope_payload : Scope → Value
scope_payload s =
    Value.object (("tenant_id", str s.tenant_id) ∷ ("project_id", str s.project_id) ∷ [])

-- list(names) if names else None
abbrev pub text_list : Option (List String) → Value
text_list none = Value.null
text_list (some []) = Value.null
text_list (some (x ∷ xs)) = Value.array (map str (x ∷ xs))

unfoldable pub policy_payload : InheritancePolicy → Value
policy_payload p = Value.object (
    ("policy_id", str p.policy_id)
    ∷ ("version", str p.version)
    ∷ ("project_scope", scope_payload p.project_scope)
    ∷ ("recipient_scope", scope_payload p.recipient_scope)
    ∷ ("work_category", str p.work_category)
    ∷ ("provider_rule", str (rule_text p.provider_rule))
    ∷ ("external_exposure_rule", str (exposure_rule_text p.external_exposure_rule))
    ∷ ("agent_allowlist", text_list p.agent_allowlist)
    ∷ ("provider_allowlist", text_list p.allowed_providers)
    ∷ [])

-- The policies by work category, in the order in which they were given.
pub record PolicySet : Type 0 where
  pub by_category : Dict InheritancePolicy

module _ (platform : Platform) where
  open platform use {repr_text}

  abbrev pub add_policy :
      Option InheritancePolicy
      → InheritancePolicy
      → Dict InheritancePolicy
      → Result (Dict InheritancePolicy)
  add_policy none p by_category = ok (insert p.work_category p by_category)
  add_policy (some _) p by_category = err (
      handoff_policy
        ("duplicate inheritance policy for work category " ⧺ repr_text p.work_category))

  unfoldable pub add_policies :
      List InheritancePolicy → Dict InheritancePolicy → Result (Dict InheritancePolicy)
  add_policies [] by_category = ok by_category
  add_policies (p ∷ ps) by_category =
      add_policy (lookup p.work_category by_category) p by_category >>= add_policies ps

  -- `PolicySet.__init__`
  unfoldable pub make_policies : List InheritancePolicy → Result PolicySet
  make_policies ps = do by_category ← add_policies ps []; ok (record { by_category = by_category })

unfoldable pub for_category : PolicySet → Option String → Option InheritancePolicy
for_category s none = none
for_category s (some work_category) = lookup work_category s.by_category

abbrev pub keys {ℓ} : {V : Type ℓ} → Dict V → List String
keys d = map (λ e. e.0) d

unfoldable pub policy_ids : PolicySet → List String
policy_ids s = sort_texts (map (λ e. e.1.policy_id) s.by_category)

abbrev pub payload_at : Option InheritancePolicy → List Value
payload_at none = []
payload_at (some p) = policy_payload p ∷ []

unfoldable pub payloads_for : List String → Dict InheritancePolicy → List Value
payloads_for [] by_category = []
payloads_for (k ∷ ks) by_category = payload_at (lookup k by_category) ++ payloads_for ks by_category

unfoldable pub policies_payload : PolicySet → Value
policies_payload s = Value.array (payloads_for (sort_texts (keys s.by_category)) s.by_category)
