-- ===== src/Core/Quote.antt =====
-- delta/core.py: `ProviderQuote`, the facts about a paid offering.
use delta_agent.Common.{String, Bool, Option, none, some, ℤ, is_positive, is_negative}
use delta_agent.Common.Result.{Result, ok, delta_validation, ◌>>=◌, ◌>>◌, require, refuse}
use delta_agent.Core.Value
use delta_agent.Core.Value.{Entries}
use delta_agent.Core.Platform.{Platform}
use delta_agent.Core.Schema.{CostEstimate, identifier}

pub record ProviderQuote : Type 0 where
  pub provider_id : String
  pub offering_id : String
  pub chain_id : ℤ
  pub price : CostEstimate
  pub requirements_schema : Entries
  pub deliverable_format : String
  pub online : Bool
  pub sla_seconds : Option ℤ
  pub metadata : Entries

abbrev pub check_sla : Option ℤ → Result (Unit {0})
check_sla none = ok tt
check_sla (some n) =
    refuse (is_negative n) (delta_validation "sla_seconds must be a non-negative integer")

module _ (platform : Platform) where
  open platform use {date_text, datetime_text}

  -- Both objects are put in JSON form.
  unfoldable pub check_quote : ProviderQuote → Result ProviderQuote
  check_quote q = do
    identifier q.provider_id "provider_id"
    identifier q.offering_id "offering_id"
    require (is_positive q.chain_id) (delta_validation "chain_id must be a positive integer")
    identifier q.deliverable_format "deliverable_format"
    check_sla q.sla_seconds
    requirements ← Value.normalize_entries date_text datetime_text q.requirements_schema
    metadata ← Value.normalize_entries date_text datetime_text q.metadata
    ok (record q { requirements_schema = requirements; metadata = metadata })
