-- ===== src/Samples/Toy.antt =====
-- A platform of concrete functions, and a two-step handoff over it.
use delta_agent.Common.{ℕ, zero, suc, ◌+◌, String, true, false, Option, none, some, [], ◌∷◌, ltb}
use delta_agent.Common.Result.{Result, ok, err, map_result}
use delta_agent.Common.Text.{◌⧺◌, is_space, is_identifier}
use delta_agent.Common.Sort.{sort_texts}
use delta_agent.Common.Dict.{lookup, insert}
use delta_agent.Core.Value
use delta_agent.Core.Value.{
  Value, Values, Entries, Float, Key, null, bool, int, float, str, date, datetime, list, dict,
  input_ref, step_ref, opaque, nil, cons, end, entry, normalize_json,
}
use delta_agent.Core.Platform
use delta_agent.Core.Platform.{Platform, signature, canonical_json}
use delta_agent.Core.Schema.{Scope, CostEstimate, shareable, check_cost, money, identifier}
use delta_agent.Core.Work.{Step, Workflow, WorkResult, is_fresh, matches, check_work_result}
use delta_agent.Core.Workflow.{
  member, walk_bindings, collect, extract_dependencies, index_steps, keep_members, disjoint, rounds,
  all_known, topological_order, all_unique, check_references, check_steps, validate_workflow,
  resolve, resolve_step_input, input_signature,
}
use delta_agent.Core.Inputs.{unknown_names, check_kind, take_inputs, validate_inputs}
use delta_agent.Core.Plan.{
  check_plan, first_where, check_step_decision, plan_step, plan_steps, plan_digest,
  build_revision_plan,
}
use delta_agent.Core.Approval.{some_empty, check_approval, validate_spend_approval}
use delta_agent.Handoff.Policy
use delta_agent.Handoff.Policy.{
  InheritancePolicy, same_provider, internal_allowed, PolicySet, for_category, policy_ids,
  policy_payload, payloads_for, policies_payload, add_policies, make_policies,
}
use delta_agent.Handoff.Verdict.{check_verdict, verdicts_payload, approves_inheritance}
use delta_agent.Handoff.Decision.{
  evidence_payload, evidence_for, check_decision, decision_payload, check_candidate,
}
use delta_agent.Handoff.Context.{check_item, check_notice, check_context}
use delta_agent.Handoff.Receipt.{
  check_record, check_entry, from_decision, entry_payload, count_from, decision_counts,
  check_receipt, chargeable, known_amounts, one_currency, total_from, aggregate_cost,
  receipt_summary,
}
use delta_agent.Handoff.Discovery.{
  CandidateStore, HandoffRequest, completed_after, find, store_at, index_results, load_candidates,
  corrupt_steps, load_corrupt, insert_entry, sort_index, latest_from, latest_for_step,
}
use delta_agent.Handoff.Judge.{
  validity_verdict, trust_verdict, authorization_verdict, external_job_verdict, decide,
}
use delta_agent.Handoff.Candidate.{
  undecodable_candidate, missing_from, pending_candidate, record_key, rerun_candidate, judge,
  found_candidate, evaluate_candidate,
}
use delta_agent.Handoff.Gate.{
  step_candidate, evaluate_steps, handoff_digest, share_of, build_approved_context, build_receipt,
  conclude, evaluate,
}

unfoldable mutual
  pub write : Value → String
  write (str s) = "'" ⧺ s ⧺ "'"
  write (bool true) = "true"
  write (bool false) = "false"
  write (int n) = "1"
  write (list vs) = "[" ⧺ write_items vs ⧺ "]"
  write (dict es) = "{" ⧺ write_entries es ⧺ "}"
  write _ = "null"

  pub write_items : Values → String
  write_items nil = ""
  write_items (cons v vs) = write v ⧺ "," ⧺ write_items vs

  pub write_entries : Entries → String
  write_entries end = ""
  write_entries (entry (Key.name k) v es) = k ⧺ ":" ⧺ write v ⧺ "," ⧺ write_entries es
  write_entries (entry Key.other v es) = write_entries es

-- Amounts are whole numbers here, read from a few texts.
unfoldable pub amount : String → Option ℕ
amount s = lookup {V = ℕ} s (("0", 0) ∷ ("1", 1) ∷ ("2", 2) ∷ [])

abbrev pub toy : Platform
toy = record {
  dumps = write;
  sha256_hex = λ s. s ⧺ ".";
  utf8_size = λ s. 1;
  date_text = λ d. "day";
  datetime_text = λ d. "moment";
  parse_datetime = λ s. none;
  is_iso_date = λ s. true;
  int_text = λ n. "n";
  sorted_text = λ xs. "names";
  join_comma = λ xs. "steps";
  repr_text = λ s. s;
  Decimal = ℕ;
  parse_decimal = amount;
  is_finite = λ d. true;
  below_zero = λ d. false;
  exceeds = λ d e. ltb e d;
  plus = λ d e. d + e;
  zero_decimal = 0;
  plain_text = λ d. elim d [ zero ↦ "0" | suc n ↦ "1" ];
}

-- What the tests below compute with.
unfoldable pub program : Unit {0}
unfolding check_work_result write amount lookup insert normalize_json signature canonical_json
    is_identifier is_space sort_texts map_result identifier money check_cost is_fresh member
    walk_bindings collect extract_dependencies index_steps keep_members disjoint rounds all_known
    topological_order all_unique check_references check_steps validate_workflow resolve
    resolve_step_input input_signature unknown_names check_kind take_inputs validate_inputs
    Policy.identifier for_category policy_ids policy_payload payloads_for policies_payload
    check_verdict verdicts_payload approves_inheritance evidence_payload evidence_for check_decision
    decision_payload check_candidate check_item check_notice check_context check_record check_entry
    from_decision entry_payload count_from decision_counts check_receipt chargeable known_amounts
    one_currency total_from aggregate_cost receipt_summary completed_after find store_at
    index_results load_candidates corrupt_steps load_corrupt insert_entry sort_index latest_from
    latest_for_step validity_verdict trust_verdict authorization_verdict external_job_verdict decide
    undecodable_candidate missing_from pending_candidate record_key rerun_candidate judge
    found_candidate evaluate_candidate step_candidate evaluate_steps handoff_digest share_of
    build_approved_context build_receipt conclude evaluate Platform.output_signature matches
    check_plan first_where check_step_decision plan_step plan_steps plan_digest build_revision_plan
    some_empty check_approval validate_spend_approval
program = tt

abbrev pub scope : Scope
scope = record { tenant_id = "t"; project_id = "p" }

abbrev pub free : CostEstimate
free = record { amount = some "1"; currency = "USDC"; source = "list"; quoted_at = none }

abbrev step : String → Entries → Step
step id bind = record {
  id = id;
  implementation_id = "v1";
  bind = bind;
  freshness = record { ttl_seconds = none };
  estimated_cost = some free;
  executor = none;
  declaration = none;
}

-- `draft` reads the input, and `review` reads the output of `draft`.
abbrev pub draft : Step
draft = step "draft" (entry (Key.name "brief") (input_ref "brief") end)

abbrev pub review : Step
review = step "review" (entry (Key.name "text") (step_ref "draft") end)

abbrev pub workflow : Workflow
workflow = record {
  id = "flow";
  version = "1";
  inputs = ("brief", record { kind = "string"; required = true }) ∷ [];
  steps = review ∷ draft ∷ [];
}

abbrev pub policy : InheritancePolicy
policy = record {
  policy_id = "notes";
  project_scope = scope;
  recipient_scope = scope;
  work_category = "notes";
  provider_rule = same_provider;
  external_exposure_rule = internal_allowed;
  agent_allowlist = some ("b" ∷ []);
  allowed_providers = none;
  version = "1";
}

abbrev pub request : HandoffRequest
request = record {
  scope = scope;
  workflow = workflow;
  inputs = ("brief", str "hi") ∷ [];
  recipient = record { agent_id = "b"; session_id = "s2"; provider_id = "local" };
  policies = record { by_category = ("notes", policy) ∷ [] };
  requested_at = some 7;
}

abbrev text_or : Result String → String
text_or (ok s) = s
text_or (err e) = ""

abbrev pub draft_input : Value
draft_input = Value.object (("brief", str "hi") ∷ [])

abbrev pub draft_signature : String
draft_signature = text_or (input_signature toy scope workflow draft draft_input)

abbrev pub work : WorkResult
work = record {
  scope = scope;
  workflow_id = "flow";
  step_id = "draft";
  implementation_id = "v1";
  input_signature = draft_signature;
  output_signature = text_or (Platform.output_signature toy (str "done"));
  output = str "done";
  completed_at = some 3;
  fresh_until = some 9;
  successful_attempt_id = none;
  artifact = none;
  status = "completed";
  provenance = some (record {
    source_agent_id = "a";
    source_session_id = "s1";
    source_provider_id = "local";
    work_category = "notes";
    external_exposure = shareable;
    external_job = none;
    recorded_at = none;
  });
}

abbrev pub store : CandidateStore
store = record { list_work_results = λ id. ok (work ∷ []); list_work_records = none }
