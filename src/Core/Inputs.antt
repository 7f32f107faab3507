-- ===== src/Core/Inputs.antt =====
-- delta/core.py: `validate_inputs`.
pub mod Taken
use delta_agent.Common.{
  String, Bool, true, false, not, ◌&&◌, Option, none, some, List, [], ◌∷◌, str_eq, if◌then◌else◌,
}
use delta_agent.Common.Result.{Result, ok, err, input_validation, ◌>>=◌, ◌>>◌, require, refuse}
use delta_agent.Common.Text.{◌⧺◌, take}
use delta_agent.Common.Dict.{Dict, lookup, insert}
use delta_agent.Core.Value.{Value, bool, int, float, str}
use delta_agent.Core.Platform.{Platform, normalize}
use delta_agent.Core.Schema.{InputSpec}
use delta_agent.Core.Work.{Workflow}
use delta_agent.Core.Workflow.{has_key, is_nil}

abbrev pub is_str : Value → Bool
is_str (str s) = true
is_str _ = false

abbrev pub is_bool : Value → Bool
is_bool (bool b) = true
is_bool _ = false

-- isinstance(value, int) and not isinstance(value, bool)
abbrev pub is_int : Value → Bool
is_int (int n) = true
is_int _ = false

abbrev pub is_number : Value → Bool
is_number (int n) = true
is_number (float f) = true
is_number _ = false

-- set(supplied) - set(workflow.inputs)
unfoldable pub unknown_names : Dict Value → Dict InputSpec → List String
unknown_names [] inputs = []
unknown_names ((k, v) ∷ supplied) inputs =
    let rest = unknown_names supplied inputs in if has_key k inputs then rest else k ∷ rest

module _ (platform : Platform) where
  open platform use {is_iso_date, sorted_text}

  abbrev pub check_date : Value → String → Result (Unit {0})
  check_date (str s) name =
      require (is_iso_date (take 10 s))
        (input_validation ("input " ⧺ name ⧺ " must be an ISO date"))
  check_date _ name = err (input_validation ("input " ⧺ name ⧺ " must be a date"))

  -- The tests on `spec.kind`: a test that does not concern the kind passes.
  unfoldable pub check_kind : String → String → Value → Result (Unit {0})
  check_kind kind name v = do
    refuse (str_eq kind "string" && not (is_str v))
        (input_validation ("input " ⧺ name ⧺ " must be a string"))
    if str_eq kind "date" then check_date v name else ok tt
    refuse (str_eq kind "boolean" && not (is_bool v))
        (input_validation ("input " ⧺ name ⧺ " must be a boolean"))
    refuse (str_eq kind "integer" && not (is_int v))
        (input_validation ("input " ⧺ name ⧺ " must be an integer"))
    refuse (str_eq kind "number" && not (is_number v))
        (input_validation ("input " ⧺ name ⧺ " must be a number"))

  -- What one declared input adds to `normalized`.
  abbrev pub take_input : String → InputSpec → Option Value → Dict Value → Result (Dict Value)
  take_input name spec none normalized = do
    refuse spec.required (input_validation ("missing required workflow input: " ⧺ name))
    ok normalized
  take_input name spec (some given) normalized = do
    v ← normalize platform given
    check_kind spec.kind name v
    ok (insert name v normalized)

  unfoldable pub take_inputs : Dict InputSpec → Dict Value → Dict Value → Result (Dict Value)
  take_inputs [] supplied normalized = ok normalized
  take_inputs ((name, spec) ∷ specs) supplied normalized =
      take_input name spec (lookup name supplied) normalized >>= take_inputs specs supplied

  unfoldable pub validate_inputs : Workflow → Dict Value → Result (Dict Value)
  validate_inputs w supplied = do
    let unknown = unknown_names supplied w.inputs
    require (is_nil unknown) (input_validation ("unknown workflow inputs: " ⧺ sorted_text unknown))
    take_inputs w.inputs supplied []
