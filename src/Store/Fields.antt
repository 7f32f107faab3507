-- ===== src/Store/Fields.antt =====
-- How delta/store.py and delta/handoff.py read the fields of a persisted JSON object.
use delta_agent.Common.{
  [], ◌∷◌, ℕ, ◌+◌, ◌==◌, String, Bool, false, ◌&&◌, Option, none, some, ℤ, str_eq, if◌then◌else◌,
}
use delta_agent.Common.Result.{Result, ok, err, Error, key_error, type_error, value_error}
use delta_agent.Core.Value
use delta_agent.Core.Value.{
  Value, Values, Entries, Key, DateTime, null, bool, int, str, list, dict, nil, cons, end, entry,
}
use delta_agent.Core.Platform.{Platform}
use delta_agent.Core.Schema.{Scope}

abbrev pub key_is : String → Key → Bool
key_is k (Key.name j) = str_eq j k
key_is k Key.other = false

-- The value under a key.
unfoldable pub get : String → Entries → Option Value
get k end = none
get k (entry j v es) = if key_is k j then some v else get k es

-- payload[k]
abbrev pub item : String → Entries → Result Value
item k es = elim (get k es) [ none ↦ err (key_error k) | some v ↦ ok v ]

-- payload.get(k)
abbrev pub get_or_null : String → Entries → Value
get_or_null k es = elim (get k es) [ none ↦ null | some v ↦ v ]

unfoldable pub size : Entries → ℕ
size end = 0
size (entry k v es) = size es + 1

abbrev pub holds_text : String → String → Entries → Bool
holds_text k text es = elim (get k es) [ some (str s) ↦ str_eq s text | _ ↦ false ]

-- `_scope_payload`
unfoldable pub scope_fields : Scope → Entries
scope_fields scope =
    Value.entries_of
      (("tenant_id", str scope.tenant_id) ∷ ("project_id", str scope.project_id) ∷ [])

-- value == _scope_payload(scope): two dicts are equal where they have the same keys and values
unfoldable pub is_scope_payload : Scope → Value → Bool
is_scope_payload scope (dict es) =
    size es == 2
    && holds_text "tenant_id" scope.tenant_id es
    && holds_text "project_id" scope.project_id es
is_scope_payload scope _ = false

-- An object or None, where the code goes on to read fields of it.
abbrev pub object_or_null : Value → Result (Option Entries)
object_or_null null = ok none
object_or_null (dict es) = ok (some es)
object_or_null _ = err (type_error "an object was expected")

abbrev pub object_of : Value → Result Entries
object_of (dict es) = ok es
object_of _ = err (type_error "an object was expected")

-- A field that its class does not check, at its declared type.
abbrev pub loose_text : Value → Result (Option String)
loose_text null = ok none
loose_text (str s) = ok (some s)
loose_text _ = err (type_error "a text was expected")

-- A field of a corrupt record: the gate uses it only as a text, or where it is one.
abbrev pub text_only : Value → Option String
text_only (str s) = some s
text_only _ = none

-- A text that its class does check: another type has the message of that check.
abbrev pub text_or : Error → Value → Result String
text_or e (str s) = ok s
text_or e _ = err e

abbrev pub int_or : Error → Value → Result ℤ
int_or e (int n) = ok n
int_or e _ = err e

abbrev pub bool_or : Error → Value → Result Bool
bool_or e (bool b) = ok b
bool_or e _ = err e

module _ (platform : Platform) where
  open platform use {datetime_text, parse_datetime}

  -- `_timestamp`
  abbrev pub timestamp : Option DateTime → Value
  timestamp t = Value.optional (λ d. str (datetime_text d)) t

  abbrev pub parsed : Option DateTime → Result (Option DateTime)
  parsed none = err (value_error "Invalid isoformat string")
  parsed (some t) = ok (some t)

  -- `_parse_timestamp`
  unfoldable pub parse_timestamp : Value → Result (Option DateTime)
  parse_timestamp null = ok none
  parse_timestamp (str s) = parsed (parse_datetime s)
  parse_timestamp _ = err (type_error "fromisoformat: argument must be str")
