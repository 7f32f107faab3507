-- ===== src/Core/Value.antt =====
-- delta/core.py: the Python values that inputs, bindings and outputs hold, and `normalize_json`.
pub mod Normal
use delta_agent.Common.{ℕ, String, Bool, List, [], ◌∷◌, ℤ, Option, none, some}
use delta_agent.Common.Result.{Result, ok, err, Error, delta_validation, ◌>>=◌}
use delta_agent.Common.Text.{◌⧺◌}

-- A moment: the microseconds since the start of year 1, in UTC.
abbrev pub DateTime : Type 0
DateTime = ℕ

-- The finite floats are told apart by the text that `repr` gives them.
pub data Float : Type 0 where
  finite : String → Float
  infinite nan : Float

pub data Key : Type 0 where
  name : String → Key
  other : Key

-- `opaque` stands for every object of another class, named by its class. The references of a
-- step's bindings are objects too.
mutual
  pub data Value : Type 0 where
    null : Value
    bool : Bool → Value
    int : ℤ → Value
    float : Float → Value
    str : String → Value
    date datetime : DateTime → Value
    list : Values → Value
    dict : Entries → Value
    input_ref step_ref : String → Value
    opaque : String → Value

  pub data Values : Type 0 where
    nil : Values
    cons : Value → Values → Values

  pub data Entries : Type 0 where
    end : Entries
    entry : Key → Value → Entries → Entries

abbrev pub not_json : String → Error
not_json class = delta_validation ("value of type " ⧺ class ⧺ " is not JSON-compatible")

abbrev pub finite_float : Float → Result Value
finite_float (finite text) = ok (float (finite text))
finite_float f = err (delta_validation "non-finite floats are not valid JSON values")

abbrev pub check_key : Key → Result Key
check_key (name k) = ok (name k)
check_key other = err (delta_validation "JSON object keys must be strings")

-- `date_text` and `datetime_text` are the `isoformat` of the two classes.
module _ (date_text datetime_text : DateTime → String) where
  unfoldable mutual
    pub normalize_json : Value → Result Value
    normalize_json null = ok null
    normalize_json (bool b) = ok (bool b)
    normalize_json (int n) = ok (int n)
    normalize_json (float f) = finite_float f
    normalize_json (str s) = ok (str s)
    normalize_json (date d) = ok (str (date_text d))
    normalize_json (datetime d) = ok (str (datetime_text d))
    normalize_json (list vs) = do ws ← normalize_items vs; ok (list ws)
    normalize_json (dict es) = do fs ← normalize_entries es; ok (dict fs)
    normalize_json (input_ref x) = err (not_json "WorkflowInputRef")
    normalize_json (step_ref x) = err (not_json "StepOutputRef")
    normalize_json (opaque class) = err (not_json class)

    pub normalize_items : Values → Result Values
    normalize_items nil = ok nil
    normalize_items (cons v vs) = do w ← normalize_json v; ws ← normalize_items vs; ok (cons w ws)

    pub normalize_entries : Entries → Result Entries
    normalize_entries end = ok end
    normalize_entries (entry k v es) = do
      j ← check_key k
      w ← normalize_json v
      fs ← normalize_entries es
      ok (entry j w fs)

-- A dict and a list written out.
abbrev pub entries_of : List (String × Value) → Entries
entries_of [] = end
entries_of ((k, v) ∷ es) = entry (name k) v (entries_of es)

abbrev pub object : List (String × Value) → Value
object es = dict (entries_of es)

abbrev pub values_of : List Value → Values
values_of [] = nil
values_of (v ∷ vs) = cons v (values_of vs)

abbrev pub array : List Value → Value
array vs = list (values_of vs)

-- None where the field is unset.
abbrev pub optional {ℓ} : {A : Type ℓ} → (A → Value) → Option A → Value
optional f none = null
optional f (some a) = f a
