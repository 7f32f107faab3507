-- ===== src/Core/Platform.antt =====
-- What delta/core.py and delta/handoff.py take from Python's standard library: `json.dumps`,
-- `hashlib.sha256`, `isoformat`, `str`, `repr` and `decimal.Decimal`. Then the digests made from them.
use delta_agent.Common.{ℕ, String, Bool, List, Option, ℤ}
use delta_agent.Common.Result.{Result, ok, ◌>>=◌}
use delta_agent.Common.Text.{◌⧺◌}
use delta_agent.Core.Value
use delta_agent.Core.Value.{Value, DateTime}

pub record Platform : Type 1 where
  -- json.dumps(value, sort_keys=True, separators=(",", ":"), ensure_ascii=False, allow_nan=False)
  pub dumps : Value → String
  -- hashlib.sha256(text.encode("utf-8")).hexdigest()
  pub sha256_hex : String → String
  -- len(text.encode("utf-8"))
  pub utf8_size : String → ℕ
  pub date_text : DateTime → String
  pub datetime_text : DateTime → String
  -- datetime.fromisoformat, and whether date.fromisoformat accepts the text
  pub parse_datetime : String → Option DateTime
  pub is_iso_date : String → Bool
  -- str(n)
  pub int_text : ℤ → String
  -- str(sorted(names)) and ", ".join(names)
  pub sorted_text : List String → String
  pub join_comma : List String → String
  -- repr(text)
  pub repr_text : String → String
  -- Decimal(text), None where it raises; is_finite; d < 0; d > e; d + e; format(d.normalize(), "f")
  pub Decimal : Type 0
  pub parse_decimal : String → Option Decimal
  pub is_finite : Decimal → Bool
  pub below_zero : Decimal → Bool
  pub exceeds : Decimal → Decimal → Bool
  pub plus : Decimal → Decimal → Decimal
  pub zero_decimal : Decimal
  pub plain_text : Decimal → String

module _ (platform : Platform) where
  open platform use {dumps, sha256_hex, date_text, datetime_text}

  abbrev pub normalize : Value → Result Value
  normalize = Value.normalize_json date_text datetime_text

  unfoldable pub canonical_json : Value → Result String
  canonical_json v = do w ← normalize v; ok (dumps w)

  -- `_signature` of core.py and `_digest` of handoff.py
  unfoldable pub signature : Value → String → Result String
  signature v prefix = do text ← canonical_json v; ok (prefix ⧺ ":" ⧺ sha256_hex text)

  unfoldable pub output_signature : Value → Result String
  output_signature output = signature output "output"
