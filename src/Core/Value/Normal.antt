-- ===== src/Core/Value/Normal.antt =====
-- `normalize_json` of delta/core.py leaves alone what it has returned.
use delta_agent.Common.{String, ◌≡◌, refl, subst}
use delta_agent.Common.Result.{ok, >>=-eq-ok, ok-injective}
use delta_agent.Core.Value.{
  Value, Values, Entries, DateTime, finite, infinite, nan, name, other, null, bool, int, float, str,
  date, datetime, list, dict, input_ref, step_ref, opaque, nil, cons, end, entry, normalize_json,
  normalize_items, normalize_entries,
}

module _ (date_text datetime_text : DateTime → String) where
  abbrev Normal : Value → Type 0
  Normal w = normalize_json date_text datetime_text w ≡ ok w

  abbrev NormalItems : Values → Type 0
  NormalItems ws = normalize_items date_text datetime_text ws ≡ ok ws

  abbrev NormalEntries : Entries → Type 0
  NormalEntries es = normalize_entries date_text datetime_text es ≡ ok es

  mutual
    unfolding normalize_json

    pub normalize_json-Normal :
        (v w : Value) → normalize_json date_text datetime_text v ≡ ok w → Normal w
    normalize_json-Normal null w h = subst Normal (ok-injective h) refl
    normalize_json-Normal (bool b) w h = subst Normal (ok-injective h) refl
    normalize_json-Normal (int n) w h = subst Normal (ok-injective h) refl
    normalize_json-Normal (float (finite s)) w h = subst Normal (ok-injective h) refl
    normalize_json-Normal (float infinite) w h = cc
    normalize_json-Normal (float nan) w h = cc
    normalize_json-Normal (str s) w h = subst Normal (ok-injective h) refl
    normalize_json-Normal (date d) w h = subst Normal (ok-injective h) refl
    normalize_json-Normal (datetime d) w h = subst Normal (ok-injective h) refl
    normalize_json-Normal (list vs) w h =
        let (ws, hw, rest) = >>=-eq-ok (normalize_items date_text datetime_text vs) _ h in
        subst Normal (ok-injective rest) (rw (normalize_items-Normal vs ws hw) refl)
    normalize_json-Normal (dict es) w h =
        let (fs, hf, rest) = >>=-eq-ok (normalize_entries date_text datetime_text es) _ h in
        subst Normal (ok-injective rest) (rw (normalize_entries-Normal es fs hf) refl)
    normalize_json-Normal (input_ref x) w h = cc
    normalize_json-Normal (step_ref x) w h = cc
    normalize_json-Normal (opaque class) w h = cc

    normalize_items-Normal :
        (vs ws : Values) → normalize_items date_text datetime_text vs ≡ ok ws → NormalItems ws
    normalize_items-Normal nil ws h = subst NormalItems (ok-injective h) refl
    normalize_items-Normal (cons v vs) ws h =
        let (w, hw, h1) = >>=-eq-ok (normalize_json date_text datetime_text v) _ h in
        let (us, hu, rest) = >>=-eq-ok (normalize_items date_text datetime_text vs) _ h1 in
        subst NormalItems (ok-injective rest)
          (rw (normalize_json-Normal v w hw, normalize_items-Normal vs us hu) refl)

    normalize_entries-Normal :
        (es fs : Entries) → normalize_entries date_text datetime_text es ≡ ok fs → NormalEntries fs
    normalize_entries-Normal end fs h = subst NormalEntries (ok-injective h) refl
    normalize_entries-Normal (entry other v es) fs h = cc
    normalize_entries-Normal (entry (name k) v es) fs h =
        let (w, hw, h1) = >>=-eq-ok (normalize_json date_text datetime_text v) _ h in
        let (us, hu, rest) = >>=-eq-ok (normalize_entries date_text datetime_text es) _ h1 in
        subst NormalEntries (ok-injective rest)
          (rw (normalize_json-Normal v w hw, normalize_entries-Normal es us hu) refl)
