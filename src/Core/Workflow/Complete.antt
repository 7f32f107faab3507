-- ===== src/Core/Workflow/Complete.antt =====
-- When `resolve_step_input` of delta/core.py waits for a dependency.
use delta_agent.Common.{arith, ℕ, String, Option, none, some, ◌≡◌, All, ◌≢◌}
use delta_agent.Common.Result.{Result, ok, err, dependency_pending, ◌>>=◌}
use delta_agent.Common.Dict.{Dict, lookup}
use delta_agent.Core.Value.{
  Value, Values, Entries, Key, finite, infinite, nan, name, other, float, list, dict, input_ref,
  step_ref, nil, cons, end, entry, normalize_json, normalize_items, normalize_entries, check_key,
}
use delta_agent.Core.Platform.{Platform, normalize}
use delta_agent.Core.Work.{Step}
use delta_agent.Core.Workflow.{
  walk_bindings, walk_items, walk_entries, references, resolve, resolve_items, resolve_entries,
  resolve_step_input, available_or,
}
use delta_agent.Core.Workflow.Bindings.{IsProvided, All-append_left, All-append_right}

-- What was computed does not wait for a dependency.
abbrev pub Settles {ℓ} : {A : Type ℓ} → Result A → Type ℓ
Settles r = (detail : String) → r ≢ err (dependency_pending detail)

ok-Settles {ℓ} : {A : Type ℓ} (a : A) → Settles (ok a)
ok-Settles a detail e = cc

>>=-Settles {ℓ κ} :
    {A : Type ℓ} {B : Type κ} (r : Result A) (next : A → Result B)
    → Settles r
    → ((a : A) → Settles (next a))
    → Settles (r >>= next)
>>=-Settles (ok a) next h k = k a
>>=-Settles (err e) next h k = λ detail same. h detail (ground arith)

module _ (date_text datetime_text : ℕ → String) where
  key-Settles : (k : Key) → Settles (check_key k)
  key-Settles (name k) = ok-Settles _
  key-Settles other = λ detail e. cc

  mutual
    unfolding normalize_json

    normalize_json-Settles : (v : Value) → Settles (normalize_json date_text datetime_text v)
    normalize_json-Settles (float (finite s)) = ok-Settles _
    normalize_json-Settles (float infinite) = λ detail e. cc
    normalize_json-Settles (float nan) = λ detail e. cc
    normalize_json-Settles (list vs) =
        >>=-Settles _ _ (normalize_items-Settles vs) (λ ws. ok-Settles _)
    normalize_json-Settles (dict es) =
        >>=-Settles _ _ (normalize_entries-Settles es) (λ fs. ok-Settles _)
    normalize_json-Settles v = λ detail e. ground arith

    normalize_items-Settles : (vs : Values) → Settles (normalize_items date_text datetime_text vs)
    normalize_items-Settles nil = ok-Settles _
    normalize_items-Settles (cons v vs) =
        >>=-Settles _ _ (normalize_json-Settles v)
          (λ w. >>=-Settles _ _ (normalize_items-Settles vs) (λ ws. ok-Settles _))

    normalize_entries-Settles :
        (es : Entries) → Settles (normalize_entries date_text datetime_text es)
    normalize_entries-Settles end = ok-Settles _
    normalize_entries-Settles (entry k v es) = >>=-Settles _ _ (key-Settles k) (λ j.
        >>=-Settles _ _ (normalize_json-Settles v)
          (λ w. >>=-Settles _ _ (normalize_entries-Settles es) (λ fs. ok-Settles _)))

module _ (platform : Platform) (inputs outputs : Dict Value) where
  available-Settles :
      (m : String) (o : Option Value) → (v : Value) × (o ≡ some v) → Settles (available_or m o)
  available-Settles m none h = cc (h.1)
  available-Settles m (some v) h = ok-Settles _

  normal-Settles : (v : Value) → Settles (normalize platform v)
  normal-Settles v = normalize_json-Settles platform.date_text platform.datetime_text v

  mutual
    unfolding resolve walk_bindings

    resolve-Settles :
        (v : Value)
        → All (IsProvided platform inputs outputs) (walk_bindings v)
        → Settles (resolve platform inputs outputs v)
    resolve-Settles (input_ref x) h = available-Settles _ (lookup x inputs) h.0
    resolve-Settles (step_ref x) h = available-Settles _ (lookup x outputs) h.0
    resolve-Settles (dict es) h =
        >>=-Settles _ _ (resolve_entries-Settles es h) (λ fs. ok-Settles _)
    resolve-Settles (list vs) h = >>=-Settles _ _ (resolve_items-Settles vs h) (λ ws. ok-Settles _)
    resolve-Settles v h = normal-Settles v

    resolve_items-Settles :
        (vs : Values)
        → All (IsProvided platform inputs outputs) (walk_items vs)
        → Settles (resolve_items platform inputs outputs vs)
    resolve_items-Settles nil h = ok-Settles _
    resolve_items-Settles (cons v vs) h =
        >>=-Settles _ _ (resolve-Settles v (All-append_left _ (walk_bindings v) (walk_items vs) h))
          (λ w.
            >>=-Settles _ _
              (resolve_items-Settles vs (All-append_right _ (walk_bindings v) (walk_items vs) h))
              (λ ws. ok-Settles _))

    resolve_entries-Settles :
        (es : Entries)
        → All (IsProvided platform inputs outputs) (walk_entries es)
        → Settles (resolve_entries platform inputs outputs es)
    resolve_entries-Settles end h = ok-Settles _
    resolve_entries-Settles (entry k v es) h =
        >>=-Settles _ _
          (resolve-Settles v (All-append_left _ (walk_bindings v) (walk_entries es) h))
          (λ w.
            >>=-Settles _ _
              (resolve_entries-Settles es
                (All-append_right _ (walk_bindings v) (walk_entries es) h))
              (λ fs. ok-Settles _))

  pub resolve_step_input-Settles :
      (step : Step)
      → All (IsProvided platform inputs outputs) (references step)
      → Settles (resolve_step_input platform inputs outputs step)
  unfolding resolve_step_input
  resolve_step_input-Settles step h =
      >>=-Settles _ _ (resolve-Settles (dict step.bind) h) normal-Settles
