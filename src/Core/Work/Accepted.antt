-- ===== src/Core/Work/Accepted.antt =====
-- Which `WorkResult` of delta/core.py passes its checks, and what it is then.
use delta_agent.Common.{
  subst, ap, ◌∙◌, sym, str_eq, refl, String, All, [], ◌∷◌, ◌≡◌, ◌↔◌, arith, eq_iff,
}
use delta_agent.Common.Text.{is_identifier}
use delta_agent.Common.Identifier.{IsTrimmed, is_identifier-IsTrimmed}
use delta_agent.Common.Result.{
  require-eq-ok, Result, ok, delta_validation, require, ◌>>=◌, ◌>>◌, >>=-eq-ok, ok-injective,
}
use delta_agent.Core.Schema.{identifier}
use delta_agent.Core.Value.{Value}
use delta_agent.Core.Value.Normal.{normalize_json-Normal}
use delta_agent.Core.Platform.{Platform, normalize, canonical_json, signature, output_signature}
use delta_agent.Core.Work.{WorkResult, check_work_result}

identifier-IsTrimmed : (s label : String) → (identifier s label ≡ ok tt) ↔ IsTrimmed s
unfolding identifier
identifier-IsTrimmed s label = (
  λ h. (is_identifier-IsTrimmed s).0 (require-eq-ok (is_identifier s) _ h),
  λ h. rw ((is_identifier-IsTrimmed s).1 h) refl,
)

module _ (platform : Platform) where
  -- Completed work with names, under the signature of its output, and the same work with the output in
  -- JSON form.
  pub record IsAccepted (r s : WorkResult) : Type 0 where
    pub named : All IsTrimmed (
        r.workflow_id ∷ r.step_id ∷ r.implementation_id ∷ r.input_signature ∷ r.output_signature
        ∷ [])
    pub completed : r.status ≡ "completed"
    pub normal : normalize platform r.output ≡ ok s.output
    pub signed : output_signature platform r.output ≡ ok r.output_signature
    pub kept : s ≡ record r { output = s.output }

  output_signature-normal :
      (v w : Value)
      → normalize platform v ≡ ok w
      → output_signature platform w ≡ output_signature platform v
  unfolding output_signature signature canonical_json
  output_signature-normal v w h =
      rw (h, normalize_json-Normal platform.date_text platform.datetime_text v w h) refl

  -- The checks that do not read the output.
  abbrev checks : WorkResult → Result (Unit {0})
  checks r =
      identifier r.workflow_id "workflow_id"
      >> (identifier r.step_id "step_id"
          >> (identifier r.implementation_id "implementation_id"
              >> (identifier r.input_signature "input_signature"
                  >> (identifier r.output_signature "output_signature"
                      >> require (str_eq r.status "completed")
                          (delta_validation "WorkResult must represent completed work")))))

  abbrev signed_as : WorkResult → Value → Result WorkResult
  signed_as r output = output_signature platform output >>= λ expected.
      require (str_eq r.output_signature expected)
        (delta_validation "output_signature does not match output")
      >> ok (record r { output = output })

  check-parts :
      (r : WorkResult)
      → check_work_result platform r
        ≡ (checks r >> (normalize platform r.output >>= λ output. signed_as r output))
  unfolding check_work_result
  check-parts r = ground arith

  checks-eq-ok :
      (r : WorkResult)
      → checks r ≡ ok tt
      → All IsTrimmed (
          r.workflow_id ∷ r.step_id ∷ r.implementation_id ∷ r.input_signature ∷ r.output_signature
          ∷ [])
        × (r.status ≡ "completed")
  checks-eq-ok r h =
      let (u, a, h1) = >>=-eq-ok (identifier r.workflow_id "workflow_id") _ h in
      let (v, b, h2) = >>=-eq-ok (identifier r.step_id "step_id") _ h1 in
      let (w, c, h3) = >>=-eq-ok (identifier r.implementation_id "implementation_id") _ h2 in
      let (x, d, h4) = >>=-eq-ok (identifier r.input_signature "input_signature") _ h3 in
      let (y, e, h5) = >>=-eq-ok (identifier r.output_signature "output_signature") _ h4 in
      (
        (
          (identifier-IsTrimmed _ _).0 a,
          (
            (identifier-IsTrimmed _ _).0 b,
            (
              (identifier-IsTrimmed _ _).0 c,
              ((identifier-IsTrimmed _ _).0 d, ((identifier-IsTrimmed _ _).0 e, tt)),
            ),
          ),
        ),
        (eq_iff r.status "completed").0 (require-eq-ok _ _ h5),
      )

-- The checks of a work result return `s` exactly where its names and signatures are trimmed texts, its
-- status is completed, its output signature is the one computed from its output, and `s` is the same
-- work with the output in JSON form.
pub check_work_result-accepts_iff :
    (platform : Platform) (r s : WorkResult)
    → (check_work_result platform r ≡ ok s) ↔ IsAccepted platform r s
check_work_result-accepts_iff platform r s = (
  λ h.
      let (u, passed, h1) = >>=-eq-ok (checks platform r) _ (sym (check-parts platform r) ∙ h) in
      let (output, ho, h2) = >>=-eq-ok (normalize platform r.output) _ h1 in
      let (expected, he, h3) = >>=-eq-ok (output_signature platform output) _ h2 in
      let (w, same, h4) = >>=-eq-ok (require (str_eq r.output_signature expected) _) _ h3 in
      let made : record r { output = output } ≡ s = ok-injective h4 in
      let o : output ≡ s.output = ap (λ (x : WorkResult). x.output) made in
      let p = checks-eq-ok platform r passed in
      let e : r.output_signature ≡ expected = (eq_iff _ _).0 (require-eq-ok _ _ same) in
      record {
        named = p.0;
        completed = p.1;
        normal = ho ∙ ap ok o;
        signed = sym (output_signature-normal platform r.output output ho) ∙ he ∙ ap ok (sym e);
        kept = subst (λ v. s ≡ record r { output = v }) o (sym made);
      },
  λ a.
      let n = a.named in
      let e = output_signature-normal platform r.output s.output a.normal ∙ a.signed in
      check-parts platform r
      ∙ rw
          (
            (identifier-IsTrimmed _ "workflow_id").1 n.0,
            (identifier-IsTrimmed _ "step_id").1 n.1.0,
            (identifier-IsTrimmed _ "implementation_id").1 n.1.1.0,
            (identifier-IsTrimmed _ "input_signature").1 n.1.1.1.0,
            (identifier-IsTrimmed _ "output_signature").1 n.1.1.1.1.0,
            (eq_iff r.status "completed").1 a.completed,
            a.normal,
            e,
            (eq_iff r.output_signature r.output_signature).1 refl,
            ← a.kept,
          )
          refl,
)
