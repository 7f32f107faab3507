-- ===== src/Common/Identifier.antt =====
-- When a text passes `_identifier`.
use Prim.Native.Char.{Char}
use Prim.Native.String.{String, [], ◌∷◌}
use mathlib.Core.Path.{◌≡◌, refl}
use mathlib.Core.Bool.{true, false}
use native.Mathlib.Omega.{arith}
use text.Mathlib.TextPositions.{eq_refl}
use text.Mathlib.TextEquality.{eq_iff}
use mathlib.Core.Logic.{◌↔◌}
use text.Mathlib.TextLemmas.{cons-append, nil-append}
use delta_agent.Common.Basics.{if◌then◌else◌}
use delta_agent.Common.Text.{
  is_space, lstrip, rstrip, strip, is_identifier, starts_tight, ends_tight_from, ends_tight, keep,
  is_empty, ◌⧺◌,
}

keep-cons : (c d : Char) (s t : String) → t ≡ d ∷ s → keep c t ≡ c ∷ (d ∷ s)
keep-cons c d s t e = rw e refl

rstrip_tight_from : (c : Char) (s : String) → ends_tight_from c s ≡ true → rstrip (c ∷ s) ≡ c ∷ s
unfolding rstrip ends_tight_from
rstrip_tight_from c [] h = ground arith
rstrip_tight_from c (d ∷ s) h = keep-cons c d s _ (rstrip_tight_from d s h)

pub strip_tight : (s : String) → starts_tight s ≡ true → ends_tight s ≡ true → strip s ≡ s
unfolding strip lstrip ends_tight
strip_tight [] h k = cc
strip_tight (c ∷ s) h k = lstrip_step (rstrip_tight_from c s k)
  where
    lstrip_step : rstrip (c ∷ s) ≡ c ∷ s → rstrip (if is_space c then lstrip s else c ∷ s) ≡ c ∷ s
    lstrip_step e = ground arith

nonempty : (s : String) → starts_tight s ≡ true → is_empty s ≡ false
nonempty [] h = cc
nonempty (c ∷ s) h = refl

pub is_identifier_of_tight :
    (s : String) → starts_tight s ≡ true → ends_tight s ≡ true → is_identifier s ≡ true
unfolding is_identifier
is_identifier_of_tight s h k = rw (strip_tight s h k, nonempty s h, eq_refl)

pub starts_tight-append : (s t : String) → starts_tight s ≡ true → starts_tight (s ⧺ t) ≡ true
starts_tight-append [] t h = cc
starts_tight-append (c ∷ s) t h = rw cons-append h

ends_tight_from-append :
    (c : Char) (s t : String) → ends_tight t ≡ true → ends_tight_from c (s ⧺ t) ≡ true
unfolding ends_tight
ends_tight_from-append c [] [] h = cc
ends_tight_from-append c [] (d ∷ t) h = rw nil-append h
ends_tight_from-append c (d ∷ s) t h = rw cons-append (ends_tight_from-append d s t h)

pub ends_tight-append : (s t : String) → ends_tight t ≡ true → ends_tight (s ⧺ t) ≡ true
unfolding ends_tight
ends_tight-append [] t h = rw nil-append h
ends_tight-append (c ∷ s) t h = rw cons-append (ends_tight_from-append c s t h)

-- A text that is not empty and neither begins nor ends with a space.
abbrev pub IsTrimmed : String → Type 0
IsTrimmed s = (is_empty s ≡ false) × (strip s ≡ s)

pub is_identifier-IsTrimmed : (s : String) → (is_identifier s ≡ true) ↔ IsTrimmed s
unfolding is_identifier
is_identifier-IsTrimmed [] = (λ h. cc, λ h. cc (h.0))
is_identifier-IsTrimmed (c ∷ s) =
    (λ h. (refl, (eq_iff (strip (c ∷ s)) (c ∷ s)).0 h), λ h. (eq_iff (strip (c ∷ s)) (c ∷ s)).1 h.1)
