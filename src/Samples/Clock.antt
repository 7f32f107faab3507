-- ===== src/Samples/Clock.antt =====
-- A platform that reads the times it has written.
use Prim.Native.String.{String, [], ◌∷◌}
use delta_agent.Common.{ℕ, zero, suc, ◌≡◌, refl, ap, some}
use delta_agent.Core.Value.{DateTime}
use delta_agent.Core.Platform.{Platform}
use delta_agent.Samples.Toy.{toy}

-- A time as so many strokes.
unfoldable pub strokes : ℕ → String
strokes zero = ""
strokes (suc n) = "|" ∷ strokes n

unfoldable pub counted : String → ℕ
counted [] = 0
counted (c ∷ s) = suc (counted s)

counted-strokes : (n : ℕ) → counted (strokes n) ≡ n
unfolding counted strokes
counted-strokes zero = refl
counted-strokes (suc n) = ap suc (counted-strokes n)

abbrev pub clocked : Platform
clocked = record toy { datetime_text = strokes; parse_datetime = λ s. some (counted s) }

pub clocked-reads :
    (t : DateTime) → Platform.parse_datetime clocked (Platform.datetime_text clocked t) ≡ some t
clocked-reads t = ap some (counted-strokes t)
