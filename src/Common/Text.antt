-- ===== src/Common/Text.antt =====
-- Python's `str.strip` on native texts, and `_identifier` of delta/core.py.
use Prim.Native.Nat.{ℕ, zero, suc}
use Prim.Native.Char.{Char, code}
use Prim.Native.String.{String, [], ◌∷◌, ◌++◌}
use mathlib.Core.Bool.{Bool, true, false, not, ◌&&◌, ◌||◌}
use text.Mathlib.Text.{◌==◌}
use delta_agent.Common.Basics.{◌==◌ as nat_eq, leb, if◌then◌else◌}

-- The code points for which `str.isspace` holds.
unfoldable pub is_space : Char → Bool
is_space c =
    let n = code c in
    leb 9 n && leb n 13
    || leb 28 n && leb n 32
    || nat_eq n 133
    || nat_eq n 160
    || nat_eq n 5760
    || leb 8192 n && leb n 8202
    || nat_eq n 8232
    || nat_eq n 8233
    || nat_eq n 8239
    || nat_eq n 8287
    || nat_eq n 12288

unfoldable pub lstrip : String → String
lstrip [] = []
lstrip (c ∷ s) = if is_space c then lstrip s else c ∷ s

-- A character of the text stays unless it and all that follows are spaces.
abbrev pub keep : Char → String → String
keep c [] = if is_space c then [] else c ∷ []
keep c (d ∷ s) = c ∷ (d ∷ s)

unfoldable pub rstrip : String → String
rstrip [] = []
rstrip (c ∷ s) = keep c (rstrip s)

unfoldable pub strip : String → String
unfolding lstrip rstrip
strip s = rstrip (lstrip s)

abbrev pub is_empty : String → Bool
is_empty [] = true
is_empty (c ∷ s) = false

-- `value and value.strip() == value`
unfoldable pub is_identifier : String → Bool
unfolding strip
is_identifier s = not (is_empty s) && strip s == s

abbrev pub starts_tight : String → Bool
starts_tight [] = false
starts_tight (c ∷ s) = not (is_space c)

-- The last character, `c` where `s` is empty, is no space.
unfoldable pub ends_tight_from : Char → String → Bool
ends_tight_from c [] = not (is_space c)
ends_tight_from c (d ∷ s) = ends_tight_from d s

unfoldable pub ends_tight : String → Bool
unfolding ends_tight_from
ends_tight [] = false
ends_tight (c ∷ s) = ends_tight_from c s

-- value[:n]
unfoldable pub take : ℕ → String → String
take zero s = []
take (suc n) [] = []
take (suc n) (c ∷ s) = c ∷ take n s

infixr 65 ◌⧺◌
-- Concatenation of texts.
abbrev pub ◌⧺◌ : String → String → String
s ⧺ t = s ++ t
