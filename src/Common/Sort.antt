-- ===== src/Common/Sort.antt =====
-- Texts in order: Python's `<` on `str`, and `sorted`.
use Prim.Native.String.{String, compare}
use mathlib.Core.Bool.{Bool}
use mathlib.Core.List.{List, [], ◌∷◌}
use text.Mathlib.Text.{is_lt}
use delta_agent.Common.Basics.{if◌then◌else◌}

-- s < t, by code points
abbrev pub text_lt : String → String → Bool
text_lt s t = is_lt (compare s t)

unfoldable pub insert_text : String → List String → List String
insert_text s [] = s ∷ []
insert_text s (t ∷ ts) = if text_lt t s then t ∷ insert_text s ts else s ∷ t ∷ ts

-- sorted(texts)
unfoldable pub sort_texts : List String → List String
unfolding insert_text
sort_texts [] = []
sort_texts (s ∷ ts) = insert_text s (sort_texts ts)
