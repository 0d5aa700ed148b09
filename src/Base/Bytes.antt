-- ===== src/Base/Bytes.antt =====
-- Go strings and byte slices: lists of bytes.
use Prim.Native.Nat.{ℕ}
use Prim.Native.Char.{code}
use Prim.Native.String.{String}
use mathlib.Core.List.{List, [], ◌∷◌, ◌++◌}
use mathlib.Core.Logic.{ite}
use native.Mathlib.Decide.{ℕ_discrete}

abbrev pub Text : Type 0
Text = List ℕ

-- The bytes of an ASCII literal.
abbrev pub codes : String → Text
codes String.[] = []
codes (String.◌∷◌ c s) = code c ∷ codes s

-- Byte strings are compared byte by byte.
text_discrete_hlevel : Discrete Text
unfolding ℕ_discrete
text_discrete_hlevel = hlevel ℕ_discrete

unfoldable pub text_discrete : Discrete Text
unfolding text_discrete_hlevel
text_discrete = text_discrete_hlevel

-- strings.Split(s, sep) for a separator of one byte.
unfoldable pub split : ℕ → Text → List Text
split sep [] = [] ∷ []
split sep (b ∷ s) = elim (split sep s) [
  | [] ↦ [] ∷ []
  | t ∷ ts ↦ ite (ℕ_discrete b sep) ([] ∷ t ∷ ts) ((b ∷ t) ∷ ts)
]

-- strings.Join(parts, sep)
unfoldable pub join : Text → List Text → Text
join sep [] = []
join sep (t ∷ []) = t
join sep (t ∷ u ∷ ts) = t ++ (sep ++ join sep (u ∷ ts))
