-- ===== src/Prelude/Text.antt =====
-- Texts: equality tests, and the case folding that the queries compare by.
use Prim.Native.Char.{code}
use Prim.Native.Nat.{ℕ, ◌+◌, ◌-◌}
use Prim.Native.String.{String}
use mathlib.Core.Bool.{Bool, true, false, ◌&&◌}
use mathlib.Core.Option.{Option, none, some}
use mathlib.Core.List.{List, [], ◌∷◌, map}
use text.Mathlib.Text.{◌==◌ as text_eq}
use algo_poc.Prelude.Tests.{leb, ◌==◌, if◌then◌else◌}

abbrev pub str_eq : String → String → Bool
str_eq = text_eq

-- The code points of a text.
abbrev pub codes : String → List ℕ
codes String.[] = []
codes (String.◌∷◌ c s) = code c ∷ codes s

abbrev pub codes_eq : List ℕ → List ℕ → Bool
codes_eq [] [] = true
codes_eq [] (_ ∷ _) = false
codes_eq (_ ∷ _) [] = false
codes_eq (a ∷ s) (b ∷ t) = (a == b) && codes_eq s t

-- Case folding of ASCII letters; the action, side and order-type columns hold ASCII words.
unfoldable pub to_upper : ℕ → ℕ
to_upper c = if leb b'a' c && leb c b'z' then c - 32 else c

unfoldable pub to_lower : ℕ → ℕ
to_lower c = if leb b'A' c && leb c b'Z' then c + 32 else c

-- `text.upper() == word`
unfoldable pub upper_is : String → String → Bool
unfolding to_upper
upper_is word text = codes_eq (map to_upper (codes text)) (codes word)

-- `text.lower() == word`
unfoldable pub lower_is : String → String → Bool
unfolding to_lower
lower_is word text = codes_eq (map to_lower (codes text)) (codes word)

-- `left is None or left == right`: an optional filter of a query.
abbrev pub unset_or_eq : Option String → String → Bool
unset_or_eq none _ = true
unset_or_eq (some a) b = str_eq b a

-- `left.upper() == right.upper()`
unfoldable pub same_upper : String → String → Bool
unfolding to_upper
same_upper left right = codes_eq (map to_upper (codes left)) (map to_upper (codes right))
