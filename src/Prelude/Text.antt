-- ===== src/Prelude/Text.antt =====
-- The text operations of Python that the program uses: `strip`, and equality as a test.
use Prim.Native.Nat.{ℕ, zero, suc}
use Prim.Native.Char.{Char, code}
use Prim.Native.String.{String, [], ◌∷◌}
use mathlib.Core.Path.{◌≡◌, refl, ap}
use mathlib.Core.Bool.{Bool, true, false, ◌&&◌, ◌||◌}
pub use text.Mathlib.Text.{◌==◌ as str_eq}
pub use text.Mathlib.TextEquality.{eq_iff}
pub use text.Mathlib.TextPositions.{eq_refl}
use unify_llm.Prelude.Tests.{leb, ◌==◌, if◌then◌else◌}

-- `str.isspace` of one character, over the whole of Unicode.
unfoldable pub is_space : Char → Bool
is_space ch =
    let c = code ch in
    leb 9 c && leb c 13
    || leb 28 c && leb c 32
    || c == 0x85
    || c == 0xa0
    || c == 0x1680
    || leb 0x2000 c && leb c 0x200a
    || c == 0x2028
    || c == 0x2029
    || c == 0x202f
    || c == 0x205f
    || c == 0x3000

unfoldable pub lstrip : String → String
unfolding is_space
lstrip [] = []
lstrip (c ∷ s) = let rest = lstrip s in if is_space c then rest else c ∷ s

-- `c` before a stripped rest: trailing blanks go.
before_rest : Char → String → String
unfolding is_space
before_rest c [] = if is_space c then [] else c ∷ []
before_rest c (d ∷ r) = c ∷ d ∷ r

unfoldable pub rstrip : String → String
unfolding before_rest
rstrip [] = []
rstrip (c ∷ s) = before_rest c (rstrip s)

-- `s.strip()`
unfoldable pub strip : String → String
unfolding lstrip rstrip
strip s = rstrip (lstrip s)

-- `not s`
abbrev pub is_empty : String → Bool
is_empty [] = true
is_empty (c ∷ s) = false

-- `len(s)`: the number of characters.
abbrev pub count_chars : String → ℕ
count_chars [] = 0
count_chars (c ∷ s) = suc (count_chars s)

-- `s[:n]`
abbrev pub take_chars : ℕ → String → String
take_chars zero s = []
take_chars (suc n) [] = []
take_chars (suc n) (c ∷ s) = c ∷ take_chars n s

infixr 65 ◌+str◌
-- `s + t`
abbrev pub ◌+str◌ : String → String → String
[] +str t = t
(c ∷ s) +str t = c ∷ (s +str t)

pub str_assoc : (s t u : String) → (s +str t) +str u ≡ s +str (t +str u)
str_assoc [] t u = refl
str_assoc (c ∷ s) t u = ap (λ r. c ∷ r) (str_assoc s t u)

pub str_nil : (s : String) → s +str [] ≡ s
str_nil [] = refl
str_nil (c ∷ s) = ap (λ r. c ∷ r) (str_nil s)
