-- ===== src/Prelude/Text.antt =====
-- `String.prototype.trim`, `slice(0, n)` and other operations on texts.
use Prim.Native.Nat.{ℕ, ◌+◌, ◌-◌}
use Prim.Native.Char.{Char, code}
use Prim.Native.String.{String, [], ◌∷◌}
use mathlib.Core.Bool.{Bool, true, false, ◌&&◌, ◌||◌}
use text.Mathlib.Text.{◌==◌ as str_eq}
use bachelor_thesis.Prelude.Tests.{leb, ◌==◌, if◌then◌else◌}

-- White space and line terminators of the language.
is_space : ℕ → Bool
is_space c =
    leb 9 c && leb c 13
    || c == 32
    || c == 160
    || c == 0x1680
    || leb 0x2000 c && leb c 0x200a
    || c == 0x2028
    || c == 0x2029
    || c == 0x202f
    || c == 0x205f
    || c == 0x3000
    || c == 0xfeff

drop_spaces : String → String
drop_spaces [] = []
drop_spaces (c ∷ s) = let rest = drop_spaces s in if is_space (code c) then rest else c ∷ s

reverse_onto : String → String → String
reverse_onto [] out = out
reverse_onto (c ∷ s) out = reverse_onto s (c ∷ out)

unfoldable pub trim : String → String
unfolding is_space drop_spaces reverse_onto
trim s = reverse_onto (drop_spaces (reverse_onto (drop_spaces s) "")) ""

-- The UTF-16 units of a character.
units : Char → ℕ
units c = if leb 65536 (code c) then 2 else 1

-- `slice(0, n)`, which counts UTF-16 units; half a pair that the source keeps at the end is no character,
-- and is left out.
unfoldable pub first_chars : ℕ → String → String
unfolding units
first_chars n [] = ""
first_chars n (c ∷ s) =
    let rest = first_chars (n - units c) s in if leb (units c) n then c ∷ rest else ""

-- Whether the text `s` starts with `p`, for `begins p s`.
unfoldable pub begins : String → String → Bool
begins [] s = true
begins (c ∷ p) [] = false
begins (c ∷ p) (d ∷ s) = str_eq (c ∷ "") (d ∷ "") && begins p s

-- The text up to the first comma.
unfoldable pub before_comma : String → String
before_comma [] = ""
before_comma (c ∷ s) = let rest = before_comma s in if code c == 44 then "" else c ∷ rest

-- `length`: a character beyond the basic plane counts as two units.
unfoldable pub utf16_length : String → ℕ
unfolding units
utf16_length [] = 0
utf16_length (c ∷ s) = units c + utf16_length s

-- The text `s` with `t` behind it.
unfoldable pub join_text : String → String → String
join_text [] t = t
join_text (c ∷ s) t = c ∷ join_text s t
