-- ===== src/Prelude/Text.antt =====
-- Text: equality, truthiness and `trim`, as the source uses them.
use Prim.Native.Char.{Char, code}
use Prim.Native.String
use Prim.Native.String.{String, [], ◌∷◌}
use mathlib.Core.Path.{◌≡◌, refl}
use mathlib.Core.Bool.{Bool, true, false, ◌&&◌, ◌||◌}
use mathlib.Core.Option.{Option, none, some}
use text.Mathlib.Text.{◌==◌}
use core_banking_system.Prelude.Tests.{if◌then◌else◌, nat_eq, leb}

infix 50 ◌=?◌
-- `===` on strings.
abbrev pub ◌=?◌ : String → String → Bool
s =? t = s == t

infixl 65 ◌+s◌
-- String concatenation, as in a template literal.
abbrev pub ◌+s◌ : String → String → String
s +s t = String.◌++◌ s t

-- A string as a condition: every string but the empty one holds.
unfoldable pub truthy : String → Bool
truthy [] = false
truthy (c ∷ s) = true

-- `s.startsWith(p)`.
unfoldable pub starts_with : String → String → Bool
starts_with s [] = true
starts_with [] (d ∷ p) = false
starts_with (c ∷ s) (d ∷ p) = nat_eq (code c) (code d) && starts_with s p

-- White space and line terminators of ECMAScript, the characters that `trim` takes away.
unfoldable pub is_space : Char → Bool
is_space c =
    (leb 9 (code c) && leb (code c) 13)
    || nat_eq (code c) 32
    || nat_eq (code c) 160
    || nat_eq (code c) 0x1680
    || (leb 0x2000 (code c) && leb (code c) 0x200a)
    || nat_eq (code c) 0x2028
    || nat_eq (code c) 0x2029
    || nat_eq (code c) 0x202f
    || nat_eq (code c) 0x205f
    || nat_eq (code c) 0x3000
    || nat_eq (code c) 0xfeff

unfoldable pub trim_start : String → String
unfolding is_space
trim_start [] = []
trim_start (c ∷ s) = let rest = trim_start s in if is_space c then rest else c ∷ s

-- A character in front of a trimmed end: it stays unless all behind it is white space too.
cons_trimmed : Char → String → String
unfolding is_space
cons_trimmed c [] = if is_space c then [] else c ∷ []
cons_trimmed c (d ∷ s) = c ∷ d ∷ s

unfoldable pub trim_end : String → String
unfolding cons_trimmed
trim_end [] = []
trim_end (c ∷ s) = cons_trimmed c (trim_end s)

-- `s.trim()`.
unfoldable pub trim : String → String
unfolding trim_start trim_end
trim s = trim_end (trim_start s)

-- `s || undefined`.
unfoldable pub or_undefined : String → Option String
unfolding truthy
or_undefined s = if truthy s then some s else none

trim_test : trim "  a b " ≡ "a b"
unfolding trim
trim_test = refl

trim_blank : truthy (trim "   ") ≡ false
unfolding trim truthy
trim_blank = refl
