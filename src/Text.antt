-- ===== src/Text.antt =====
-- JavaScript strings: lists of UTF-16 code units, with the operations of the language that the
-- program uses (`===`, truthiness, `trim`, `startsWith`).
pub mod Digits
pub mod Trim
use Prim.Native.Char.{code}
use Prim.Native.String.{String}
use trokk.Prelude.{
  ℕ, ◌+◌, ◌-◌, ◌/◌, ◌%◌, ◌≡◌, ◌↔◌, refl, Bool, true, false, ◌&&◌, ◌||◌, not, List, [], ◌∷◌, ◌++◌,
  Option, none, some, arith, ltb, leb, ◌==◌, if◌then◌else◌,
}
use mathlib.Core.List.{reverse}

abbrev pub Str : Type 0
Str = List ℕ

-- A code point above 0xffff is a surrogate pair.
abbrev pub units_of : ℕ → Str → Str
units_of c rest =
    if ltb c 0x10000
    then c ∷ rest
    else (0xd800 + (c - 0x10000) / 0x400) ∷ (0xdc00 + (c - 0x10000) % 0x400) ∷ rest

abbrev pub str : String → Str
str String.[] = []
str (String.◌∷◌ c s) = units_of (code c) (str s)

-- `===` on strings
abbrev pub str_eq : Str → Str → Bool
str_eq [] [] = true
str_eq [] (_ ∷ _) = false
str_eq (_ ∷ _) [] = false
str_eq (a ∷ s) (b ∷ t) = (a == b) && str_eq s t

pub str_eq_iff : (s t : Str) → (str_eq s t ≡ true) ↔ (s ≡ t)
str_eq_iff [] [] = ground arith
str_eq_iff [] (b ∷ t) = ground arith
str_eq_iff (a ∷ s) [] = ground arith
str_eq_iff (a ∷ s) (b ∷ t) = ground (arith, str_eq_iff s t)

pub str_eq_refl : (s : Str) → str_eq s s ≡ true
str_eq_refl s = (str_eq_iff s s).1 refl

-- The empty string is the only falsy one.
abbrev pub truthy : Str → Bool
truthy [] = false
truthy (_ ∷ _) = true

-- The white space and line ends that `trim` removes.
abbrev pub is_space : ℕ → Bool
is_space c =
    (leb 9 c && leb c 13)
    || c == 32
    || c == 0xa0
    || c == 0x1680
    || (leb 0x2000 c && leb c 0x200a)
    || c == 0x2028
    || c == 0x2029
    || c == 0x202f
    || c == 0x205f
    || c == 0x3000
    || c == 0xfeff

pub trim_start : Str → Str
trim_start [] = []
trim_start (c ∷ s) = if is_space c then trim_start s else c ∷ s

unfoldable pub trim : Str → Str
unfolding trim_start
trim s = reverse (trim_start (reverse (trim_start s)))

-- `s.startsWith(p)`
abbrev pub starts_with : Str → Str → Bool
starts_with [] s = true
starts_with (a ∷ p) [] = false
starts_with (a ∷ p) (b ∷ s) = (a == b) && starts_with p s
