-- ===== src/Prelude/Parsing.antt =====
-- Methods of Rust's `str` that take a text apart: trimming, splitting, digits, ASCII case.
use Prim.Native.Nat.{ℕ, ◌+◌, ◌*◌, ◌-◌, ◌^◌}
use Prim.Native.Char.{Char, code}
use Prim.Native.String.{String, [], ◌∷◌, count}
use mathlib.Core.List.{List}
use mathlib.Core.Bool.{Bool, true, false, ◌&&◌, ◌||◌}
use mathlib.Core.Option.{Option, none, some}
use text.Mathlib.Text.{◌==◌}
use link_pilot.Prelude.Tests.{leb, ltb, eqb, if◌then◌else◌}

-- `char::is_whitespace`
unfoldable pub is_whitespace : Char → Bool
is_whitespace c =
    let n = code c in
    (leb 9 n && leb n 13)
    || (eqb n 32
        || (eqb n 133
            || (eqb n 160
                || (eqb n 5760
                    || ((leb 8192 n && leb n 8202)
                        || (eqb n 8232
                            || (eqb n 8233 || (eqb n 8239 || (eqb n 8287 || eqb n 12288)))))))))

-- `trim_start`
unfoldable pub trim_start : String → String
trim_start [] = []
trim_start (c ∷ s) = let rest = trim_start s in if is_whitespace c then rest else c ∷ s

-- `trim_end`
unfoldable pub trim_end : String → String
trim_end [] = []
trim_end (c ∷ s) = let rest = trim_end s in if is_whitespace c && rest == "" then [] else c ∷ rest

-- `trim`
unfoldable pub trim : String → String
unfolding trim_start trim_end is_whitespace
trim s = trim_end (trim_start s)

-- `s.contains(c)`
unfoldable pub contains_char : ℕ → String → Bool
contains_char n [] = false
contains_char n (c ∷ s) = eqb (code c) n || contains_char n s

-- A character in front of the first part.
abbrev onto_first : Char → List String → List String
onto_first c List.[] = List.◌∷◌ (c ∷ []) List.[]
onto_first c (List.◌∷◌ part parts) = List.◌∷◌ (c ∷ part) parts

-- `s.split(p)`
unfoldable pub split_on : (ℕ → Bool) → String → List String
split_on p [] = List.◌∷◌ "" List.[]
split_on p (c ∷ s) =
    let rest = split_on p s in if p (code c) then List.◌∷◌ "" rest else onto_first c rest

-- The characters in front of the first white space.
unfoldable pub word_of : String → String
word_of [] = []
word_of (c ∷ s) = let rest = word_of s in if is_whitespace c then [] else c ∷ rest

-- `s.split_whitespace().next()`
unfoldable pub first_word : String → Option String
first_word s = let word = word_of (trim_start s) in if word == "" then none else some word

-- `is_ascii_hexdigit`
abbrev is_hexdigit : ℕ → Bool
is_hexdigit n =
    (leb b'0' n && leb n b'9') || ((leb b'a' n && leb n b'f') || (leb b'A' n && leb n b'F'))

unfoldable pub all_hexdigits : String → Bool
all_hexdigits [] = true
all_hexdigits (c ∷ s) = is_hexdigit (code c) && all_hexdigits s

-- Sixty-four bytes, all of them hexadecimal digits.
unfoldable pub is_digest : String → Bool
unfolding all_hexdigits
is_digest s = eqb (count s) 64 && all_hexdigits s

abbrev lower_char : Char → Char
lower_char c =
    if eqb (code c) b'A'
    then "a"
    else if eqb (code c) b'B'
    then "b"
    else if eqb (code c) b'C'
    then "c"
    else if eqb (code c) b'D'
    then "d"
    else if eqb (code c) b'E'
    then "e"
    else if eqb (code c) b'F'
    then "f"
    else if eqb (code c) b'G'
    then "g"
    else if eqb (code c) b'H'
    then "h"
    else if eqb (code c) b'I'
    then "i"
    else if eqb (code c) b'J'
    then "j"
    else if eqb (code c) b'K'
    then "k"
    else if eqb (code c) b'L'
    then "l"
    else if eqb (code c) b'M'
    then "m"
    else if eqb (code c) b'N'
    then "n"
    else if eqb (code c) b'O'
    then "o"
    else if eqb (code c) b'P'
    then "p"
    else if eqb (code c) b'Q'
    then "q"
    else if eqb (code c) b'R'
    then "r"
    else if eqb (code c) b'S'
    then "s"
    else if eqb (code c) b'T'
    then "t"
    else if eqb (code c) b'U'
    then "u"
    else if eqb (code c) b'V'
    then "v"
    else if eqb (code c) b'W'
    then "w"
    else if eqb (code c) b'X'
    then "x"
    else if eqb (code c) b'Y'
    then "y"
    else if eqb (code c) b'Z'
    then "z"
    else c

-- `to_ascii_lowercase`
unfoldable pub to_ascii_lowercase : String → String
to_ascii_lowercase [] = []
to_ascii_lowercase (c ∷ s) = lower_char c ∷ to_ascii_lowercase s

-- The number of digits read so far, onto which the rest is read.
unfoldable pub digits_from : ℕ → String → Option ℕ
digits_from n [] = some n
digits_from n (c ∷ s) =
    let rest = digits_from (n * 10 + (code c - b'0')) s in
    if leb b'0' (code c) && leb (code c) b'9' then rest else none

-- At least one digit, and no more than `u32` holds.
unfoldable pub digits_of : String → Option ℕ
unfolding digits_from
digits_of [] = none
digits_of (c ∷ s) = elim (digits_from 0 (c ∷ s)) [
  | none ↦ none
  | some n ↦ if ltb n (2 ^ 32) then some n else none
]

-- `parse::<u32>()`, which takes a sign `+`.
unfoldable pub parse_u32 : String → Option ℕ
unfolding digits_of
parse_u32 [] = none
parse_u32 (c ∷ s) = if eqb (code c) b'+' then digits_of s else digits_of (c ∷ s)
