-- ===== src/Json/Quote.antt =====
-- `JSON.stringify` of a text. Texts hold Unicode scalar values, so no lone surrogate is met.
use Prim.Native.Char.{code}
use Prim.Native.String
use Prim.Native.String.{String, [], ◌∷◌}
use mathlib.Core.List
use domain_eval_weave.Base.{ℕ, ◌%◌, ltb, leb, eqb, if◌then◌else◌, template, decimal}

hex_digit : ℕ → String
hex_digit n =
    if eqb n 10
    then "a"
    else if eqb n 11
    then "b"
    else if eqb n 12
    then "c"
    else if eqb n 13
    then "d"
    else if eqb n 14
    then "e"
    else if eqb n 15
    then "f"
    else decimal n

-- The escape of a control character that has no short one: a code below 32 has two hex digits.
unicode_escape : ℕ → String
unfolding hex_digit
unicode_escape c = template (
    List.◌∷◌ "\\u00"
      (List.◌∷◌ (if leb 16 c then "1" else "0") (List.◌∷◌ (hex_digit (c % 16)) List.[])))

pub quote_code : ℕ → String → String
unfolding unicode_escape
quote_code c plain =
    if eqb c 0x22
    then "\\\""
    else if eqb c 0x5c
    then "\\\\"
    else if eqb c 0x8
    then "\\b"
    else if eqb c 0x9
    then "\\t"
    else if eqb c 0xa
    then "\\n"
    else if eqb c 0xc
    then "\\f"
    else if eqb c 0xd
    then "\\r"
    else if ltb c 0x20
    then unicode_escape c
    else plain

quote_body : String → String
unfolding quote_code
quote_body [] = ""
quote_body (c ∷ s) = String.◌++◌ (quote_code (code c) (c ∷ [])) (quote_body s)

unfoldable pub quote : String → String
unfolding quote_body template decimal
quote s = template (List.◌∷◌ "\"" (List.◌∷◌ (quote_body s) (List.◌∷◌ "\"" List.[])))
