-- ===== src/Base/Text.antt =====
-- Texts: concatenation of a template's parts, the order of `Array.prototype.sort`, decimal numbers,
-- prefixes, and the loops behind the regular expressions of the contracts.
pub mod Laws
use Prim.Native.Nat.{ℕ, zero, suc, ◌+◌, ◌/◌, ◌%◌}
use Prim.Native.Char.{Char, code, char}
use Prim.Native.String
use Prim.Native.String.{String, [], ◌∷◌}
use mathlib.Core.Bool.{Bool, true, false, ◌&&◌, ◌||◌}
use mathlib.Core.List
use mathlib.Core.List.{List}
use domain_eval_weave.Base.Tests.{ltb, leb, eqb, if◌then◌else◌}

-- A template literal, as the list of its parts.
unfoldable pub template : List String → String
template List.[] = ""
template (List.◌∷◌ s rest) = String.◌++◌ s (template rest)

-- The place of a code point in the order of UTF-16 code units: one above 0xffff is written in
-- surrogates, which stand before 0xe000.
abbrev unit_rank : ℕ → ℕ
unit_rank c = if leb 0xe000 c && ltb c 0x10000 then c + 0x110000 else c

-- The order of `Array.prototype.sort`, on UTF-16 code units.
unfoldable pub text_leb : String → String → Bool
text_leb [] t = true
text_leb (c ∷ s) [] = false
text_leb (c ∷ s) (d ∷ t) =
    let rest = text_leb s t in
    if ltb (unit_rank (code c)) (unit_rank (code d))
    then true
    else if eqb (code c) (code d)
    then rest
    else false

abbrev digit : ℕ → String
digit zero = "0"
digit (suc zero) = "1"
digit (suc (suc zero)) = "2"
digit (suc (suc (suc zero))) = "3"
digit (suc (suc (suc (suc zero)))) = "4"
digit (suc (suc (suc (suc (suc zero))))) = "5"
digit (suc (suc (suc (suc (suc (suc zero)))))) = "6"
digit (suc (suc (suc (suc (suc (suc (suc zero))))))) = "7"
digit (suc (suc (suc (suc (suc (suc (suc (suc zero)))))))) = "8"
digit _ = "9"

-- With fuel `n` the quotients reach a single digit, since each is at most half of the last.
decimal_from : ℕ → ℕ → String
decimal_from zero n = digit n
decimal_from (suc fuel) n =
    let rest = decimal_from fuel (n / 10) in
    if ltb n 10 then digit n else String.◌++◌ rest (digit (n % 10))

-- `String(n)`
unfoldable pub decimal : ℕ → String
unfolding decimal_from
decimal n = decimal_from n n

-- `/^C*$/` for a class of characters.
unfoldable pub all_codes : (ℕ → Bool) → String → Bool
all_codes p [] = true
all_codes p (c ∷ s) = p (code c) && all_codes p s

unfoldable pub codes_count : String → ℕ
codes_count [] = 0
codes_count (c ∷ s) = suc (codes_count s)

abbrev pub is_digit : ℕ → Bool
is_digit c = leb b'0' c && leb c b'9'

abbrev pub is_upper : ℕ → Bool
is_upper c = leb b'A' c && leb c b'Z'

abbrev pub is_lower : ℕ → Bool
is_lower c = leb b'a' c && leb c b'z'

-- `s.startsWith(prefix)`
unfoldable pub starts_with : String → String → Bool
starts_with s [] = true
starts_with [] (d ∷ prefix) = false
starts_with (c ∷ s) (d ∷ prefix) = eqb (code c) (code d) && starts_with s prefix

-- `s.includes(part)`
unfoldable pub has_part : String → String → Bool
unfolding starts_with
has_part [] part = starts_with [] part
has_part (c ∷ s) part = starts_with (c ∷ s) part || has_part s part

-- `s.slice(0, n)`
unfoldable pub take : ℕ → String → String
take zero s = []
take (suc n) [] = []
take (suc n) (c ∷ s) = c ∷ take n s

unfoldable pub drop : ℕ → String → String
drop zero s = s
drop (suc n) [] = []
drop (suc n) (c ∷ s) = drop n s

join_from : String → String → List String → String
join_from separator s List.[] = s
join_from separator s (List.◌∷◌ t more) =
    String.◌++◌ s (String.◌++◌ separator (join_from separator t more))

-- `parts.join(separator)`
unfoldable pub join : String → List String → String
unfolding join_from
join separator List.[] = ""
join separator (List.◌∷◌ s rest) = join_from separator s rest

split_from : ℕ → String → String → List String
split_from separator current [] = List.◌∷◌ current List.[]
split_from separator current (c ∷ s) =
    let closed = split_from separator "" s in
    let longer = split_from separator (String.◌++◌ current (c ∷ [])) s in
    if eqb (code c) separator then List.◌∷◌ current closed else longer

-- `s.split(separator)`, at a separator of one character.
unfoldable pub split : ℕ → String → List String
unfolding split_from
split separator s = split_from separator "" s

-- The white space and line terminators that `String.prototype.trim` removes.
abbrev is_space : ℕ → Bool
is_space c =
    (leb 9 c && leb c 13)
    || eqb c 32
    || eqb c 0xa0
    || eqb c 0x1680
    || (leb 0x2000 c && leb c 0x200a)
    || eqb c 0x2028
    || eqb c 0x2029
    || eqb c 0x202f
    || eqb c 0x205f
    || eqb c 0x3000
    || eqb c 0xfeff

trim_start : String → String
trim_start [] = []
trim_start (c ∷ s) = let rest = trim_start s in if is_space (code c) then rest else c ∷ s

abbrev is_blank : String → Bool
is_blank [] = true
is_blank (c ∷ s) = false

trim_end : String → String
trim_end [] = []
trim_end (c ∷ s) =
    let rest = trim_end s in if is_space (code c) && is_blank rest then [] else c ∷ rest

-- `s.trim()`
unfoldable pub trim : String → String
unfolding trim_start trim_end
trim s = trim_end (trim_start s)
