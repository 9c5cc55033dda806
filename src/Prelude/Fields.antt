-- ===== src/Prelude/Fields.antt =====
-- Texts as the code points that Go's strings and strconv packages walk: fields between commas,
-- white space around them, and decimal integers of 64 bits.
use Prim.Native.Nat.{ℕ, ◌+◌, ◌*◌, ◌-◌}
use Prim.Native.Char.{code}
use Prim.Native.String.{String}
use mathlib.Core.Bool.{Bool, true, false, ◌&&◌, ◌||◌}
use mathlib.Core.List.{List, [], ◌∷◌}
use mathlib.Core.Option.{Option, none, some}
use peikonpurekkusu_payment.Prelude.Tests.{ltb, leb, ◌==◌, if◌then◌else◌}
use peikonpurekkusu_payment.Prelude.Int.{ℤ, pos, negsuc}

abbrev pub codes : String → List ℕ
codes String.[] = []
codes (String.◌∷◌ c s) = code c ∷ codes s

abbrev pub codes_eq : List ℕ → List ℕ → Bool
codes_eq [] [] = true
codes_eq (a ∷ xs) (b ∷ ys) = (a == b) && codes_eq xs ys
codes_eq _ _ = false

abbrev pub is_empty : List ℕ → Bool
is_empty [] = true
is_empty (c ∷ cs) = false

-- `strings.Split` by a separator of one character.
unfoldable pub cons_head : ℕ → List (List ℕ) → List (List ℕ)
cons_head c [] = (c ∷ []) ∷ []
cons_head c (w ∷ ws) = (c ∷ w) ∷ ws

unfoldable pub split : ℕ → List ℕ → List (List ℕ)
unfolding cons_head
split sep [] = [] ∷ []
split sep (c ∷ cs) = let rest = split sep cs in if c == sep then [] ∷ rest else cons_head c rest

-- `strings.TrimSpace`, by the white space of Unicode.
unfoldable pub is_space : ℕ → Bool
is_space c =
    (leb 9 c && leb c 13)
    || (c == 32)
    || (c == 133)
    || (c == 160)
    || (c == 5760)
    || (leb 8192 c && leb c 8202)
    || (c == 8232)
    || (c == 8233)
    || (c == 8239)
    || (c == 8287)
    || (c == 12288)

unfoldable pub trim_left : List ℕ → List ℕ
unfolding is_space
trim_left [] = []
trim_left (c ∷ cs) = let rest = trim_left cs in if is_space c then rest else c ∷ cs

unfoldable pub trim_right : List ℕ → List ℕ
unfolding is_space
trim_right [] = []
trim_right (c ∷ cs) =
    let rest = trim_right cs in if is_space c && is_empty rest then [] else c ∷ rest

unfoldable pub trim_space : List ℕ → List ℕ
unfolding trim_left trim_right
trim_space cs = trim_right (trim_left cs)

-- `strconv.ParseInt(s, 10, 64)`: none is an error, of the syntax or of the range.
unfoldable pub digits : ℕ → List ℕ → Option ℕ
digits acc [] = some acc
digits acc (c ∷ cs) =
    let rest = digits (acc * 10 + (c - 48)) cs in if leb 48 c && leb c 57 then rest else none

unfoldable pub parse_uint : List ℕ → Option ℕ
unfolding digits
parse_uint [] = none
parse_uint (c ∷ cs) = digits 0 (c ∷ cs)

unfoldable pub non_negative : Option ℕ → Option ℤ
non_negative none = none
non_negative (some n) = if ltb n 9223372036854775808 then some (pos n) else none

-- `negsuc (n - 1)` is -n, and 0 has no sign.
unfoldable pub negative : Option ℕ → Option ℤ
negative none = none
negative (some n) =
    if n == 0
    then some (pos 0)
    else if leb n 9223372036854775808
    then some (negsuc (n - 1))
    else none

unfoldable pub parse_int64 : List ℕ → Option ℤ
unfolding parse_uint non_negative negative
parse_int64 [] = none
parse_int64 (c ∷ cs) =
    if c == 43
    then non_negative (parse_uint cs)
    else if c == 45
    then negative (parse_uint cs)
    else non_negative (parse_uint (c ∷ cs))
