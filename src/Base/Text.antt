-- ===== src/Base/Text.antt =====
-- Rust's `str` as the list of its Unicode scalar values, with the methods that the program calls.
use Prim.Native.Nat.{ℕ, zero, suc, ◌+◌, ◌-◌, ◌*◌, ◌/◌, ◌%◌}
use Prim.Native.Char.{code}
use Prim.Native.String.{String}
use mathlib.Core.Path.{◌≡◌, refl}
use mathlib.Core.Logic.{◌↔◌}
use mathlib.Core.Bool.{Bool, true, false, ◌&&◌, ◌||◌}
use mathlib.Core.Option.{Option, none, some}
use mathlib.Core.List.{List, [], ◌∷◌, ◌++◌, map, reverse}
use native.Mathlib.Omega.{arith}
use varmlen_client_linux.Base.Tests.{ltb, leb, ◌==◌, if◌then◌else◌}
use varmlen_client_linux.Base.Lists.{any, is_empty}

abbrev pub Str : Type 0
Str = List ℕ

-- A literal.
abbrev pub str : String → Str
str String.[] = []
str (String.◌∷◌ c s) = code c ∷ str s

-- `char::len_utf8`
abbrev pub len_utf8 : ℕ → ℕ
len_utf8 c = if ltb c 0x80 then 1 else if ltb c 0x800 then 2 else if ltb c 0x10000 then 3 else 4

-- `str::len`, which counts bytes of UTF-8.
abbrev pub len : Str → ℕ
len [] = 0
len (c ∷ s) = len_utf8 c + len s

abbrev pub str_eq : Str → Str → Bool
str_eq [] [] = true
str_eq (a ∷ s) (b ∷ t) = a == b && str_eq s t
str_eq _ _ = false

pub str_eq_iff : (s t : Str) → (str_eq s t ≡ true) ↔ (s ≡ t)
str_eq_iff [] [] = (λ _. refl, λ _. refl)
str_eq_iff [] (b ∷ t) = (λ e. cc, λ e. cc)
str_eq_iff (a ∷ s) [] = (λ e. cc, λ e. cc)
str_eq_iff (a ∷ s) (b ∷ t) = ground (arith, str_eq_iff s t)

-- The Unicode `White_Space` property.
abbrev pub is_whitespace : ℕ → Bool
is_whitespace c =
    (leb 0x9 c && leb c 0xd)
    || c == 0x20
    || c == 0x85
    || c == 0xa0
    || c == 0x1680
    || (leb 0x2000 c && leb c 0x200a)
    || c == 0x2028
    || c == 0x2029
    || c == 0x202f
    || c == 0x205f
    || c == 0x3000

abbrev pub is_ascii_digit : ℕ → Bool
is_ascii_digit c = leb b'0' c && leb c b'9'

abbrev pub is_ascii_alphanumeric : ℕ → Bool
is_ascii_alphanumeric c =
    is_ascii_digit c || (leb b'A' c && leb c b'Z') || (leb b'a' c && leb c b'z')

abbrev pub to_ascii_lowercase : ℕ → ℕ
to_ascii_lowercase c = if leb b'A' c && leb c b'Z' then c + 32 else c

abbrev pub eq_ignore_ascii_case : Str → Str → Bool
eq_ignore_ascii_case s t = str_eq (map to_ascii_lowercase s) (map to_ascii_lowercase t)

abbrev pub contains_char : ℕ → Str → Bool
contains_char c s = any (λ x. x == c) s

-- `trim_start` and `trim`
abbrev pub trim_start : Str → Str
trim_start [] = []
trim_start (c ∷ s) = elim (is_whitespace c) [ true ↦ trim_start s | false ↦ c ∷ s ]

abbrev pub trim : Str → Str
trim s = reverse (trim_start (reverse (trim_start s)))

abbrev pub starts_with : Str → Str → Bool
starts_with [] s = true
starts_with (p ∷ ps) [] = false
starts_with (p ∷ ps) (c ∷ s) = p == c && starts_with ps s

-- `s.contains(pattern)`
abbrev pub contains : Str → Str → Bool
contains pattern [] = is_empty pattern
contains pattern (c ∷ s) = starts_with pattern (c ∷ s) || contains pattern s

abbrev glue : ℕ → List Str → List Str
glue c [] = (c ∷ []) ∷ []
glue c (piece ∷ pieces) = (c ∷ piece) ∷ pieces

-- `split` on the characters that pass a test; there is always a first piece.
unfoldable pub split_by : (ℕ → Bool) → Str → List Str
split_by p [] = [] ∷ []
split_by p (c ∷ s) = let rest = split_by p s in if p c then [] ∷ rest else glue c rest

abbrev pub nonempty : List Str → List Str
nonempty [] = []
nonempty (s ∷ ss) = let rest = nonempty ss in if is_empty s then rest else s ∷ rest

abbrev pub split_whitespace : Str → List Str
split_whitespace s = nonempty (split_by is_whitespace s)

abbrev strip_cr : Str → Str
strip_cr [] = []
strip_cr (c ∷ []) = if c == 0xd then [] else c ∷ []
strip_cr (c ∷ d ∷ s) = c ∷ strip_cr (d ∷ s)

-- A line feed ends a line, with the carriage return before it; nothing behind the last one is no line.
abbrev complete : List Str → List Str
complete [] = []
complete (last ∷ []) = if is_empty last then [] else last ∷ []
complete (line ∷ more ∷ rest) = strip_cr line ∷ complete (more ∷ rest)

abbrev pub lines : Str → List Str
lines text = complete (split_by (λ c. c == 0xa) text)

-- The value of decimal digits, `none` at another character or past the maximum.
unfoldable pub parse_digits : ℕ → ℕ → Str → Option ℕ
parse_digits maximum acc [] = some acc
parse_digits maximum acc (c ∷ s) =
    let rest = parse_digits maximum (acc * 10 + (c - b'0')) s in
    if is_ascii_digit c && leb (acc * 10 + (c - b'0')) maximum then rest else none

-- `str::parse` into an unsigned type with the given maximum: one `+` may stand in front.
abbrev pub parse_unsigned : ℕ → Str → Option ℕ
parse_unsigned maximum [] = none
parse_unsigned maximum (c ∷ []) = if c == b'+' then none else parse_digits maximum 0 (c ∷ [])
parse_unsigned maximum (c ∷ d ∷ s) = parse_digits maximum 0 (if c == b'+' then d ∷ s else c ∷ d ∷ s)

digits : ℕ → ℕ → Str
digits zero n = []
digits (suc fuel) n =
    let rest = digits fuel (n / 10) in
    if ltb n 10 then (b'0' + n) ∷ [] else rest ++ (b'0' + n % 10) ∷ []

-- A number as `format!` writes it.
unfoldable pub decimal : ℕ → Str
unfolding digits
decimal n = digits (suc n) n

hex_digit : ℕ → ℕ
hex_digit n = if ltb n 10 then b'0' + n else b'a' + (n - 10)

hex_digits : ℕ → ℕ → Str
unfolding hex_digit
hex_digits zero n = []
hex_digits (suc fuel) n =
    let rest = hex_digits fuel (n / 16) in
    if ltb n 16 then hex_digit n ∷ [] else rest ++ hex_digit (n % 16) ∷ []

-- A number as `format!("{n:#x}")` writes it.
unfoldable pub hex : ℕ → Str
unfolding hex_digits
hex n = str "0x" ++ hex_digits (suc n) n
