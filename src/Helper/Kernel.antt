-- ===== src/Helper/Kernel.antt =====
-- The addresses in the tables of sockets, as the kernel prints them, are read back (helper/src/main.rs).
use varmlen_client_linux.Base.{
  ℕ, ◌+◌, ◌-◌, ◌*◌, ◌/◌, ◌%◌, ◌<◌, ◌≤◌, false, [], ◌∷◌, ◌++◌, some, if◌then◌else◌, ltb, ◌==◌, ◌≡◌,
  ap, ◌∙◌, arith,
}
use varmlen_client_linux.Base.Text.{Str, len_utf8}
use varmlen_client_linux.Helper.Sockets.{
  hex_to_ipv4, from_hex, parse_hex, hex_value, push_digit, swapped, mapped,
}

-- A digit as `%X` prints it.
abbrev pub hex_upper : ℕ → ℕ
hex_upper d = if ltb d 10 then b'0' + d else b'A' + (d - 10)

-- Two digits.
abbrev pub octet : ℕ → Str
octet a = hex_upper (a / 16) ∷ hex_upper (a % 16) ∷ []

-- `%08X` of the four octets of an address, on a machine that keeps the lowest octet first.
abbrev pub printed : ℕ → ℕ → ℕ → ℕ → Str
printed a b c d = octet d ++ (octet c ++ (octet b ++ octet a))

abbrev pub address : ℕ → ℕ → ℕ → ℕ → ℕ
address a b c d = a * 16777216 + b * 65536 + c * 256 + d

hex_value-hex_upper : (d : ℕ) → d < 16 → hex_value (hex_upper d) ≡ some d
hex_value-hex_upper d h = ground arith

push_digit-some :
    (acc d : ℕ)
    → acc * 16 + d ≤ 4294967295
    → push_digit 4294967295 acc (some d) ≡ some (acc * 16 + d)
push_digit-some acc d bound = ground arith

parse_step :
    (acc d : ℕ) (s : Str)
    → d < 16
    → acc * 16 + d ≤ 4294967295
    → parse_hex 4294967295 (some acc) (hex_upper d ∷ s)
      ≡ parse_hex 4294967295 (some (acc * 16 + d)) s
unfolding parse_hex
parse_step acc d s h bound =
    ap (λ v. parse_hex 4294967295 (push_digit 4294967295 acc v) s) (hex_value-hex_upper d h)
    ∙ ap (λ v. parse_hex 4294967295 v s) (push_digit-some acc d bound)

parse_octet :
    (acc a : ℕ) (s : Str)
    → a < 256
    → acc * 256 + a ≤ 4294967295
    → parse_hex 4294967295 (some acc) (octet a ++ s) ≡ parse_hex 4294967295 (some (acc * 256 + a)) s
parse_octet acc a s h bound =
    parse_step acc (a / 16) (hex_upper (a % 16) ∷ s) (omega arith) (omega arith)
    ∙ parse_step (acc * 16 + a / 16) (a % 16) s (omega arith) (omega arith)
    ∙ ap (λ v. parse_hex 4294967295 (some v) s) (omega arith)

zero_start : (d : ℕ) → 0 * 256 + d ≡ d
zero_start d = omega arith

parse_printed :
    (a b c d : ℕ)
    → a < 256
    → b < 256
    → c < 256
    → d < 256
    → parse_hex 4294967295 (some 0) (printed a b c d) ≡ some (((d * 256 + c) * 256 + b) * 256 + a)
unfolding parse_hex
parse_printed a b c d ha hb hc hd =
    parse_octet 0 d (octet c ++ (octet b ++ octet a)) hd (omega arith)
    ∙ ap (λ v. parse_hex 4294967295 (some v) (octet c ++ (octet b ++ octet a))) (zero_start d)
    ∙ parse_octet d c (octet b ++ octet a) hc (omega arith)
    ∙ parse_octet (d * 256 + c) b (octet a) hb (omega arith)
    ∙ parse_octet ((d * 256 + c) * 256 + b) a [] ha (omega arith)

swapped-address :
    (a b c d : ℕ)
    → a < 256
    → b < 256
    → c < 256
    → d < 256
    → swapped (((d * 256 + c) * 256 + b) * 256 + a) ≡ address a b c d
swapped-address a b c d ha hb hc hd = omega arith

is_no_plus : (d : ℕ) → d < 16 → (hex_upper d == b'+') ≡ false
is_no_plus d h = ground arith

len_digit : (d : ℕ) → d < 16 → len_utf8 (hex_upper d) ≡ 1
len_digit d h = ground arith

-- The address of four octets, printed by the kernel as a word in the order of memory, is read back as
-- the address of these octets.
pub hex_to_ipv4-printed :
    (a b c d : ℕ)
    → a < 256
    → b < 256
    → c < 256
    → d < 256
    → hex_to_ipv4 (printed a b c d) ≡ some (address a b c d)
unfolding hex_to_ipv4 from_hex
hex_to_ipv4-printed a b c d ha hb hc hd =
    rw
      (
        len_digit (a / 16) (omega arith),
        len_digit (a % 16) (omega arith),
        len_digit (b / 16) (omega arith),
        len_digit (b % 16) (omega arith),
        len_digit (c / 16) (omega arith),
        len_digit (c % 16) (omega arith),
        len_digit (d / 16) (omega arith),
        len_digit (d % 16) (omega arith),
        is_no_plus (d / 16) (omega arith),
      )
      (ap mapped (parse_printed a b c d ha hb hc hd)
        ∙ ap some (swapped-address a b c d ha hb hc hd))
