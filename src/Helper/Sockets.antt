-- ===== src/Helper/Sockets.antt =====
-- helper/src/main.rs: the tables of sockets in /proc/net, and the rules that keep the open flows of the
-- excluded programs outside the tunnel.
use varmlen_client_linux.Base.{
  ℕ, zero, suc, ◌+◌, ◌-◌, ◌*◌, ◌/◌, ◌%◌, Bool, not, ◌&&◌, ◌||◌, List, [], ◌∷◌, ◌++◌, Option, none,
  some, if◌then◌else◌, any, ltb, leb, ◌==◌, length, take, drop, unwrap_or,
}
use varmlen_client_linux.Base.Text.{Str, str, len, str_eq, split_whitespace, decimal, hex}
use varmlen_client_linux.Protocol.{IpAddr, v4, v6}
use varmlen_client_linux.Helper.Killswitch.{bypass_mark, bypass_table}

abbrev pub hex_value : ℕ → Option ℕ
hex_value c =
    if leb b'0' c && leb c b'9'
    then some (c - b'0')
    else if leb b'A' c && leb c b'F'
    then some (c - b'A' + 10)
    else if leb b'a' c && leb c b'f'
    then some (c - b'a' + 10)
    else none

abbrev pub push_digit : ℕ → ℕ → Option ℕ → Option ℕ
push_digit maximum acc none = none
push_digit maximum acc (some d) = if leb (acc * 16 + d) maximum then some (acc * 16 + d) else none

unfoldable pub parse_hex : ℕ → Option ℕ → Str → Option ℕ
parse_hex maximum none s = none
parse_hex maximum (some acc) [] = some acc
parse_hex maximum (some acc) (c ∷ s) = parse_hex maximum (push_digit maximum acc (hex_value c)) s

-- `from_str_radix(…, 16)` into an unsigned type with the given maximum: one `+` may stand in front.
unfoldable pub from_hex : ℕ → Str → Option ℕ
unfolding parse_hex
from_hex maximum [] = none
from_hex maximum (c ∷ []) = if c == b'+' then none else parse_hex maximum (some 0) (c ∷ [])
from_hex maximum (c ∷ d ∷ s) = parse_hex maximum (some 0) (if c == b'+' then d ∷ s else c ∷ d ∷ s)

-- `to_le_bytes` of 32 bits, read as the octets of an address.
abbrev pub swapped : ℕ → ℕ
swapped word =
    (word % 256) * 16777216
    + (word / 256 % 256) * 65536
    + (word / 65536 % 256) * 256
    + word / 16777216 % 256

abbrev pub mapped : Option ℕ → Option ℕ
mapped none = none
mapped (some word) = some (swapped word)

unfoldable pub hex_to_ipv4 : Str → Option ℕ
unfolding from_hex
hex_to_ipv4 s = if len s == 8 then mapped (from_hex 4294967295 s) else none

abbrev joined : Option ℕ → Option ℕ → Option ℕ
joined none b = none
joined (some a) none = none
joined (some a) (some b) = some (a * 4294967296 + b)

-- The words of eight characters, the first one the highest; the table is ASCII.
words6 : ℕ → Option ℕ → Str → Option ℕ
unfolding from_hex
words6 zero acc s = acc
words6 (suc n) acc s = words6 n (joined acc (mapped (from_hex 4294967295 (take 8 s)))) (drop 8 s)

unfoldable pub hex_to_ipv6 : Str → Option ℕ
unfolding words6
hex_to_ipv6 s = if len s == 32 then words6 4 (some 0) s else none

-- What is pinned: a peer, or the port that a socket of UDP is bound to.
pub data Pin : Type 0 where
  peer4 : ℕ → Pin
  peer6 : ℕ → Pin
  sport : ℕ → Pin

-- `split_once(':')`
abbrev after_colon : ℕ → Option (Str × Str) → Option (Str × Str)
after_colon c none = none
after_colon c (some (a, b)) = some (c ∷ a, b)

unfoldable pub split_colon : Str → Option (Str × Str)
split_colon [] = none
split_colon (c ∷ s) =
    let rest = split_colon s in if c == b':' then some ([], s) else after_colon c rest

abbrev column : ℕ → List Str → Str
column n [] = []
column zero (s ∷ rest) = s
column (suc n) (s ∷ rest) = column n rest

abbrev port_of : Str → ℕ
port_of s = unwrap_or (from_hex 65535 s) 0

-- The port that the socket is bound to, if that is one.
unfoldable pub local_pin : Option (Str × Str) → Option Pin
unfolding from_hex
local_pin none = none
local_pin (some (_, port)) = if port_of port == 0 then none else some (sport (port_of port))

unfoldable pub peer_pin4 : Option ℕ → Option Pin
peer_pin4 none = none
peer_pin4 (some a) = if a / 16777216 == 127 || a == 0 then none else some (peer4 a)

unfoldable pub peer_pin6 : Option ℕ → Option Pin
peer_pin6 none = none
peer_pin6 (some a) = if a == 1 || a == 0 then none else some (peer6 a)

-- The remote end of a row, with the columns it stands in.
unfoldable pub remote_pin : Bool → Bool → List Str → Option (Str × Str) → Option Pin
unfolding from_hex local_pin peer_pin4 peer_pin6 hex_to_ipv4 hex_to_ipv6 split_colon
remote_pin is_udp is6 cols none = none
remote_pin is_udp is6 cols (some (ip_hex, port_hex)) =
    if port_of port_hex == 0
    then (if is_udp then local_pin (split_colon (column 1 cols)) else none)
    else if is6
    then peer_pin6 (hex_to_ipv6 ip_hex)
    else peer_pin4 (hex_to_ipv4 ip_hex)

abbrev is_in : Str → List Str → Bool
is_in s ss = any (str_eq s) ss

unfoldable pub row_pin : Bool → Bool → List Str → Str → Option Pin
unfolding remote_pin split_colon
row_pin is_udp is6 inodes text =
    let cols = split_whitespace text in
    if ltb (length cols) 10 || not (is_in (column 9 cols) inodes)
    then none
    else remote_pin is_udp is6 cols (split_colon (column 2 cols))

-- The three sets; a `BTreeSet` is a list in ascending order.
pub record Pins : Type 0 where
  pub peers4 : List ℕ
  pub peers6 : List ℕ
  pub udp_sports : List ℕ

abbrev pub no_pins : Pins
no_pins = record { peers4 = []; peers6 = []; udp_sports = [] }

unfoldable pub insert : ℕ → List ℕ → List ℕ
insert x [] = x ∷ []
insert x (y ∷ ys) =
    let rest = insert x ys in if ltb x y then x ∷ y ∷ ys else if x == y then y ∷ ys else y ∷ rest

unfoldable pub with_pin : Option Pin → Pins → Pins
unfolding insert
with_pin none p = p
with_pin (some (peer4 a)) p = record p { peers4 = insert a p.peers4 }
with_pin (some (peer6 a)) p = record p { peers6 = insert a p.peers6 }
with_pin (some (sport n)) p = record p { udp_sports = insert n p.udp_sports }

unfoldable pub rows : Bool → Bool → List Str → List Str → Pins → Pins
unfolding with_pin row_pin
rows is_udp is6 inodes [] p = p
rows is_udp is6 inodes (text ∷ rest) p =
    rows is_udp is6 inodes rest (with_pin (row_pin is_udp is6 inodes text) p)

-- One rule for each number of a set.
unfoldable pub pin_rules : Str → (ℕ → Str) → List ℕ → Str
pin_rules what show [] = []
pin_rules what show (n ∷ rest) =
    str "add rule inet "
    ++ (bypass_table
        ++ (str " mangle "
            ++ (what
                ++ (show n
                    ++ (str " meta mark set "
                        ++ (hex bypass_mark ++ 0xa ∷ pin_rules what show rest))))))

unfoldable pub pin_rules_batch : (IpAddr → Str) → Pins → Str
unfolding pin_rules
pin_rules_batch show p =
    pin_rules (str "ip daddr ") (λ a. show (v4 a)) p.peers4
    ++ (pin_rules (str "ip6 daddr ") (λ a. show (v6 a)) p.peers6
        ++ pin_rules (str "udp sport ") decimal p.udp_sports)
