-- ===== src/Split/Routing.antt =====
-- daemon/src/split/routing.rs: the routes and rules of the split, as the commands that lay and remove
-- them.
use varmlen_client_linux.Base.{
  ℕ, Bool, true, not, ◌&&◌, ◌||◌, List, [], ◌∷◌, ◌++◌, Option, none, some, leb, if◌then◌else◌,
  is_empty, all, ◌≡◌,
}
use varmlen_client_linux.Base.Text.{
  Str, str, str_eq, len, is_ascii_alphanumeric, split_whitespace, contains_char,
}

pub record PhysicalRoute : Type 0 where
  pub interface : Str
  pub gateway : Option Str

-- What follows the first occurrence of a word: `windows(2).find_map(…)`.
abbrev pub word_after : Str → List Str → Option Str
word_after key [] = none
word_after key (field ∷ []) = none
word_after key (field ∷ next ∷ rest) =
    let later = word_after key (next ∷ rest) in if str_eq field key then some next else later

abbrev pub is_interface_char : ℕ → Bool
is_interface_char c = is_ascii_alphanumeric c || contains_char c (str "._-")

-- `libc::IFNAMSIZ` is 16.
abbrev pub is_interface : Str → Bool
is_interface name = not (is_empty name) && leb (len name) 16 && all is_interface_char name

abbrev with_gateway : (Str → Bool) → Str → Option Str → Option PhysicalRoute
with_gateway is_ip interface none = some (record { interface = interface; gateway = none })
with_gateway is_ip interface (some gateway) =
    if is_ip gateway then some (record { interface = interface; gateway = some gateway }) else none

route_of : (Str → Bool) → Option Str → Option Str → Option PhysicalRoute
route_of is_ip none gateway = none
route_of is_ip (some interface) gateway =
    if is_interface interface then with_gateway is_ip interface gateway else none

default_route_of : (Str → Bool) → List Str → Option PhysicalRoute
unfolding route_of
default_route_of is_ip [] = none
default_route_of is_ip (first ∷ rest) =
    let fields = first ∷ rest in
    if str_eq first (str "default")
    then route_of is_ip (word_after (str "dev") fields) (word_after (str "via") fields)
    else none

-- `is_ip` is the success of the standard library's parser of addresses.
unfoldable pub parse_default_route : (Str → Bool) → Str → Option PhysicalRoute
unfolding default_route_of
parse_default_route is_ip line = default_route_of is_ip (split_whitespace line)

abbrev pub split_table : Str
split_table = str "102"

abbrev pub split_rule_priority : Str
split_rule_priority = str "100"

abbrev local_throws : List Str
local_throws =
    str "10.0.0.0/8"
    ∷ str "172.16.0.0/12"
    ∷ str "192.168.0.0/16"
    ∷ str "169.254.0.0/16"
    ∷ str "100.64.0.0/10"
    ∷ str "224.0.0.0/4"
    ∷ str "255.255.255.255/32"
    ∷ []

abbrev via : Option Str → List Str
via none = []
via (some gateway) = str "via" ∷ gateway ∷ []

abbrev throws : List Str → List (List Str)
throws [] = []
throws (network ∷ rest) =
    (str "route" ∷ str "replace" ∷ str "throw" ∷ network ∷ str "table" ∷ split_table ∷ [])
    ∷ throws rest

unfoldable pub routing_setup_commands : PhysicalRoute → List (List Str)
routing_setup_commands route =
    (str "route" ∷ str "replace" ∷ str "default" ∷ via route.gateway
        ++ (str "dev" ∷ route.interface ∷ str "table" ∷ split_table ∷ []))
      ∷ throws local_throws
    ++ ((str "rule"
          ∷ str "add"
          ∷ str "priority"
          ∷ split_rule_priority
          ∷ str "fwmark"
          ∷ str "0x2025"
          ∷ str "lookup"
          ∷ split_table
          ∷ [])
        ∷ [])

unfoldable pub routing_teardown_commands : List (List Str)
routing_teardown_commands =
    (str "rule"
      ∷ str "del"
      ∷ str "priority"
      ∷ split_rule_priority
      ∷ str "fwmark"
      ∷ str "0x2025"
      ∷ str "lookup"
      ∷ split_table
      ∷ [])
    ∷ (str "route" ∷ str "flush" ∷ str "table" ∷ split_table ∷ [])
    ∷ []

-- The last word of a command, which names its table.
abbrev pub last_word : List Str → Str
last_word [] = []
last_word (w ∷ []) = w
last_word (_ ∷ w ∷ ws) = last_word (w ∷ ws)

abbrev pub IsOwnCommand : List Str → Type 0
IsOwnCommand command = last_word command ≡ split_table

abbrev pub IsGateway : (Str → Bool) → Option Str → Type 0
IsGateway is_ip none = Unit
IsGateway is_ip (some gateway) = is_ip gateway ≡ true
