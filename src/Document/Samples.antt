-- ===== src/Document/Samples.antt =====
-- Documents for runs of the checks in daemon/src/system.rs.
use varmlen_client_linux.Base.{ℕ, false, List, [], ◌∷◌, ok, err, if◌then◌else◌, String}
use varmlen_client_linux.Base.Text.{str, str_eq}
use varmlen_client_linux.Document.Json.{
  Value, boolean, number, text, array, object, unsigned, Items, empty, more, Fields, closed, member,
  Parser,
}

abbrev fields : List (String × Value) → Fields
fields [] = closed
fields ((key, v) ∷ rest) = member (str key) v (fields rest)

abbrev items_of : List Value → Items
items_of [] = empty
items_of (v ∷ vs) = more v (items_of vs)

abbrev obj : List (String × Value) → Value
obj members = object (fields members)

abbrev arr : List Value → Value
arr vs = array (items_of vs)

abbrev word : String → Value
word s = text (str s)

abbrev num : ℕ → Value
num n = number (unsigned n)

abbrev outbound : String → String → Value
outbound tag protocol = obj (("tag", word tag) ∷ ("protocol", word protocol) ∷ [])

abbrev pub inbound : Value
inbound = obj (
    ("tag", word "tun-in")
    ∷ ("protocol", word "tun")
    ∷ ("settings", obj (("name", word "varmlen0") ∷ []))
    ∷ [])

abbrev pub tunnel : Value
tunnel = obj (
    ("log", obj (("loglevel", word "warning") ∷ []))
    ∷ ("dns", obj [])
    ∷ ("inbounds", arr (inbound ∷ []))
    ∷ (
      "outbounds",
      arr (
          outbound "proxy" "vless"
          ∷ outbound "direct" "freedom"
          ∷ outbound "dns-out" "dns"
          ∷ outbound "block" "blackhole"
          ∷ []),
    )
    ∷ ("routing", obj [])
    ∷ [])

abbrev pub socks : ℕ → Value
socks port = obj (
    ("tag", word "socks-in")
    ∷ ("protocol", word "socks")
    ∷ ("listen", word "127.0.0.1")
    ∷ ("port", num port)
    ∷ ("settings", obj (("auth", word "noauth") ∷ ("udp", boolean false) ∷ []))
    ∷ [])

abbrev marked : Value
marked = obj (
    ("tag", word "proxy")
    ∷ ("protocol", word "vless")
    ∷ ("streamSettings", obj (("sockopt", obj (("mark", num 0x2024) ∷ [])) ∷ []))
    ∷ [])

abbrev rule : Value
rule =
    obj (("type", word "field") ∷ ("network", word "tcp,udp") ∷ ("outboundTag", word "proxy") ∷ [])

abbrev pub measured : ℕ → Value
measured port = obj (
    ("log", obj [])
    ∷ ("inbounds", arr (socks port ∷ []))
    ∷ ("outbounds", arr (marked ∷ outbound "direct" "freedom" ∷ []))
    ∷ ("routing", obj (("rules", arr (rule ∷ [])) ∷ []))
    ∷ [])

-- It knows these documents by a name each.
abbrev pub parser : Parser
parser = record {
  from_str = λ raw.
      if str_eq raw (str "tunnel")
      then ok tunnel
      else if str_eq raw (str "measured")
      then ok (measured 2090)
      else if str_eq raw (str "reserved")
      then ok (measured 20000)
      else err (str "expected value");
  to_string = λ document. ok (str "reserved");
}
