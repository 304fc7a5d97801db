-- ===== src/Document/Ports.antt =====
-- daemon/src/system.rs, lines 1217 to 1323: the TUN devices of a document, and the ports of a validation
-- document, which the daemon replaces by ports that it has reserved itself.
use varmlen_client_linux.Base.{
  ℕ, Bool, not, ◌&&◌, ◌||◌, List, [], ◌∷◌, Option, none, some, Result, ok, err, ok_or, map_err,
  ◌++◌, suc, length, any, all, is_empty, leb, ltb, ◌==◌, if◌then◌else◌, to_option,
}
use varmlen_client_linux.Base.Text.{Str, str}
use varmlen_client_linux.Base.Checked.{◌>>=◌}
use varmlen_client_linux.Protocol.{DaemonError, internal, max_server_ips}
use varmlen_client_linux.Protocol.Validate.{repeats}
use varmlen_client_linux.Document.Json.{
  Value, null, number, unsigned, array, object, Items, empty, more, closed, member, Parser, as_str,
  str_at, u64_at, array_at, pointer, and_then, is_text, insert, get,
}
use varmlen_client_linux.Document.Checks.{invalid, parse_document}

-- The names of the devices, from the inbounds that ask for one.
unfoldable pub tun_names : List Value → List Str
tun_names [] = []
tun_names (v ∷ vs) =
    let rest = tun_names vs in
    if is_text (str_at (str "protocol") v) (str "tun")
    then elim (and_then (pointer (str "settings" ∷ str "name" ∷ []) v) as_str) [
      | none ↦ rest
      | some name ↦ name ∷ rest
    ]
    else rest

unfoldable pub configured_tun_devices : Parser → Str → List Str
configured_tun_devices parser raw =
    elim (and_then (to_option (parser.from_str raw)) (array_at (str "inbounds"))) [
      | none ↦ []
      | some inbounds ↦ tun_names inbounds
    ]

-- `exists` tells whether the network has a device of a name.
unfoldable pub tun_devices_already_live : Parser → (Str → Bool) → Str → Bool
tun_devices_already_live parser exists raw =
    let devices = configured_tun_devices parser raw in not (is_empty devices) && all exists devices

abbrev pub unprivileged : Option ℕ → Option ℕ
unprivileged none = none
unprivileged (some port) = if leb port 65535 && leb 1024 port then some port else none

unfoldable pub ports_of : List Value → Result DaemonError (List ℕ)
ports_of [] = ok []
ports_of (v ∷ vs) =
    let rest = ports_of vs in
    do
      port ←
          ok_or (unprivileged (u64_at (str "port") v))
            (invalid "validation config contains an invalid port")
      ports ← rest
      ok (port ∷ ports)

abbrev pub few : Option (List Value) → Option (List Value)
few none = none
few (some vs) = if leb 1 (length vs) && leb (length vs) max_server_ips then some vs else none

unfoldable pub document_ports : Value → Result DaemonError (List ℕ)
document_ports document = do
  inbounds ←
      ok_or (few (array_at (str "inbounds") document))
        (invalid "validation config must contain between one and 64 loopback inbounds")
  ports_of inbounds

unfoldable pub validation_config_ports : Parser → Str → Result DaemonError (List ℕ)
validation_config_ports parser raw = do
  document ← parse_document parser "invalid validation Xray JSON: " raw
  document_ports document

-- `inbound["port"] = json!(port)`, `none` where it panics.
unfoldable pub set_port : ℕ → Value → Option Value
set_port port null = some (object (member (str "port") (number (unsigned port)) closed))
set_port port (object fs) = some (object (insert (str "port") (number (unsigned port)) fs))
set_port port _ = none

-- The inbounds and the ports side by side.
unfoldable pub set_ports : Items → List ℕ → Option Items
set_ports empty ports = some empty
set_ports (more v vs) [] = some (more v vs)
set_ports (more v vs) (port ∷ ports) =
    and_then (set_port port v) (λ v'. and_then (set_ports vs ports) (λ vs'. some (more v' vs')))

unfoldable pub length_items : Items → ℕ
length_items empty = 0
length_items (more v vs) = suc (length_items vs)

abbrev pub as_items : Value → Option Items
as_items (array vs) = some vs
as_items _ = none

abbrev pub as_many : ℕ → Option Items → Option Items
as_many n none = none
as_many n (some vs) = if length_items vs == n then some vs else none

-- `get_mut("inbounds")` stands for a place in the document, to which the changed list is written.
unfoldable pub put_inbounds : Items → Value → Value
put_inbounds vs (object fs) = object (insert (str "inbounds") (array vs) fs)
put_inbounds vs v = v

abbrev pub replaced : Value → List ℕ → Option Items → Option (Result DaemonError Value)
replaced document ports none =
    some (err (invalid "validation config port count does not match its inbounds"))
replaced document ports (some inbounds) =
    and_then (set_ports inbounds ports) (λ changed. some (ok (put_inbounds changed document)))

-- The document with the ports, `none` in a panic.
unfoldable pub with_ports : Value → List ℕ → Option (Result DaemonError Value)
with_ports document ports =
    replaced document ports
      (as_many (length ports) (and_then (get (str "inbounds") document) as_items))

unfoldable pub ports_are_fit : List ℕ → Bool
ports_are_fit ports = not (
    is_empty ports
    || ltb max_server_ips (length ports)
    || any (λ port. ltb port 1024) ports
    || repeats [] ports)

unfoldable pub serialized : Parser → Value → Result DaemonError Str
serialized parser document =
    map_err
      (λ error. record {
        code = internal;
        message = str "could not serialize validation Xray JSON: " ++ error;
      })
      (parser.to_string document)

abbrev pub after_parse :
    Parser → List ℕ → Result DaemonError Value → Option (Result DaemonError Str)
after_parse parser ports (err e) = some (err e)
after_parse parser ports (ok document) =
    and_then (with_ports document ports) (λ r. some (r >>= serialized parser))

unfoldable pub validation_config_with_ports :
    Parser → Str → List ℕ → Option (Result DaemonError Str)
validation_config_with_ports parser raw ports =
    if ports_are_fit ports
    then after_parse parser ports (parse_document parser "invalid validation Xray JSON: " raw)
    else some (err (invalid "validation ports must be unique and unprivileged"))
