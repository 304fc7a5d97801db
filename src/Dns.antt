-- ===== src/Dns.antt =====
-- daemon/src/dns.rs: the guard that installs the DNS rules and keeps them only if a probe through the
-- tunnel was answered; the probe's query and the test of its answer. Octets are numbers below 256.
pub mod Guard
pub mod Query
mod Tests
use varmlen_client_linux.Base.{
  ℕ, ◌+◌, ◌/◌, ◌%◌, Bool, true, false, ◌||◌, ◌&&◌, not, List, [], ◌∷◌, ◌++◌, Option, none, some,
  Result, ok, err, Done, Eff, if◌then◌else◌, ltb, leb, ◌==◌, length, all, is_empty, ◌>>=◌, ◌>>◌,
  get_elem?, unwrap_or,
}
use varmlen_client_linux.Base.Text.{Str, len, split_by}
use varmlen_client_linux.Protocol.{DaemonError, daemon_error, dns_verification_failed}

pub record DnsBackend (B : Type 0) : Type 0 where
  pub apply : Eff B DaemonError Done
  pub probe_through_tunnel : Eff B DaemonError Bool
  pub remove : Eff B DaemonError Done

-- `probe?; cleanup?; Err(…)`
abbrev unverified : Result DaemonError Bool → Result DaemonError Done → Result DaemonError Done
unverified (err e) cleanup = err e
unverified (ok _) (err e) = err e
unverified (ok _) (ok _) =
    err (daemon_error dns_verification_failed "DNS interception could not be verified")

abbrev is_verified : Result DaemonError Bool → Bool
is_verified (ok answered) = answered
is_verified (err e) = false

module _ {B : Type 0} (ops : DnsBackend B) where
  check_probe : Eff B DaemonError Done
  check_probe b =
      let (probe, b') = ops.probe_through_tunnel b in
      let (cleanup, b'') = ops.remove b' in
      if is_verified probe then (ok tt, b') else (unverified probe cleanup, b'')

  -- `DnsGuard` has its backend as its only field, and stands for it here.
  unfoldable pub install : Eff B DaemonError Done
  unfolding check_probe
  install = do ops.apply; check_probe

-- `u16::to_be_bytes`
abbrev pub to_be_bytes : ℕ → List ℕ
to_be_bytes n = n / 256 % 256 ∷ n % 256 ∷ []

bad_label : Str → Bool
bad_label label = is_empty label || ltb 63 (len label) || not (all (λ c. ltb c 128) label)

-- The labels of the name, each behind its length; a scalar value below 128 is its own octet.
labels : List Str → Option (List ℕ)
unfolding bad_label
labels [] = some []
labels (label ∷ rest) = elim (labels rest) [
  | none ↦ none
  | some octets ↦ if bad_label label then none else some (len label % 256 ∷ (label ++ octets))
]

dns_error : {A : Type 0} → Bool → Result DaemonError A
dns_error too_large = err (
    if too_large
    then daemon_error dns_verification_failed "DNS probe query is too large"
    else daemon_error dns_verification_failed "invalid DNS probe domain")

abbrev header : ℕ → List ℕ
header transaction_id =
    to_be_bytes transaction_id
    ++ (1 ∷ 0 ∷ to_be_bytes 1)
    ++ (to_be_bytes 0 ++ to_be_bytes 0 ++ to_be_bytes 0)

bounded : List ℕ → Result DaemonError (List ℕ)
unfolding dns_error
bounded query = if ltb 512 (length query) then dns_error true else ok query

-- The whole query around the name, `none` being the refusal of a label.
around : ℕ → Option (List ℕ) → Result DaemonError (List ℕ)
unfolding bounded
around transaction_id none = dns_error false
around transaction_id (some octets) =
    bounded (header transaction_id ++ (octets ++ (0 ∷ to_be_bytes 1 ++ to_be_bytes 1)))

unfoldable pub build_dns_query : ℕ → Str → Result DaemonError (List ℕ)
unfolding labels around
build_dns_query transaction_id domain =
    around transaction_id (labels (split_by (λ c. c == b'.') domain))

-- `byte & 0x80 != 0` at an octet
abbrev pub top_bit : ℕ → Bool
top_bit octet = leb 128 (octet % 256)

abbrev octets_eq : List ℕ → ℕ → ℕ → Bool
octets_eq packet a b =
    unwrap_or (get_elem? packet 0) 0 == a && unwrap_or (get_elem? packet 1) 0 == b

unfoldable pub validate_dns_response : ℕ → List ℕ → Bool
validate_dns_response transaction_id response =
    leb 12 (length response)
    && octets_eq response (transaction_id / 256 % 256) (transaction_id % 256)
    && top_bit (unwrap_or (get_elem? response 2) 0)
