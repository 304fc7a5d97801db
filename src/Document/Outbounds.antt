-- ===== src/Document/Outbounds.antt =====
-- The outbounds that `validate_xray_document` (daemon/src/system.rs) lets through.
use varmlen_client_linux.Base.{
  ◌+◌, ◌≤◌, Bool, true, false, not, List, [], ◌∷◌, ◌≡◌, arith, All, Option, some, none, refl, ap,
  and_true, ◌⊎◌, inl, inr, Bool-cases,
}
use varmlen_client_linux.Base.Text.{Str, str, str_eq, str_eq_iff}
use varmlen_client_linux.Document.Json.{Value, str_at, is_text, one_of, is_one_of}
use varmlen_client_linux.Document.Checks.{
  is_proxy, is_direct, is_dns_out, is_block, count, proxy_protocols, outbounds_are_permitted,
  has_tag_and_protocol,
}
use varmlen_client_linux.Protocol.{max_server_ips}
use varmlen_client_linux.Document.Tags.{AreTagged, valid_tags-AreTagged}
use varmlen_client_linux.Document.Counts.{either, Exclude, count-either, count-All}

pub is_text-eq : (o : Option Str) (s : Str) → is_text o s ≡ true → o ≡ some s
is_text-eq none s h = cc
is_text-eq (some t) s h = ap some ((str_eq_iff t s).0 h)

-- An outbound is of one protocol.
pub not-false : (b : Bool) → not b ≡ false → b ≡ true
not-false b h = ground arith

protocol_excludes :
    (v : Value) (s t : Str)
    → is_text (str_at (str "protocol") v) s ≡ true
    → str_eq s t ≡ false
    → is_text (str_at (str "protocol") v) t ≡ false
protocol_excludes v s t h e = rw (is_text-eq (str_at (str "protocol") v) s h) e

protocol_of :
    (v : Value) (tag protocol : Str)
    → has_tag_and_protocol tag protocol v ≡ true
    → is_text (str_at (str "protocol") v) protocol ≡ true
protocol_of v tag protocol h =
    (and_true (is_text (str_at (str "tag") v) tag) (is_text (str_at (str "protocol") v) protocol)
      h).1

is_proxy-exclude :
    (v : Value) (s : Str)
    → is_text (str_at (str "protocol") v) s ≡ true
    → one_of proxy_protocols s ≡ false
    → is_proxy v ≡ false
unfolding is_proxy
is_proxy-exclude v s h e = rw (is_text-eq (str_at (str "protocol") v) s h) e

system_or_proxy : Value → Bool
system_or_proxy = either is_direct (either is_dns_out (either is_block is_proxy))

is_block-Exclude : Exclude is_block is_proxy
unfolding is_block
is_block-Exclude v h = is_proxy-exclude v (str "blackhole") (protocol_of v _ _ h) refl

is_dns_out-Exclude : Exclude is_dns_out (either is_block is_proxy)
unfolding is_dns_out is_block
is_dns_out-Exclude v h =
    let p : is_text (str_at (str "protocol") v) (str "dns") ≡ true =
      protocol_of v (str "dns-out") (str "dns") h in
    ground (
      arith,
      is_proxy-exclude v (str "dns") p refl,
      protocol_excludes v (str "dns") (str "blackhole") p refl,
    )

is_direct-Exclude : Exclude is_direct (either is_dns_out (either is_block is_proxy))
unfolding is_direct is_dns_out is_block
is_direct-Exclude v h =
    let p : is_text (str_at (str "protocol") v) (str "freedom") ≡ true =
      protocol_of v (str "direct") (str "freedom") h in
    ground (
      arith,
      is_proxy-exclude v (str "freedom") p refl,
      protocol_excludes v (str "freedom") (str "dns") p refl,
      protocol_excludes v (str "freedom") (str "blackhole") p refl,
    )

count-system_or_proxy :
    (vs : List Value)
    → count system_or_proxy vs
      ≡ count is_direct vs + (count is_dns_out vs + (count is_block vs + count is_proxy vs))
unfolding system_or_proxy
count-system_or_proxy vs = omega (
  arith,
  count-either is_direct (either is_dns_out (either is_block is_proxy)) is_direct-Exclude vs,
  count-either is_dns_out (either is_block is_proxy) is_dns_out-Exclude vs,
  count-either is_block is_proxy is_block-Exclude vs,
)

abbrev pub Tagged : Value → Str → Str → Type 0
Tagged v tag protocol =
    (str_at (str "tag") v ≡ some tag) × (str_at (str "protocol") v ≡ some protocol)

-- An outbound of a proxy that Xray speaks, or one of the three that Varmlen adds.
abbrev pub IsOutbound : Value → Type 0
IsOutbound v =
    ((protocol : Str) × (str_at (str "protocol") v ≡ some protocol)
      × (one_of proxy_protocols protocol ≡ true))
    ⊎ Tagged v (str "direct") (str "freedom")
    ⊎ Tagged v (str "dns-out") (str "dns")
    ⊎ Tagged v (str "block") (str "blackhole")

pub is_one_of-some :
    (o : Option Str) (words : List Str)
    → is_one_of o words ≡ true
    → (s : Str) × (o ≡ some s) × (one_of words s ≡ true)
is_one_of-some none words h = cc
is_one_of-some (some s) words h = (s, refl, h)

pub Tagged-intro :
    (v : Value) (tag protocol : Str)
    → has_tag_and_protocol tag protocol v ≡ true
    → Tagged v tag protocol
Tagged-intro v tag protocol h = let (t, p) = and_true _ _ h in (is_text-eq _ _ t, is_text-eq _ _ p)

system_or_proxy-IsOutbound : (v : Value) → system_or_proxy v ≡ true → IsOutbound v
unfolding system_or_proxy is_direct is_dns_out is_block is_proxy
system_or_proxy-IsOutbound v h = elim (Bool-cases (is_direct v)) [
  | inl e ↦ inr (inl (Tagged-intro v _ _ e))
  | inr e ↦ elim (Bool-cases (is_dns_out v)) [
    | inl f ↦ inr (inr (inl (Tagged-intro v _ _ f)))
    | inr f ↦ elim (Bool-cases (is_block v)) [
      | inl g ↦ inr (inr (inr (Tagged-intro v _ _ g)))
      | inr g ↦ inl (is_one_of-some _ proxy_protocols (ground arith))
    ]
  ]
]

pub All-map :
    (P Q : Value → Type 0) (f : (v : Value) → P v → Q v) (vs : List Value) → All P vs → All Q vs
All-map P Q f [] h = tt
All-map P Q f (v ∷ vs) (p, h) = (f v p, All-map P Q f vs h)

pub record ArePermitted (outbounds : List Value) : Type 0 where
  pub each : All IsOutbound outbounds
  pub tagged : AreTagged outbounds
  pub proxies : (1 ≤ count is_proxy outbounds) × (count is_proxy outbounds ≤ max_server_ips)
  pub direct : count is_direct outbounds ≡ 1
  pub dns : count is_dns_out outbounds ≡ 1
  pub block : count is_block outbounds ≡ 1

pub outbounds_lem :
    (outbounds : List Value) → outbounds_are_permitted outbounds ≡ true → ArePermitted outbounds
unfolding outbounds_are_permitted
outbounds_lem outbounds h = record {
  each =
      All-map _ _ system_or_proxy-IsOutbound outbounds
        (count-All system_or_proxy outbounds (ground (arith, count-system_or_proxy outbounds)));
  tagged = valid_tags-AreTagged outbounds (ground arith);
  proxies = ground arith;
  direct = ground arith;
  dns = ground arith;
  block = ground arith;
}
