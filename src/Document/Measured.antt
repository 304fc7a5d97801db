-- ===== src/Document/Measured.antt =====
-- What `validate_ping_xray_document` (daemon/src/system.rs) lets through, stated without its tests.
use varmlen_client_linux.Base.{
  ℕ, Bool, false, List, [], ◌∷◌, ◌≡◌, arith, length, All, ok, some, refl, Result-cases, inl, inr,
  ap, ◌∙◌, sym, ◌==◌, ==_iff,
}
use mathlib.Core.Path.{subst, subst₂}
use varmlen_client_linux.Base.Text.{Str, str}
use varmlen_client_linux.Base.Checked.{>>=-ok, ok_or-ok, unless-ok, map_err-ok}
use varmlen_client_linux.Document.Json.{
  Value, Fields, Parser, array_at, object_at, one_of, and_then, lookup, as_array, has_other_key,
}
use varmlen_client_linux.Document.Checks.{parse_document, file_keys, contains_forbidden_file_key}
use varmlen_client_linux.Document.Files.{HasKey, not_file_key}
use varmlen_client_linux.Document.Tags.{tags}
use varmlen_client_linux.Document.Outbounds.{not-false}
use varmlen_client_linux.Document.Ping.{
  ping_inbounds, ping_outbounds, check_ping_routing, check_ping_document,
  validate_ping_xray_document,
}
use varmlen_client_linux.Document.Loopback.{AreLoopback, ping_inbound_tags-AreLoopback}
use varmlen_client_linux.Document.Proxies.{HasProxies, ping_outbounds-HasProxies}
use varmlen_client_linux.Document.Routed.{
  AreRouted, IsBalancer, balancers_of, ping_balancers_lem, check_ping_rules-AreRouted,
}

-- One rule for each inbound, in order.
pub record HasRules (single : Bool) (document : Value) (inbound_tags proxy_tags : List Str)
    : Type 0 where
  pub routing : Fields
  pub rules : List Value
  pub is_routing : object_at (str "routing") document ≡ some routing
  pub are_rules : and_then (lookup (str "rules") routing) as_array ≡ some rules
  pub no_policy : has_other_key (str "rules" ∷ str "balancers" ∷ []) routing ≡ false
  pub balancers : All (IsBalancer proxy_tags) (balancers_of (lookup (str "balancers") routing))
  pub routed :
      AreRouted single proxy_tags
        (tags (balancers_of (lookup (str "balancers") routing)))
        inbound_tags
        rules

check_ping_routing-HasRules :
    (ports : List ℕ) (inbound_tags proxy_tags : List Str) (document : Value)
    → length ports ≡ length inbound_tags
    → check_ping_routing ports inbound_tags proxy_tags document ≡ ok tt
    → HasRules (length ports == 1) document inbound_tags proxy_tags
unfolding check_ping_routing
check_ping_routing-HasRules ports inbound_tags proxy_tags document sizes h =
    let (routing, e, h1) = >>=-ok _ _ h in
    let (_, keys, h2) = >>=-ok _ _ h1 in
    let (balancers, picked, h3) = >>=-ok _ _ h2 in
    let (rules, listed, h4) = >>=-ok _ _ h3 in
    let (_, many, h5) = >>=-ok _ _ h4 in
    let same_size = (==_iff _ _).0 (not-false _ (unless-ok _ _ many)) in
    let (selecting, named) = ping_balancers_lem proxy_tags _ balancers picked in
    record {
      routing = routing;
      rules = rules;
      is_routing = ok_or-ok _ _ e;
      are_rules = ok_or-ok _ _ listed;
      no_policy = unless-ok _ _ keys;
      balancers = selecting;
      routed =
          subst (λ b. AreRouted (length ports == 1) proxy_tags b inbound_tags rules) named
            (check_ping_rules-AreRouted _ _ _ inbound_tags rules (same_size ∙ sizes) h5);
    }

length-tags : (vs : List Value) → length (tags vs) ≡ length vs
length-tags [] = refl
length-tags (v ∷ vs) = omega (arith, length-tags vs)

pub record IsMeasured (ports : List ℕ) (document : Value) : Type 0 where
  pub inbounds : List Value
  pub are_inbounds : array_at (str "inbounds") document ≡ some inbounds
  pub loopback : AreLoopback inbounds ports
  pub proxies : List Value
  pub outbounds : HasProxies document proxies
  pub rules : HasRules (length ports == 1) document (tags inbounds) (tags proxies)
  pub no_file : (key : Str) → HasKey key document → one_of file_keys key ≡ false

ping_inbounds-AreLoopback :
    (ports : List ℕ) (document : Value) (ts : List Str)
    → ping_inbounds ports document ≡ ok ts
    → (vs : List Value) × (array_at (str "inbounds") document ≡ some vs)
      × AreLoopback vs ports
      × (length ports ≡ length ts)
      × (ts ≡ tags vs)
unfolding ping_inbounds
ping_inbounds-AreLoopback ports document ts h =
    let (vs, e, h1) = >>=-ok _ _ h in
    let (_, many, h2) = >>=-ok _ _ h1 in
    let size = (==_iff _ _).0 (not-false _ (unless-ok _ _ many)) in
    let (loopback, same) = ping_inbound_tags-AreLoopback _ 0 vs ports ts size h2 in
    (vs, ok_or-ok _ _ e, loopback, sym (ap length same ∙ length-tags vs ∙ size), same)

check_ping_document-IsMeasured :
    (ports : List ℕ) (document : Value) (inbound_tags proxy_tags : List Str)
    → ping_inbounds ports document ≡ ok inbound_tags
    → ping_outbounds document ≡ ok proxy_tags
    → check_ping_routing ports inbound_tags proxy_tags document ≡ ok tt
    → contains_forbidden_file_key document ≡ false
    → IsMeasured ports document
check_ping_document-IsMeasured ports document inbound_tags proxy_tags i o r f =
    let (inbounds, e, loopback, size, same) =
      ping_inbounds-AreLoopback ports document inbound_tags i in
    let (proxies, outbounds, equal) = ping_outbounds-HasProxies document proxy_tags o in
    record {
      inbounds = inbounds;
      are_inbounds = e;
      loopback = loopback;
      proxies = proxies;
      outbounds = outbounds;
      rules =
          subst₂ (λ a b. HasRules (length ports == 1) document a b) same equal
            (check_ping_routing-HasRules ports inbound_tags proxy_tags document size r);
      no_file = λ key k. not_file_key k f;
    }

-- The stages of a check that passed.
check_ping_document-stages :
    (ports : List ℕ) (document : Value)
    → check_ping_document ports document ≡ ok tt
    → (inbound_tags : List Str) × (ping_inbounds ports document ≡ ok inbound_tags)
      × (proxy_tags : List Str) × (ping_outbounds document ≡ ok proxy_tags)
      × (check_ping_routing ports inbound_tags proxy_tags document ≡ ok tt)
      × (contains_forbidden_file_key document ≡ false)
unfolding check_ping_document
check_ping_document-stages ports document h = elim (Result-cases (ping_inbounds ports document)) [
  | inl (inbound_tags, i) ↦ elim (Result-cases (ping_outbounds document)) [
    | inl (proxy_tags, o) ↦
        (inbound_tags, i, proxy_tags, o, ground (arith, i, o), ground (arith, i, o))
    | inr (e, o) ↦ absurd (ground (arith, i, o))
  ]
  | inr (e, i) ↦ absurd (ground (arith, i))
]

-- A document that passes the check for the ports is one that parses to an object with one inbound for
-- each port, in order, that is SOCKS on that port of the loopback address; between one and 64 proxies
-- with different tags, which carry the mark of the dialer or are WireGuard, and behind them the direct
-- way; one rule for each inbound, in order, which takes its traffic alone, unless there is only one,
-- and sends it to one of the proxies or to a balancer that can pick a proxy; and in no object, however
-- deep, a key that names a file of a certificate or of a key.
pub validate_ping_xray_document-IsMeasured :
    (parser : Parser) (raw : Str) (ports : List ℕ)
    → validate_ping_xray_document parser raw ports ≡ ok tt
    → (document : Value) × (parser.from_str raw ≡ ok document) × IsMeasured ports document
unfolding validate_ping_xray_document parse_document
validate_ping_xray_document-IsMeasured parser raw ports h =
    let (document, e, h1) = >>=-ok _ _ h in
    let (inbound_tags, i, proxy_tags, o, r, f) = check_ping_document-stages ports document h1 in
    (
      document,
      map_err-ok _ _ e,
      check_ping_document-IsMeasured ports document inbound_tags proxy_tags i o r f,
    )
