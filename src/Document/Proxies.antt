-- ===== src/Document/Proxies.antt =====
-- The outbounds that `validate_ping_xray_document` (daemon/src/system.rs) lets through.
use varmlen_client_linux.Base.{
  ◌+◌, ◌≤◌, false, List, [], ◌∷◌, ◌++◌, ◌≡◌, arith, length, All, ok, Option, some, none, refl, ap,
  ◌∙◌, length-append, not, leb, ◌&&◌, or_false, and_true,
}
use varmlen_client_linux.Base.Text.{Str, str}
use varmlen_client_linux.Base.Checked.{>>=-ok, ok_or-ok, unless-ok}
use varmlen_client_linux.Protocol.{max_server_ips}
use varmlen_client_linux.Document.Json.{Value, str_at, array_at, and_then}
use varmlen_client_linux.Document.Tags.{AreTagged, tags, valid_tags-AreTagged}
use varmlen_client_linux.Document.Outbounds.{Tagged, is_text-eq, not-false}
use varmlen_client_linux.Document.Ping.{ping_outbounds, last, before_last, ends_direct}
use varmlen_client_linux.Document.Loopback.{IsMarkedProxy, ping_proxy_tags_lem}

before_last-last : (vs : List Value) {v : Value} → last vs ≡ some v → vs ≡ before_last vs ++ v ∷ []
unfolding last before_last
before_last-last [] h = cc
before_last-last (w ∷ []) h = ground arith
before_last-last (w ∷ x ∷ vs) h = ap (λ l. w ∷ l) (before_last-last (x ∷ vs) h)

-- Between one and 64 marked proxies with different tags, and behind them the direct way.
pub record HasProxies (document : Value) (proxies : List Value) : Type 0 where
  pub direct : Value
  pub outbounds : array_at (str "outbounds") document ≡ some (proxies ++ direct ∷ [])
  pub is_direct : Tagged direct (str "direct") (str "freedom")
  pub marked : All IsMarkedProxy proxies
  pub tagged : AreTagged proxies
  pub bounds : (1 ≤ length proxies) × (length proxies ≤ max_server_ips)

last_cases :
    (vs : List Value) (key s : Str)
    → and_then (last vs) (str_at key) ≡ some s
    → (v : Value) × (last vs ≡ some v) × (str_at key v ≡ some s)
last_cases vs key s h = some_of (last vs) h
  where
    some_of :
        (o : Option Value)
        → and_then o (str_at key) ≡ some s
        → (v : Value) × (o ≡ some v) × (str_at key v ≡ some s)
    some_of none h = cc
    some_of (some v) h = (v, refl, h)

at_last :
    (vs : List Value) (f : Value → Option Str) {v : Value} {s : Str}
    → last vs ≡ some v
    → and_then (last vs) f ≡ some s
    → f v ≡ some s
at_last vs f e h = rw e at h

proxies_bounds :
    (vs proxies : List Value) (v : Value)
    → vs ≡ proxies ++ v ∷ []
    → not (leb 2 (length vs) && leb (length vs) (max_server_ips + 1)) ≡ false
    → (1 ≤ length proxies) × (length proxies ≤ max_server_ips)
proxies_bounds vs proxies v e h =
    let sizes : length vs ≡ length proxies + 1 = ap length e ∙ length-append proxies (v ∷ []) in
    ground arith

pub ping_outbounds-HasProxies :
    (document : Value) (ts : List Str)
    → ping_outbounds document ≡ ok ts
    → (proxies : List Value) × HasProxies document proxies × (ts ≡ tags proxies)
unfolding ping_outbounds ends_direct
ping_outbounds-HasProxies document ts h =
    let (outbounds, e, h1) = >>=-ok _ _ h in
    let (_, own, h2) = >>=-ok _ _ h1 in
    let (count, ends) = or_false _ _ (unless-ok _ _ own) in
    let (tag, protocol) = and_true _ _ (not-false _ ends) in
    let (v, is_last, tagged) = last_cases outbounds _ _ (is_text-eq _ _ tag) in
    let whole = before_last-last outbounds is_last in
    let (marked, valid, same) = ping_proxy_tags_lem [] (before_last outbounds) ts h2 in
    (
      before_last outbounds,
      record {
        direct = v;
        outbounds = ok_or-ok _ _ e ∙ ap some whole;
        is_direct = (tagged, at_last outbounds _ is_last (is_text-eq _ _ protocol));
        marked = marked;
        tagged = valid_tags-AreTagged _ valid;
        bounds = proxies_bounds outbounds (before_last outbounds) v whole count;
      },
      same,
    )
