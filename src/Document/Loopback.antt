-- ===== src/Document/Loopback.antt =====
-- The inbounds and the proxies of a document that `validate_ping_xray_document` (daemon/src/system.rs)
-- lets through.
use varmlen_client_linux.Base.{
  ℕ, suc, Bool, true, false, not, ◌&&◌, List, [], ◌∷◌, ◌≡◌, arith, length, All, ok, ok-injective,
  some, refl, ap, ◌∙◌, sym, and_true, or_false, ◌⊎◌, inl, inr, Bool-cases,
}
use varmlen_client_linux.Base.Text.{Str, str}
use varmlen_client_linux.Base.Checked.{>>=-ok, unless-ok}
use varmlen_client_linux.Document.Json.{Value, str_at, one_of, pointer, and_then, as_u64, u64_at}
use varmlen_client_linux.Document.Checks.{is_proxy, proxy_protocols, valid_tags, or_empty}
use varmlen_client_linux.Document.Outbounds.{is_text-eq, not-false, is_one_of-some}
use varmlen_client_linux.Document.Permitted.{is_number-eq}
use varmlen_client_linux.Document.Tags.{tags}
use varmlen_client_linux.Document.Ping.{
  xray_dial_mark, is_ping_inbound, ping_inbound_tags, is_marked, is_wireguard, ping_proxy_tags,
}

-- A SOCKS inbound that only this host reaches, on this port.
pub record IsLoopback (v : Value) (port : ℕ) : Type 0 where
  pub protocol : str_at (str "protocol") v ≡ some (str "socks")
  pub listen : str_at (str "listen") v ≡ some (str "127.0.0.1")
  pub at_port : u64_at (str "port") v ≡ some port

-- Each inbound stands beside its port.
abbrev pub AreLoopback : List Value → List ℕ → Type 0
AreLoopback [] [] = Unit
AreLoopback (v ∷ vs) (port ∷ ports) = IsLoopback v port × AreLoopback vs ports
AreLoopback _ _ = ⊥

is_ping_inbound-IsLoopback :
    (port : ℕ) (v : Value) → is_ping_inbound port v ≡ true → IsLoopback v port
unfolding is_ping_inbound
is_ping_inbound-IsLoopback port v h =
    let (h1, _) = and_true _ _ h in
    let (h2, _) = and_true _ _ h1 in
    let (h3, n) = and_true _ _ h2 in
    let (p, l) = and_true _ _ h3 in
    record { protocol = is_text-eq _ _ p; listen = is_text-eq _ _ l; at_port = is_number-eq _ _ n }

pub ping_inbound_tags-AreLoopback :
    (single : Bool) (index : ℕ) (vs : List Value) (ports : List ℕ) (ts : List Str)
    → length vs ≡ length ports
    → ping_inbound_tags single index vs ports ≡ ok ts
    → AreLoopback vs ports × (ts ≡ tags vs)
unfolding ping_inbound_tags
ping_inbound_tags-AreLoopback single index [] [] ts e h = (tt, sym (ok-injective h))
ping_inbound_tags-AreLoopback single index [] (p ∷ ps) ts e h = absurd (omega arith)
ping_inbound_tags-AreLoopback single index (v ∷ vs) [] ts e h = absurd (omega arith)
ping_inbound_tags-AreLoopback single index (v ∷ vs) (port ∷ ports) ts e h =
    let (_, own, h1) = >>=-ok _ _ h in
    let (more, rest, h2) = >>=-ok _ _ h1 in
    let (loop, same) =
      ping_inbound_tags-AreLoopback single (suc index) vs ports more (omega arith) rest in
    let fits = and_true _ _ (not-false _ (unless-ok _ _ own)) in
    (
      (is_ping_inbound-IsLoopback port v fits.1, loop),
      sym (ok-injective h2) ∙ ap (λ l. or_empty (str_at (str "tag") v) ∷ l) same,
    )

-- An outbound of a proxy, whose packets carry the mark by which they leave the tunnel.
pub record IsMarkedProxy (v : Value) : Type 0 where
  pub proxy :
      (protocol : Str) × (str_at (str "protocol") v ≡ some protocol)
      × (one_of proxy_protocols protocol ≡ true)
  pub mark :
      (str_at (str "protocol") v ≡ some (str "wireguard"))
      ⊎ (and_then (pointer (str "streamSettings" ∷ str "sockopt" ∷ str "mark" ∷ []) v) as_u64
          ≡ some xray_dial_mark)

IsMarkedProxy-intro :
    (v : Value)
    → is_proxy v ≡ true
    → (not (is_wireguard v) && not (is_marked v)) ≡ false
    → IsMarkedProxy v
unfolding is_proxy is_wireguard is_marked
IsMarkedProxy-intro v p m = record {
  proxy = is_one_of-some _ proxy_protocols p;
  mark = elim (Bool-cases (is_wireguard v)) [
    | inl w ↦ inl (is_text-eq _ _ w)
    | inr w ↦ inr (is_number-eq _ _ (ground arith))
  ];
}

pub ping_proxy_tags_lem :
    (seen : List Str) (vs : List Value) (ts : List Str)
    → ping_proxy_tags seen vs ≡ ok ts
    → All IsMarkedProxy vs × (valid_tags seen vs ≡ true) × (ts ≡ tags vs)
unfolding ping_proxy_tags valid_tags
ping_proxy_tags_lem seen [] ts h = (tt, refl, sym (ok-injective h))
ping_proxy_tags_lem seen (v ∷ vs) ts h =
    let tag = or_empty (str_at (str "tag") v) in
    let (_, own, h1) = >>=-ok _ _ h in
    let (more, rest, h2) = >>=-ok _ _ h1 in
    let (marked, valid, same) = ping_proxy_tags_lem (tag ∷ seen) vs more rest in
    let (known, mark) = or_false _ _ (unless-ok _ _ own) in
    let (proxy, fresh) = and_true _ _ (not-false _ known) in
    (
      (IsMarkedProxy-intro v proxy mark, marked),
      rw fresh valid,
      sym (ok-injective h2) ∙ ap (λ l. tag ∷ l) same,
    )
