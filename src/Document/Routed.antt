-- ===== src/Document/Routed.antt =====
-- The rules and the balancers of a document that `validate_ping_xray_document` (daemon/src/system.rs)
-- lets through.
use varmlen_client_linux.Base.{
  Bool, true, List, [], ◌∷◌, ◌≡◌, arith, length, All, any, ok, ok-injective, ok_or, Option, some,
  none, refl, ap, ◌∙◌, sym, and_true, or_false, ◌⊎◌, inl, inr, Bool-cases,
}
use varmlen_client_linux.Base.Text.{Str, str}
use varmlen_client_linux.Base.Checked.{>>=-ok, ok_or-ok, unless-ok}
use varmlen_client_linux.Document.Json.{
  Value, null, boolean, number, text, array, object, items, get, as_array, str_at, array_at, one_of,
  and_then, as_str,
}
use varmlen_client_linux.Document.Checks.{or_empty}
use varmlen_client_linux.Document.Outbounds.{is_text-eq, not-false}
use varmlen_client_linux.Document.Tags.{tags}
use varmlen_client_linux.Document.Ping.{
  names_only, inbound_matches, among, targets_one, is_ping_rule, check_ping_rules, filled,
  ping_balancer_tags, selects, ping_balancers,
}

-- A rule for the traffic of one inbound, which sends it to a proxy or to a balancer.
pub record IsRouted (single : Bool) (proxies balancers : List Str) (tag : Str) (rule : Value)
    : Type 0 where
  pub network : str_at (str "network") rule ≡ some (str "tcp,udp")
  pub inbound :
      ((get (str "inboundTag") rule ≡ none) × (single ≡ true))
      ⊎ ((v : Value) × (array_at (str "inboundTag") rule ≡ some (v ∷ [])) × (as_str v ≡ some tag))
  pub target :
      ((t : Str) × (str_at (str "outboundTag") rule ≡ some t) × (one_of proxies t ≡ true))
      ⊎ ((t : Str) × (str_at (str "balancerTag") rule ≡ some t) × (one_of balancers t ≡ true))

names_only-eq :
    (tag : Str) (vs : List Value)
    → names_only tag vs ≡ true
    → (v : Value) × (vs ≡ v ∷ []) × (as_str v ≡ some tag)
names_only-eq tag [] h = cc
names_only-eq tag (v ∷ []) h = (v, refl, is_text-eq _ _ h)
names_only-eq tag (v ∷ w ∷ vs) h = cc

inbound_matches-eq :
    (single : Bool) (tag : Str) (o : Option Value)
    → inbound_matches single tag o ≡ true
    → ((o ≡ none) × (single ≡ true))
      ⊎ ((v : Value) × (and_then o as_array ≡ some (v ∷ [])) × (as_str v ≡ some tag))
inbound_matches-eq single tag none h = inl (refl, h)
inbound_matches-eq single tag (some (array vs)) h =
    let (v, alone, named) = names_only-eq tag (items vs) h in inr (v, ap some alone, named)
inbound_matches-eq single tag (some null) h = cc
inbound_matches-eq single tag (some (boolean b)) h = cc
inbound_matches-eq single tag (some (number n)) h = cc
inbound_matches-eq single tag (some (text s)) h = cc
inbound_matches-eq single tag (some (object fs)) h = cc

among-some :
    (ts : List Str) (o : Option Str)
    → among ts o ≡ true
    → (t : Str) × (o ≡ some t) × (one_of ts t ≡ true)
among-some ts none h = cc
among-some ts (some t) h = (t, refl, h)

IsRouted-intro :
    (single : Bool) (proxies balancers : List Str) (tag : Str) (rule : Value)
    → is_ping_rule single tag rule ≡ true
    → targets_one proxies balancers rule ≡ true
    → IsRouted single proxies balancers tag rule
unfolding is_ping_rule targets_one
IsRouted-intro single proxies balancers tag rule h t =
    let (h1, matches) = and_true _ _ h in
    let (_, network) = and_true _ _ h1 in
    record {
      network = is_text-eq _ _ network;
      inbound = inbound_matches-eq single tag (get (str "inboundTag") rule) matches;
      target = elim (Bool-cases (among proxies (str_at (str "outboundTag") rule))) [
        | inl p ↦ inl (among-some _ _ p)
        | inr p ↦ inr (among-some balancers (str_at (str "balancerTag") rule) (rw p at t))
      ];
    }

abbrev pub AreRouted : Bool → List Str → List Str → List Str → List Value → Type 0
AreRouted single proxies balancers [] [] = Unit
AreRouted single proxies balancers (tag ∷ tags) (rule ∷ rules) =
    IsRouted single proxies balancers tag rule × AreRouted single proxies balancers tags rules
AreRouted single proxies balancers _ _ = ⊥

pub check_ping_rules-AreRouted :
    (single : Bool) (proxies balancers tags : List Str) (rules : List Value)
    → length rules ≡ length tags
    → check_ping_rules single proxies balancers tags rules ≡ ok tt
    → AreRouted single proxies balancers tags rules
unfolding check_ping_rules
check_ping_rules-AreRouted single proxies balancers [] [] e h = tt
check_ping_rules-AreRouted single proxies balancers [] (r ∷ rs) e h = absurd (omega arith)
check_ping_rules-AreRouted single proxies balancers (t ∷ ts) [] e h = absurd (omega arith)
check_ping_rules-AreRouted single proxies balancers (t ∷ ts) (r ∷ rs) e h =
    let (_, own, rest) = >>=-ok _ _ h in
    let (rule, target) = and_true _ _ (not-false _ (unless-ok _ _ own)) in
    (
      IsRouted-intro single proxies balancers t r rule target,
      check_ping_rules-AreRouted single proxies balancers ts rs (omega arith) rest,
    )

-- A balancer that can pick a proxy.
abbrev pub IsBalancer : List Str → Value → Type 0
IsBalancer proxies v =
    (selectors : List Value) × (array_at (str "selector") v ≡ some selectors)
    × (any (selects proxies) selectors ≡ true)

filled-some : (o : Option Str) {t : Str} → filled o ≡ some t → or_empty o ≡ t
unfolding filled
filled-some none h = cc
filled-some (some s) h = ground arith

ping_balancer_tags_lem :
    (proxies seen : List Str) (vs : List Value) (ts : List Str)
    → ping_balancer_tags proxies seen vs ≡ ok ts
    → All (IsBalancer proxies) vs × (ts ≡ tags vs)
unfolding ping_balancer_tags
ping_balancer_tags_lem proxies seen [] ts h = (tt, sym (ok-injective h))
ping_balancer_tags_lem proxies seen (v ∷ vs) ts h =
    let (tag, named, h1) = >>=-ok _ _ h in
    let (selectors, listed, h2) = >>=-ok _ _ h1 in
    let (_, own, h3) = >>=-ok _ _ h2 in
    let (more, rest, h4) = >>=-ok _ _ h3 in
    let (balancers, same) =
      ping_balancer_tags_lem proxies (or_empty (str_at (str "tag") v) ∷ seen) vs more rest in
    let picks = not-false _ (or_false _ _ (unless-ok _ _ own)).1 in
    (
      ((selectors, ok_or-ok _ _ listed, picks), balancers),
      sym (ok-injective h4)
          ∙ ap (λ l. tag ∷ l) same
          ∙ ap (λ t. t ∷ tags vs) (sym (filled-some (str_at (str "tag") v) (ok_or-ok _ _ named))),
    )

abbrev listed : Option (List Value) → List Value
listed none = []
listed (some vs) = vs

-- The balancers of a routing section: none if it has no list of them.
abbrev pub balancers_of : Option Value → List Value
balancers_of none = []
balancers_of (some value) = listed (as_array value)

pub ping_balancers_lem :
    (proxies : List Str) (o : Option Value) (ts : List Str)
    → ping_balancers proxies o ≡ ok ts
    → All (IsBalancer proxies) (balancers_of o) × (ts ≡ tags (balancers_of o))
ping_balancers_lem proxies none ts h = (tt, sym (ok-injective h))
ping_balancers_lem proxies (some value) ts h =
    let (vs, e, h1) = >>=-ok (ok_or (as_array value) _) _ h in
    let is_list : as_array value ≡ some vs = ok_or-ok _ _ e in
    let h2 : ping_balancer_tags proxies [] vs ≡ ok ts = ground arith in
    rw is_list (ping_balancer_tags_lem proxies [] vs ts h2)
