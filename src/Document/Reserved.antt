-- ===== src/Document/Reserved.antt =====
-- The ports that `validation_config_with_ports` (daemon/src/system.rs) writes are those that are read back.
use varmlen_client_linux.Base.{
  ℕ, ◌≤◌, true, false, List, [], ◌∷◌, ◌≡◌, arith, length, All, Option, none, some, ok_or, ok,
  ok-injective, refl, ap, ◌∙◌, sym, ◌==◌, ==_iff, any, ltb,
}
use varmlen_client_linux.Base.Text.{Str, str}
use varmlen_client_linux.Base.Checked.{>>=-ok, ok_or-ok}
use varmlen_client_linux.Protocol.{max_server_ips}
use varmlen_client_linux.Protocol.Validate.{repeats}
use varmlen_client_linux.Document.Json.{
  Value, null, boolean, number, text, array, object, Items, empty, more, Fields, Parser, u64_at,
  array_at, and_then, as_array, get, lookup, items,
}
use varmlen_client_linux.Document.Checks.{parse_document}
use varmlen_client_linux.Document.Ported.{IsFit, lookup-insert_self, set_ports_lem}
use varmlen_client_linux.Document.Ports.{
  unprivileged, ports_of, few, document_ports, validation_config_ports, set_ports, length_items,
  as_items, as_many, put_inbounds, replaced, with_ports, ports_are_fit, serialized,
  validation_config_with_ports,
}

length-items : (vs : Items) → length (items vs) ≡ length_items vs
unfolding items length_items
length-items empty = refl
length-items (more v vs) = omega (arith, length-items vs)

few-some : (o : Option (List Value)) {vs : List Value} → few o ≡ some vs → o ≡ some vs
few-some none h = cc
few-some (some ws) h = ground arith

few_lem : (vs : List Value) → 1 ≤ length vs → length vs ≤ max_server_ips → few (some vs) ≡ some vs
few_lem vs h k = ground arith

items_of_array :
    (o : Option Value) {vs : List Value}
    → and_then o as_array ≡ some vs
    → (ws : Items) × (and_then o as_items ≡ some ws) × (items ws ≡ vs)
items_of_array none h = cc
items_of_array (some (array ws)) h = (ws, refl, ground arith)
items_of_array (some null) h = cc
items_of_array (some (boolean b)) h = cc
items_of_array (some (number n)) h = cc
items_of_array (some (text s)) h = cc
items_of_array (some (object fs)) h = cc

-- The list of the inbounds as it stands in a document.
array_at-items :
    (key : Str) (document : Value) {vs : List Value}
    → array_at key document ≡ some vs
    → (fs : Fields) × (ws : Items) × (document ≡ object fs)
      × (and_then (get key document) as_items ≡ some ws)
      × (items ws ≡ vs)
unfolding get
array_at-items key (object fs) h =
    let (ws, e, same) = items_of_array (lookup key fs) h in (fs, ws, refl, e, same)
array_at-items key null h = cc
array_at-items key (boolean b) h = cc
array_at-items key (number n) h = cc
array_at-items key (text s) h = cc
array_at-items key (array vs) h = cc

put_inbounds_lem :
    (vs : Items) (fs : Fields)
    → array_at (str "inbounds") (put_inbounds vs (object fs)) ≡ some (items vs)
unfolding put_inbounds get
put_inbounds_lem vs fs = rw (lookup-insert_self (str "inbounds") (array vs) fs)

length-ports_of :
    (vs : List Value) (ports : List ℕ) → ports_of vs ≡ ok ports → length ports ≡ length vs
unfolding ports_of
length-ports_of [] ports h = ap length (sym (ok-injective h))
length-ports_of (v ∷ vs) ports h =
    let (port, _, h1) = >>=-ok (ok_or (unprivileged (u64_at (str "port") v)) _) _ h in
    let (rest, r, h2) = >>=-ok (ports_of vs) _ h1 in
    let size : length ports ≡ length (port ∷ rest) = ap length (sym (ok-injective h2)) in
    omega (arith, size, length-ports_of vs rest r)

few_bounds :
    (o : Option (List Value)) {vs : List Value}
    → few o ≡ some vs
    → (1 ≤ length vs) × (length vs ≤ max_server_ips)
few_bounds none h = cc
few_bounds (some ws) h = ground arith

with_ports_found :
    (document : Value) (ports : List ℕ) (ws changed : Items)
    → and_then (get (str "inbounds") document) as_items ≡ some ws
    → (length_items ws == length ports) ≡ true
    → set_ports ws ports ≡ some changed
    → with_ports document ports ≡ some (ok (put_inbounds changed document))
unfolding with_ports
with_ports_found document ports ws changed a b c =
    let found : as_many (length ports) (some ws) ≡ some ws = rw b in
    ap (λ o. replaced document ports (as_many (length ports) o)) a
    ∙ ap (replaced document ports) found
    ∙ ap (λ o. and_then o (λ vs. some (ok (put_inbounds vs document)))) c

document_ports_put :
    (ws : Items) (fs : Fields) (ports : List ℕ)
    → (1 ≤ length (items ws)) × (length (items ws) ≤ max_server_ips)
    → ports_of (items ws) ≡ ok ports
    → document_ports (put_inbounds ws (object fs)) ≡ ok ports
unfolding document_ports
document_ports_put ws fs ports (low, high) h =
    let found : few (array_at (str "inbounds") (put_inbounds ws (object fs))) ≡ some (items ws) =
      ap few (put_inbounds_lem ws fs) ∙ few_lem (items ws) low high in
    rw (found, h)

with_ports_lem :
    (document : Value) (ports old : List ℕ)
    → document_ports document ≡ ok old
    → length ports ≡ length old
    → All IsFit ports
    → (changed : Value) × (with_ports document ports ≡ some (ok changed))
      × (document_ports changed ≡ ok ports)
      × (1 ≤ length ports)
      × (length ports ≤ max_server_ips)
unfolding document_ports
with_ports_lem document ports old h e fits =
    let (vs, found, h1) = >>=-ok _ _ h in
    let among = ok_or-ok _ _ found in
    let (fs, ws, whole, list, same) = array_at-items (str "inbounds") document (few-some _ among) in
    let size : length_items ws ≡ length ports =
      sym (length-items ws) ∙ ap length same ∙ sym (length-ports_of vs old h1) ∙ sym e in
    let (ws', set, read, size') = set_ports_lem ws ports old size fits (ap ports_of same ∙ h1) in
    let (low, high) = few_bounds (array_at (str "inbounds") document) among in
    let count : length vs ≡ length ports = sym (length-ports_of vs old h1) ∙ sym e in
    let bounds : (1 ≤ length (items ws')) × (length (items ws') ≤ max_server_ips) =
      (omega (arith, low, count, size'), omega (arith, high, count, size')) in
    (
      put_inbounds ws' document,
      with_ports_found document ports ws ws' list ((==_iff _ _).1 size) set,
      ap (λ d. document_ports (put_inbounds ws' d)) whole
          ∙ document_ports_put ws' fs ports bounds read,
      omega (arith, low, count),
      omega (arith, high, count),
    )

any-IsFit : (ports : List ℕ) → All IsFit ports → any (λ port. ltb port 1024) ports ≡ false
any-IsFit [] h = refl
any-IsFit (p ∷ ps) (fit, fits) = ground (arith, any-IsFit ps fits)

ports_are_fit_lem :
    (ports : List ℕ)
    → All IsFit ports
    → repeats [] ports ≡ false
    → 1 ≤ length ports
    → length ports ≤ max_server_ips
    → ports_are_fit ports ≡ true
unfolding ports_are_fit
ports_are_fit_lem [] fits once low high = absurd (omega arith)
ports_are_fit_lem (p ∷ ps) fits once low high = ground (arith, any-IsFit (p ∷ ps) fits)

-- If the ports of a validation document can be read, then the same number of other ports, none of them
-- privileged and no two the same, is put into it without a panic: what is written out is a document
-- from which exactly these ports are read, in order.
pub validation_config_with_ports_lem :
    (parser : Parser) (raw : Str) (ports : List ℕ) {old : List ℕ}
    → validation_config_ports parser raw ≡ ok old
    → length ports ≡ length old
    → All IsFit ports
    → repeats [] ports ≡ false
    → (document : Value) × (validation_config_with_ports parser raw ports
        ≡ some (serialized parser document))
      × (document_ports document ≡ ok ports)
unfolding validation_config_ports validation_config_with_ports
validation_config_with_ports_lem parser raw ports {old} h e fits once =
    let (document, parsed, h1) =
      >>=-ok (parse_document parser "invalid validation Xray JSON: " raw) document_ports h in
    let (changed, done, read, low, high) = with_ports_lem document ports old h1 e fits in
    (changed, rw (ports_are_fit_lem ports fits once low high, parsed, done), read)
