-- ===== src/Document/Permitted.antt =====
-- What `validate_xray_document` (daemon/src/system.rs) lets through, stated without its tests.
use varmlen_client_linux.Base.{
  ℕ, Bool, true, false, List, [], ◌∷◌, ◌≡◌, arith, length, ok, Option, some, none, ap, ◌∙◌,
  and_true, ◌==◌,
}
use varmlen_client_linux.Base.Text.{Str, str}
use varmlen_client_linux.Base.Checked.{>>=-ok, ok_or-ok, unless-ok, map_err-ok}
use varmlen_client_linux.Document.Json.{
  Value, Fields, Parser, str_at, array_at, object_at, one_of, pointer, and_then, as_str, u64_at,
  has_other_key,
}
use varmlen_client_linux.Document.Checks.{
  find, inbound_by_tag, has_tag_and_protocol, tun_interface, proxy_port, is_number, check_inbound,
  is_tun_inbound, is_socks_inbound, data_tag, data_protocol, check_inbounds, check_outbounds,
  check_log, check_document, contains_forbidden_file_key, parse_document, validate_xray_document,
  file_keys,
}
use varmlen_client_linux.Document.Files.{HasKey, not_file_key}
use varmlen_client_linux.Document.Outbounds.{
  is_text-eq, not-false, Tagged, Tagged-intro, ArePermitted, outbounds_lem,
}

-- Where the one inbound takes its traffic from.
abbrev pub IsData : Bool → Value → Type 0
IsData true v =
    Tagged v (str "tun-in") (str "tun")
    × (and_then (pointer (str "settings" ∷ str "name" ∷ []) v) as_str ≡ some tun_interface)
IsData false v =
    Tagged v (str "socks-in") (str "socks")
    × (str_at (str "listen") v ≡ some (str "127.0.0.1"))
    × (u64_at (str "port") v ≡ some proxy_port)

pub is_number-eq : (o : Option ℕ) (n : ℕ) → is_number o n ≡ true → o ≡ some n
is_number-eq none n h = cc
is_number-eq (some m) n h = ground arith

check_inbound-IsData :
    (expects_tun : Bool) (v : Value)
    → has_tag_and_protocol (data_tag expects_tun) (data_protocol expects_tun) v ≡ true
    → check_inbound expects_tun v ≡ ok tt
    → IsData expects_tun v
unfolding check_inbound is_tun_inbound is_socks_inbound
check_inbound-IsData true v t h = (
  Tagged-intro v _ _ t,
  is_text-eq (and_then (pointer (str "settings" ∷ str "name" ∷ []) v) as_str) tun_interface
      (not-false _ (unless-ok _ _ h)),
)
check_inbound-IsData false v t h =
    let (l, p) = and_true _ _ (not-false _ (unless-ok _ _ h)) in
    (Tagged-intro v _ _ t, is_text-eq _ _ l, is_number-eq _ _ p)

found_alone :
    (p : Value → Bool) (vs : List Value) {v : Value}
    → (length vs == 1) ≡ true
    → find p vs ≡ some v
    → (vs ≡ v ∷ []) × (p v ≡ true)
unfolding find
found_alone p [] h e = cc
found_alone p (w ∷ []) h e = ground arith
found_alone p (w ∷ x ∷ vs) h e = absurd (ground arith)

abbrev pub HasInbound : Bool → Value → Type 0
HasInbound expects_tun document =
    (v : Value) × (array_at (str "inbounds") document ≡ some (v ∷ [])) × IsData expects_tun v

check_inbounds-HasInbound :
    (expects_tun : Bool) (document : Value)
    → check_inbounds expects_tun document ≡ ok tt
    → HasInbound expects_tun document
unfolding check_inbounds inbound_by_tag
check_inbounds-HasInbound expects_tun document h =
    let (inbounds, e, h1) = >>=-ok _ _ h in
    let (_, one, h2) = >>=-ok _ _ h1 in
    let (v, found, h3) = >>=-ok _ _ h2 in
    let (alone, tagged) =
      found_alone _ inbounds (not-false _ (unless-ok _ _ one)) (ok_or-ok _ _ found) in
    (v, ok_or-ok _ _ e ∙ ap some alone, check_inbound-IsData expects_tun v tagged h3)

abbrev pub HasOutbounds : Value → Type 0
HasOutbounds document =
    (vs : List Value) × (array_at (str "outbounds") document ≡ some vs) × ArePermitted vs

check_outbounds-HasOutbounds :
    (document : Value) → check_outbounds document ≡ ok tt → HasOutbounds document
unfolding check_outbounds
check_outbounds-HasOutbounds document h =
    let (outbounds, e, h1) = >>=-ok _ _ h in
    (outbounds, ok_or-ok _ _ e, outbounds_lem outbounds (not-false _ (unless-ok _ _ h1)))

pub record IsPermitted (expects_tun : Bool) (document : Value) : Type 0 where
  pub inbound : HasInbound expects_tun document
  pub outbounds : HasOutbounds document
  pub log :
      (log : Fields) × (object_at (str "log") document ≡ some log)
      × (has_other_key (str "loglevel" ∷ []) log ≡ false)
  pub no_file : (key : Str) → HasKey key document → one_of file_keys key ≡ false

check_log_lem :
    (document : Value)
    → check_log document ≡ ok tt
    → (log : Fields) × (object_at (str "log") document ≡ some log)
      × (has_other_key (str "loglevel" ∷ []) log ≡ false)
unfolding check_log
check_log_lem document h =
    let (log, l, l1) = >>=-ok _ _ h in (log, ok_or-ok _ _ l, unless-ok _ _ l1)

check_document-IsPermitted :
    (expects_tun : Bool) (document : Value)
    → check_document expects_tun document ≡ ok tt
    → IsPermitted expects_tun document
unfolding check_document
check_document-IsPermitted expects_tun document h =
    let logs : check_log document ≡ ok tt = ground arith in
    let ins : check_inbounds expects_tun document ≡ ok tt = ground arith in
    let outs : check_outbounds document ≡ ok tt = ground arith in
    let files : contains_forbidden_file_key document ≡ false = ground arith in
    record {
      inbound = check_inbounds-HasInbound expects_tun document ins;
      outbounds = check_outbounds-HasOutbounds document outs;
      log = check_log_lem document logs;
      no_file = λ key k. not_file_key k files;
    }

-- A document that passes the check is one that parses to an object in which there is exactly one
-- inbound, the TUN interface of Varmlen in TUN mode and otherwise SOCKS on port 2081 of the loopback
-- address; every outbound is a proxy, of which there are between one and 64, or one of the three that
-- Varmlen adds, each of which is there once; every outbound has a tag, not empty and different from
-- the others; the log section has no key but the level; and no object, however deep, has a key that
-- names a file of a certificate or of a key.
pub validate_xray_document-IsPermitted :
    (parser : Parser) (raw : Str) (expects_tun : Bool)
    → validate_xray_document parser raw expects_tun ≡ ok tt
    → (document : Value) × (parser.from_str raw ≡ ok document) × IsPermitted expects_tun document
unfolding validate_xray_document parse_document
validate_xray_document-IsPermitted parser raw expects_tun h =
    let (document, e, h1) = >>=-ok _ _ h in
    (document, map_err-ok _ _ e, check_document-IsPermitted expects_tun document h1)
