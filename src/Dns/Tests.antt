-- ===== src/Dns/Tests.antt =====
-- The DNS guard and the DNS query of daemon/src/dns.rs at concrete inputs.
use varmlen_client_linux.Base.{
  ℕ, suc, Bool, true, false, List, [], ◌∷◌, Result, ok, some, ◌≡◌, ◌≤◌, ◌⊎◌, refl, ◌==◌, is_ok,
  length, take, drop,
}
use varmlen_client_linux.Base.Text.{str, split_by}
use varmlen_client_linux.Protocol.{DaemonError}
use varmlen_client_linux.Dns.{DnsBackend, install, build_dns_query, to_be_bytes}
use varmlen_client_linux.Dns.Guard.{Observed, install_verified_or_removed}
use varmlen_client_linux.Dns.Query.{build_dns_query-read_labels, read_labels, question}

-- The state says whether the rules are there; the probe is not answered.
abbrev deaf : DnsBackend Bool
deaf = record {
  apply = λ _. (ok tt, true);
  probe_through_tunnel = λ b. (ok false, b);
  remove = λ _. (ok tt, false);
}

abbrev observed : Observed deaf
observed = record { installed = λ b. b; removed = λ b h. refl }

install_verified_or_removed_example :
    ((is_ok (install deaf false).0 ≡ true)
      × (true ≡ true)
      × (◌≡◌ {A = Result DaemonError Bool} (ok false) (ok true))
      × ((install deaf false).1 ≡ true))
    ⊎ ((is_ok (install deaf false).0 ≡ false)
        × ((true ≡ false) ⊎ ((install deaf false).1 ≡ false) ⊎ (true ≡ false)))
install_verified_or_removed_example = install_verified_or_removed deaf observed false

abbrev query : List ℕ
query =
    18 ∷ 52 ∷ 1 ∷ 0 ∷ 0 ∷ 1 ∷ 0 ∷ 0 ∷ 0 ∷ 0 ∷ 0 ∷ 0 ∷ 2 ∷ 97 ∷ 98 ∷ 1 ∷ 99 ∷ 0 ∷ 0 ∷ 1 ∷ 0 ∷ 1 ∷ []

built : build_dns_query 0x1234 (str "ab.c") ≡ ok query
unfolding build_dns_query split_by
built = refl

build_dns_query-read_labels_example :
    let names = split_by (λ c. c == b'.') (str "ab.c") in
    (length query ≤ 512)
    × (take 2 query ≡ to_be_bytes 0x1234)
    × (read_labels (suc (length names)) (drop 12 query) ≡ some (names, question))
build_dns_query-read_labels_example = build_dns_query-read_labels 0x1234 (str "ab.c") built

abbrev answer : List ℕ
answer = 129 ∷ 0 ∷ 1 ∷ 0 ∷ 1 ∷ 0 ∷ 0 ∷ 0 ∷ 0 ∷ []
