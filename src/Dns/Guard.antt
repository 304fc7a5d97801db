-- ===== src/Dns/Guard.antt =====
-- The guard of the DNS rules (daemon/src/dns.rs), for a backend whose rules can be observed.
use varmlen_client_linux.Base.{Bool, true, false, ok, ◌≡◌, ◌⊎◌, arith, is_ok}
use varmlen_client_linux.Dns.{DnsBackend, install}

-- What the guard relies on: a removal that reports success has removed the rules.
pub record Observed {B : Type 0} (ops : DnsBackend B) : Type 0 where
  pub installed : B → Bool
  pub removed : (b : B) → is_ok (ops.remove b).0 ≡ true → installed (ops.remove b).1 ≡ false

module _ {B : Type 0} (ops : DnsBackend B) (o : Observed ops) (b : B) where
  -- An installation that succeeds had its probe answered after the rules were applied, and changes
  -- nothing more. One that fails has not applied the rules, or has removed them again, or the removal
  -- reported a failure.
  pub install_verified_or_removed :
      let (applied, b1) = ops.apply b in
      let (probe, b2) = ops.probe_through_tunnel b1 in
      let (result, b') = install ops b in
      ((is_ok result ≡ true) × (is_ok applied ≡ true) × (probe ≡ ok true) × (b' ≡ b2))
      ⊎ ((is_ok result ≡ false)
          × ((is_ok applied ≡ false)
              ⊎ (o.installed b' ≡ false)
              ⊎ (is_ok (ops.remove b2).0 ≡ false)))
  unfolding install
  install_verified_or_removed =
      ground (arith, o.removed (ops.probe_through_tunnel (ops.apply b).1).1)
