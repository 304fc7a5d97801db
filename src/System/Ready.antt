-- ===== src/System/Ready.antt =====
-- The wait for Xray (daemon/src/system.rs, `wait_until_ready`) ends with success exactly if Xray gets ready
-- in time.
use varmlen_client_linux.Base.{
  ℕ, zero, suc, ◌<◌, Bool, true, false, Result, ok, err, Done, if◌then◌else◌, ◌≡◌, ◌↔◌, refl, arith,
}
use varmlen_client_linux.Protocol.{ConnectionMode, DaemonError}
use varmlen_client_linux.System.Host.{Env, System, touch}
use varmlen_client_linux.System.Parts.{child_is_running, is_ready, wait_rounds, wait_until_ready}

module _ {S W : Type 0} (env : Env S W) (mode : ConnectionMode) where
  abbrev pub runs : System S W → Bool
  runs s = (child_is_running env s).0

  abbrev pub is_up : System S W → Bool
  is_up s = (is_ready env mode (child_is_running env s).1.world).0

  abbrev pub after_round : System S W → System S W
  after_round s =
      let s1 = (child_is_running env s).1 in
      touch (env.host.sleep 100) (record s1 { world = (is_ready env mode s1.world).1 })

  -- It runs in this many rounds without being ready, and in the one behind them it runs and is.
  abbrev pub GetsReady : ℕ → System S W → Type 0
  GetsReady zero s = (runs s ≡ true) × (is_up s ≡ true)
  GetsReady (suc k) s = (runs s ≡ true) × (is_up s ≡ false) × GetsReady k (after_round s)

  Within : ℕ → System S W → Type 0
  Within rounds s = (k : ℕ) × (k < rounds) × GetsReady k s

  starts_running : (k : ℕ) (s : System S W) → GetsReady k s → runs s ≡ true
  starts_running zero s p = p.0
  starts_running (suc k) s p = p.0

  later :
      (k rounds : ℕ) (s : System S W)
      → k < suc rounds
      → GetsReady k s
      → is_up s ≡ false
      → Within rounds (after_round s)
  unfolding Within
  later zero rounds s below p u = cc (p.1, u)
  later (suc k) rounds s below p u = (k, omega arith, p.2)

  round_iff :
      (running ready : Bool) (rounds : ℕ) (s s2 : System S W) (e : DaemonError) (s1 : System S W)
      (rest : Result DaemonError Done × System S W)
      → runs s ≡ running
      → is_up s ≡ ready
      → ((rest.0 ≡ ok tt) ↔ Within rounds (after_round s))
      → ((if running then if ready then (ok tt, s2) else rest else (err e, s1)).0 ≡ ok tt)
        ↔ Within (suc rounds) s
  unfolding Within
  round_iff true true rounds s s2 e s1 rest r u h = ((λ _. (0, omega arith, (r, u))), (λ _. refl))
  round_iff true false rounds s s2 e s1 rest r u h = (
    (λ g. let (k, below, comes) = h.0 g in (suc k, omega arith, (r, u, comes))),
    (λ (k, below, p). h.1 (later k rounds s below p u)),
  )
  round_iff false ready rounds s s2 e s1 rest r u h =
      ((λ g. cc), (λ (k, below, p). let running = starts_running k s p in cc))

  none_below : (k : ℕ) (e : DaemonError) → k < 0 → ◌≡◌ {A = Result DaemonError Done} (err e) (ok tt)
  none_below k e below = let absurd : zero ≡ suc k = omega arith in cc

  wait_rounds_iff :
      (rounds : ℕ) (s : System S W) → ((wait_rounds env rounds mode s).0 ≡ ok tt) ↔ Within rounds s
  unfolding wait_rounds Within
  wait_rounds_iff zero s = ((λ g. cc), (λ (k, below, comes). none_below k _ below))
  wait_rounds_iff (suc rounds) s =
      round_iff (runs s) (is_up s) rounds s _ _ _ (wait_rounds env rounds mode (after_round s)) refl
        refl (wait_rounds_iff rounds (after_round s))

  -- The wait ends with success exactly if within its fifty rounds Xray gets ready, while it runs in each
  -- round until then.
  pub wait_until_ready_iff :
      (s : System S W)
      → ((wait_until_ready env mode s).0 ≡ ok tt) ↔ ((k : ℕ) × (k < 50) × GetsReady k s)
  unfolding wait_until_ready Within
  wait_until_ready_iff s = wait_rounds_iff 50 s
