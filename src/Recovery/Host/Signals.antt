-- ===== src/Recovery/Host/Signals.antt =====
-- daemon/src/recovery.rs, `terminate_process`: only the saved process gets a signal.
use varmlen_client_linux.Base.{ℕ, zero, suc, ok, ◌≡◌, arith, refl}
use varmlen_client_linux.Base.Text.{Str, str}
use varmlen_client_linux.Identity.{ProcessIdentity}
use varmlen_client_linux.Recovery.{xray_process}
use varmlen_client_linux.Recovery.Host.{
  CleanupHost, await_end, same_process, kill_process, terminate_process,
}
use varmlen_client_linux.Recovery.Host.Watch.{Watched, watched, IsSaved, Own}

module _ {W : Type 0} (host : CleanupHost W) (saved : ProcessIdentity) where
  awaits : (n pid : ℕ) (v : Watched W) → (await_end (watched host) n pid v).1.acts ≡ v.acts
  unfolding await_end
  awaits zero pid v = refl
  awaits (suc n) pid v = ground (arith, awaits n pid ((watched host).sleep 100 v))

  -- A check of the identity changes nothing, and succeeds only at the saved process.
  checks :
      (refusal : Str) (v : Watched W)
      → ((same_process (watched host) refusal saved v).1 ≡ v)
        × ((same_process (watched host) refusal saved v).0 ≡ ok tt
            → IsSaved (xray_process saved) saved.pid (host.identify saved.pid v.inner))
  unfolding same_process
  checks refusal v = ground arith

  kills :
      (v : Watched W)
      → Own host (xray_process saved) v
      → Own host (xray_process saved) (kill_process (watched host) saved v).1
  unfolding kill_process
  kills v o = ground (arith, checks (str "refusing to kill a reused PID") v)

  pub terminates :
      (v : Watched W)
      → Own host (xray_process saved) v
      → Own host (xray_process saved) (terminate_process (watched host) saved v).1
  unfolding terminate_process
  terminates v o =
      let v1 = (watched host).terminate saved.pid v in
      let (ended, v2) = await_end (watched host) 20 saved.pid v1 in
      ground (
        arith,
        checks (str "refusing to terminate a reused PID") v,
        awaits 20 saved.pid v1,
        kills v2,
      )
