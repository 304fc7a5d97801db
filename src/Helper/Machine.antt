-- ===== src/Helper/Machine.antt =====
-- What helper/src/main.rs asks of the operating system, and its smallest helpers.
use varmlen_client_linux.Base.{
  ℕ, Bool, List, [], ◌∷◌, ◌++◌, Option, Result, ok, err, Done, Eff, map_err, pure, throw,
  lift_result, ◌>>=◌, ◌>>◌, if◌then◌else◌,
}
use varmlen_client_linux.Base.Text.{Str, str, trim}
use varmlen_client_linux.Protocol.{IpAddr}
use varmlen_client_linux.System.Host.{Output}

-- A child or an open file is known by a number. An error is what the operating system says of it. The
-- socket program is the one of the BPF calls.
pub record Machine (W : Type 0) : Type 0 where
  pub show_ip : IpAddr → Str
  pub parse_ip : Str → Option IpAddr
  pub ip : List Str → Eff W Str Output  -- `Command::new("ip").args(…).output()`
  pub nft : List Str → W → W  -- `Command::new("nft")…status()`, whatever it says
  pub nft_spawn : Eff W Str ℕ  -- `nft -f -` with a pipe
  pub nft_write : ℕ → Str → Eff W Str Done
  pub nft_wait : ℕ → Eff W Str Bool
  pub exists : Str → W → Bool
  pub read_to_string : Str → W → Result Str Str
  pub write : Str → Str → Eff W Str Done
  pub create_private_dir : Str → W → W
  pub open_nofollow : Str → Eff W Str ℕ
  pub write_all : ℕ → Str → W → W
  pub remove_file : Str → W → W
  pub physical_iface : W → Option Str  -- `pick_physical_iface`
  pub bypass_bpf : Str → Bool → Eff W Str Done
  pub read_dir : Str → W → Option (List Str)  -- the names in it
  pub read_lossy : Str → W → Option Str  -- `fs::read`, and `from_utf8_lossy`
  pub read_link : Str → W → Option Str

abbrev pub spaced : List Str → Str
spaced [] = []
spaced (word ∷ []) = word
spaced (word ∷ next ∷ rest) = word ++ (str " " ++ spaced (next ∷ rest))

module _ {W : Type 0} (machine : Machine W) where
  abbrev pub described : {A : Type 0} → Str → Eff W Str A → Eff W Str A
  described context op w = let (result, w') = op w in (map_err (λ e. context ++ e) result, w')

  succeeded : List Str → Output → Result Str Done
  succeeded args output =
      if output.success
      then ok tt
      else err (str "ip " ++ (spaced args ++ (str ": " ++ trim output.stderr)))

  unfoldable pub ip_req : List Str → Eff W Str Done
  unfolding succeeded
  ip_req args = do
    output ← described (str "ip: ") (machine.ip args)
    lift_result (succeeded args output)

  unfoldable pub ip_quiet : List Str → W → W
  ip_quiet args w = (machine.ip args w).1

  unfoldable pub nft_apply : Str → Eff W Str Done
  nft_apply rules = do
    child ← described (str "nft spawn: ") machine.nft_spawn
    described (str "nft write: ") (machine.nft_write child rules)
    success ← described (str "nft wait: ") (machine.nft_wait child)
    if success then pure tt else throw (str "nft apply failed")

  unfoldable pub write_file : Str → Str → Eff W Str Done
  write_file path value = described (str "write " ++ (path ++ str ": ")) (machine.write path value)

  written : Str → Result Str ℕ × W → W
  written value (err e, w) = w
  written value (ok file, w) = machine.write_all file value w

  unfoldable pub write_state : Str → Str → Eff W Str Done
  unfolding written
  write_state path value w = (
    ok tt,
    written value (machine.open_nofollow path (machine.create_private_dir (str "/run/varmlen") w)),
  )
