-- ===== src/Helper/Tests.antt =====
-- Runs of helper/src/main.rs.
use varmlen_client_linux.Base.{
  Bool, true, false, List, [], ◌∷◌, none, Result, Done, ◌≡◌, ◌↔◌, ◌⊎◌, refl, some, any, arith,
}
use varmlen_client_linux.Base.Text.{Str, str}
use varmlen_client_linux.Protocol.{IpAddr, v4, v6}
use varmlen_client_linux.Helper.Rules.{udp, killswitch_rules}
use varmlen_client_linux.Helper.Passes.{
  Packet, passes, verdict, fits, ip_eq, is_own, asks_resolver, to_lan, is_dns, passes_iff,
}
use varmlen_client_linux.Helper.Down.{route_up}
use varmlen_client_linux.Helper.Trace.{Recorded, recorded}
use varmlen_client_linux.Helper.Sockets.{hex_to_ipv4}
use varmlen_client_linux.Helper.Kernel.{printed, address, hex_to_ipv4-printed}
use varmlen_client_linux.Helper.Samples.{machine, idle}

abbrev servers : List IpAddr
servers = v4 0xc0000201 ∷ v6 7 ∷ []

-- A question of DNS to a resolver in the local network.
abbrev question : Packet
question = record {
  interface = str "eth0";
  is_reply = false;
  to_local = false;
  mark = 0;
  ct_mark = 0;
  daddr = v4 0xc0a80101;
  transport = udp;
  dport = 53;
}

abbrev bypassed : Packet
bypassed = record question { mark = 0x2025 }

question_dropped : passes (killswitch_rules servers true) question ≡ false
unfolding passes killswitch_rules verdict fits
question_dropped = refl

-- The same question of a program outside the tunnel gets through.
bypassed-passes : passes (killswitch_rules servers true) bypassed ≡ true
unfolding passes killswitch_rules verdict fits
bypassed-passes = refl

passes_iff_example : (passes (killswitch_rules servers true) bypassed ≡ true) ↔ (
    (is_own bypassed ≡ true)
    ⊎ (asks_resolver bypassed ≡ true)
    ⊎ (any (ip_eq bypassed.daddr) servers ≡ true)
    ⊎ ((true ≡ true) × (to_lan bypassed ≡ true) × (is_dns bypassed ≡ false)))
passes_iff_example = passes_iff servers true bypassed

abbrev up : Bool → Result Str Done × Recorded Done
up success = route_up (recorded (machine success)) servers none [] idle

hex_to_ipv4-printed_example : hex_to_ipv4 (printed 149 154 167 220) ≡ some (address 149 154 167 220)
hex_to_ipv4-printed_example =
    hex_to_ipv4-printed 149 154 167 220 (omega arith) (omega arith) (omega arith) (omega arith)
