-- ===== src/Helper/Rollback.antt =====
-- What `route_down` of helper/src/main.rs calls, and how a `route_up` ends.
use varmlen_client_linux.Base.{
  ℕ, zero, suc, String, Bool, true, false, List, [], ◌∷◌, ◌++◌, none, Result, ok, err, ◌≡◌, refl,
  ap, sym, ◌∙◌, inl, inr, arith, Bool-cases,
}
use mathlib.Core.List.{append-nil, append_assoc}
use varmlen_client_linux.Base.Text.{Str, str, lines}
use varmlen_client_linux.Helper.Machine.{Machine, ip_quiet, write_file}
use varmlen_client_linux.Helper.Routes.{show_routes, state_file, xray_dial_mark}
use varmlen_client_linux.Helper.Killswitch.{bypass_down, bypass_mark}
use varmlen_client_linux.Helper.Up.{detect_default_route}
use varmlen_client_linux.Helper.Down.{
  quietly, leave_tunnel, from_list, each, addresses, delete_rule, was_deleted, delete_pin,
  delete_route, delete_route6, flush_phys, restored, unpin, delete_rules, delete_mark_rules,
  drop_bypass, restore_rp_filter, clear_rest, route_down,
}
use varmlen_client_linux.Helper.Trace.{Recorded, recorded, Extends}

module _ {W : Type 0} where
  Extends-refl : (s : Recorded W) → Extends s s
  Extends-refl s = ([], sym (append-nil s.trace))

  Extends-same : (s s' : Recorded W) → s'.trace ≡ s.trace → Extends s s'
  Extends-same s s' e = ([], e ∙ sym (append-nil s.trace))

  Extends-trans : (s t u : Recorded W) → Extends s t → Extends t u → Extends s u
  Extends-trans s t u (a, e) (b, f) = (a ++ b, f ∙ ap (λ l. l ++ b) e ∙ append_assoc s.trace a b)

module _ {W : Type 0} (machine : Machine W) where
  quietly_trace :
      (calls : List (List Str)) (s : Recorded W)
      → (quietly (recorded machine) calls s).trace ≡ s.trace ++ calls
  unfolding quietly ip_quiet
  quietly_trace [] s = sym (append-nil s.trace)
  quietly_trace (args ∷ rest) s =
      quietly_trace rest (ip_quiet (recorded machine) args s)
      ∙ append_assoc s.trace (args ∷ []) rest

  Extends-quietly :
      (calls : List (List Str)) (s : Recorded W) → Extends s (quietly (recorded machine) calls s)
  Extends-quietly calls s = (calls, quietly_trace calls s)

  Extends-from_list :
      (call : Str → List Str) (path : Str) (r : Result Str Str) (s : Recorded W)
      → Extends s (from_list (recorded machine) call path r s)
  unfolding from_list
  Extends-from_list call path (err e) s = Extends-refl s
  Extends-from_list call path (ok list) s =
      Extends-quietly (each (recorded machine) call (addresses (lines list))) s

  Extends-unpin :
      (call : Str → List Str) (name : String) (s : Recorded W)
      → Extends s (unpin (recorded machine) call name s)
  unfolding unpin
  Extends-unpin call name s =
      Extends-from_list call (state_file name) (machine.read_to_string (state_file name) s.world) s

  Extends-delete_rules :
      (left : ℕ) (fam : Str) (mark : ℕ) (s : Recorded W)
      → Extends s (delete_rules (recorded machine) left fam mark s)
  unfolding delete_rules
  Extends-delete_rules zero fam mark s = Extends-refl s
  Extends-delete_rules (suc left) fam mark s =
      let call = (recorded machine).ip (delete_rule fam mark) s in
      elim (Bool-cases (was_deleted (recorded machine) call.0)) [
        | inl e ↦ rw e (
            Extends-trans s call.1 (delete_rules (recorded machine) left fam mark call.1)
              (delete_rule fam mark ∷ [], refl) (Extends-delete_rules left fam mark call.1))
        | inr e ↦ rw e (delete_rule fam mark ∷ [], refl)
      ]

  Extends-delete_mark_rules : (s : Recorded W) → Extends s (delete_mark_rules (recorded machine) s)
  unfolding delete_mark_rules
  Extends-delete_mark_rules s =
      let s1 = delete_rules (recorded machine) 4 (str "-4") xray_dial_mark s in
      let s2 = delete_rules (recorded machine) 4 (str "-6") xray_dial_mark s1 in
      let s3 = delete_rules (recorded machine) 4 (str "-4") bypass_mark s2 in
      let s4 = delete_rules (recorded machine) 4 (str "-6") bypass_mark s3 in
      Extends-trans s s1 s4 (Extends-delete_rules 4 (str "-4") xray_dial_mark s) (
        Extends-trans s1 s2 s4 (Extends-delete_rules 4 (str "-6") xray_dial_mark s1) (
          Extends-trans s2 s3 s4 (Extends-delete_rules 4 (str "-4") bypass_mark s2)
            (Extends-delete_rules 4 (str "-6") bypass_mark s3)))

  bypass_down_trace : (s : Recorded W) → (bypass_down (recorded machine) none s).trace ≡ s.trace
  unfolding bypass_down
  bypass_down_trace s = refl

  Extends-drop_bypass :
      (keep : Bool) (s : Recorded W) → Extends s (drop_bypass (recorded machine) keep s)
  unfolding drop_bypass
  Extends-drop_bypass true s = Extends-refl s
  Extends-drop_bypass false s =
      let s1 = bypass_down (recorded machine) none s in
      Extends-trans s s1 (unpin (recorded machine) delete_pin "bypass_pins" s1)
        (Extends-same s s1 (bypass_down_trace s)) (Extends-unpin delete_pin "bypass_pins" s1)

  restored_trace :
      (r : Result Str Str) (s : Recorded W) → (restored (recorded machine) r s).trace ≡ s.trace
  unfolding restored write_file
  restored_trace (err e) s = refl
  restored_trace (ok orig) s = ground arith

  Extends-restore_rp_filter : (s : Recorded W) → Extends s (restore_rp_filter (recorded machine) s)
  unfolding restore_rp_filter
  Extends-restore_rp_filter s =
      let found = machine.read_to_string (state_file "rp_filter_all.orig") s.world in
      Extends-same s (restored (recorded machine) found s) (restored_trace found s)

  Extends-clear_rest :
      (keep : Bool) (s : Recorded W) → Extends s (clear_rest (recorded machine) keep s)
  unfolding clear_rest
  Extends-clear_rest keep s =
      let s1 = unpin (recorded machine) delete_route6 "servers6" s in
      let s2 = delete_mark_rules (recorded machine) s1 in
      let s3 = drop_bypass (recorded machine) keep s2 in
      let s4 = quietly (recorded machine) (flush_phys ∷ (str "-6" ∷ flush_phys) ∷ []) s3 in
      let s5 = unpin (recorded machine) delete_route "servers" s4 in
      let s6 = restore_rp_filter (recorded machine) s5 in
      Extends-trans s s1 s6 (Extends-unpin delete_route6 "servers6" s) (
        Extends-trans s1 s2 s6 (Extends-delete_mark_rules s1) (
          Extends-trans s2 s3 s6 (Extends-drop_bypass keep s2) (
            Extends-trans s3 s4 s6 (Extends-quietly (flush_phys ∷ (str "-6" ∷ flush_phys) ∷ []) s3)
              (Extends-trans s4 s5 s6 (Extends-unpin delete_route "servers" s4)
                (Extends-restore_rp_filter s5)))))

  -- Whatever fails, `route_down` first takes the way out of the tunnel.
  pub route_down_trace :
      (keep : Bool) (s : Recorded W)
      → (rest : List (List Str)) × ((route_down (recorded machine) keep s).trace
          ≡ s.trace ++ (leave_tunnel ++ rest))
  unfolding route_down
  route_down_trace keep s =
      let s1 = quietly (recorded machine) leave_tunnel s in
      let (rest, e) = Extends-clear_rest keep s1 in
      (
        rest,
        e
            ∙ ap (λ l. l ++ rest) (quietly_trace leave_tunnel s)
            ∙ append_assoc s.trace leave_tunnel rest,
      )

  pub detect_trace :
      (s : Recorded W)
      → (detect_default_route (recorded machine) s).1.trace ≡ s.trace ++ show_routes false ∷ []
  unfolding detect_default_route
  detect_trace s = ground arith
