-- ===== src/Helper/Trace.antt =====
-- The calls of `ip` that helper/src/main.rs makes, written down in their order, and rules for what a step
-- adds to them.
use varmlen_client_linux.Base.{
  List, [], ◌∷◌, ◌++◌, Result, ok, err, Eff, pure, modify, ◌>>=◌, ◌≡◌, refl, ap, sym, ◌∙◌, arith,
  Ends, Ends-mono, Ends->>=,
}
use mathlib.Core.List.{append_assoc, append-nil}
use varmlen_client_linux.Base.Text.{Str}
use varmlen_client_linux.Helper.Machine.{Machine, ip_req, ip_quiet, write_file, write_state}

pub record Recorded (W : Type 0) : Type 0 where
  pub world : W
  pub trace : List (List Str)

module _ {W : Type 0} where
  abbrev on_world : {E A : Type 0} → Eff W E A → Eff (Recorded W) E A
  on_world op s = let (result, w) = op s.world in (result, record s { world = w })

  abbrev through : (W → W) → Recorded W → Recorded W
  through f s = record s { world = f s.world }

  abbrev pub recorded : Machine W → Machine (Recorded W)
  recorded m = record {
    show_ip = m.show_ip;
    parse_ip = m.parse_ip;
    ip = λ args s.
        let (result, w) = m.ip args s.world in
        (result, record { world = w; trace = s.trace ++ args ∷ [] });
    nft = λ args. through (m.nft args);
    nft_spawn = on_world m.nft_spawn;
    nft_write = λ child text. on_world (m.nft_write child text);
    nft_wait = λ child. on_world (m.nft_wait child);
    exists = λ path s. m.exists path s.world;
    read_to_string = λ path s. m.read_to_string path s.world;
    write = λ path value. on_world (m.write path value);
    create_private_dir = λ path. through (m.create_private_dir path);
    open_nofollow = λ path. on_world (m.open_nofollow path);
    write_all = λ file value. through (m.write_all file value);
    remove_file = λ path. through (m.remove_file path);
    physical_iface = λ s. m.physical_iface s.world;
    bypass_bpf = λ path attach. on_world (m.bypass_bpf path attach);
    read_dir = λ path s. m.read_dir path s.world;
    read_lossy = λ path s. m.read_lossy path s.world;
    read_link = λ path s. m.read_link path s.world;
  }

  abbrev pub Extends : Recorded W → Recorded W → Type 0
  Extends s s' = (more : List (List Str)) × (s'.trace ≡ s.trace ++ more)

  -- A step that returns has made the calls of one of the choices, and a step that fails some calls.
  abbrev pub Makes : {I A : Type 0} → (I → List (List Str)) → Eff (Recorded W) Str A → Type 0
  Makes {I} calls m =
      (s : Recorded W)
      → Ends (λ _ s'. (i : I) × (s'.trace ≡ s.trace ++ calls i)) (λ _ s'. Extends s s') (m s)

  -- Just these calls.
  abbrev pub Adds : {A : Type 0} → List (List Str) → Eff (Recorded W) Str A → Type 0
  Adds calls m = Makes {I = Unit {0}} (λ _. calls) m

  longer :
      (s s' : Recorded W) (a more : List (List Str)) {t : List (List Str)}
      → s'.trace ≡ s.trace ++ a
      → t ≡ s'.trace ++ more
      → t ≡ s.trace ++ (a ++ more)
  longer s s' a more e h = h ∙ ap (λ l. l ++ more) e ∙ append_assoc s.trace a more

  pub Makes->>= :
      {I J A B : Type 0} (c : I → List (List Str)) (d : A → J → List (List Str))
      (m : Eff (Recorded W) Str A) (f : A → Eff (Recorded W) Str B)
      → Makes c m
      → ((a : A) → Makes (d a) (f a))
      → Makes {I = I × A × J} (λ k. c k.0 ++ d k.1 k.2) (m >>= f)
  Makes->>= {I} {J} {A} {B} c d m f h k s =
      Ends->>= (λ _ s'. (i : I) × (s'.trace ≡ s.trace ++ c i))
        (λ _ s'. (x : I × A × J) × (s'.trace ≡ s.trace ++ (c x.0 ++ d x.1 x.2)))
        (λ _ s'. Extends s s') (m s) f (h s)
        (λ a s' p.
          Ends-mono (λ _ s''. (j : J) × (s''.trace ≡ s'.trace ++ d a j))
            (λ _ s''. (x : I × A × J) × (s''.trace ≡ s.trace ++ (c x.0 ++ d x.1 x.2)))
            (λ _ s''. Extends s' s'') (λ _ s''. Extends s s'') (f a s') (k a s')
            (λ b s'' q. ((p.0, a, q.0), longer s s' (c p.0) (d a q.0) p.1 q.1))
            (λ e s'' q. (c p.0 ++ q.0, longer s s' (c p.0) q.0 p.1 q.1)))

  -- The same for just these calls.
  pub Adds->>= :
      {A B : Type 0} (c d : List (List Str)) (m : Eff (Recorded W) Str A)
      (f : A → Eff (Recorded W) Str B)
      → Adds c m
      → ((a : A) → Adds d (f a))
      → Adds (c ++ d) (m >>= f)
  Adds->>= {A} {B} c d m f h k s =
      Ends-mono _ _ _ _ ((m >>= f) s) (Makes->>= (λ _. c) (λ _ _. d) m f h k s)
        (λ _ s' p. (tt, p.1)) (λ _ s' q. q)

  Ends-both :
      {A : Type 0} (calls : List (List Str)) (s : Recorded W) (r : Result Str A × Recorded W)
      → r.1.trace ≡ s.trace ++ calls
      → Ends (λ _ s'. Unit {0} × (s'.trace ≡ s.trace ++ calls)) (λ _ s'. Extends s s') r
  Ends-both calls s (ok a, s') e = (tt, e)
  Ends-both calls s (err d, s') e = (calls, e)

  -- A step that makes the calls whether or not it fails.
  pub Adds-always :
      {A : Type 0} (calls : List (List Str)) (m : Eff (Recorded W) Str A)
      → ((s : Recorded W) → (m s).1.trace ≡ s.trace ++ calls)
      → Adds calls m
  Adds-always calls m h s = Ends-both calls s (m s) (h s)

  pub Adds-none :
      {A : Type 0} (m : Eff (Recorded W) Str A)
      → ((s : Recorded W) → (m s).1.trace ≡ s.trace)
      → Adds [] m
  Adds-none m h = Adds-always [] m (λ s. h s ∙ sym (append-nil s.trace))

  pub Adds-pure : {A : Type 0} (a : A) → Adds [] (pure a)
  Adds-pure a s = (tt, sym (append-nil s.trace))

  module _ (machine : Machine W) where
    pub Adds-ip_quiet :
        (args : List Str) → Adds (args ∷ []) (modify (ip_quiet (recorded machine) args))
    unfolding ip_quiet
    Adds-ip_quiet args s = (tt, refl)

    ip_req_trace :
        (args : List Str) (s : Recorded W)
        → (ip_req (recorded machine) args s).1.trace ≡ s.trace ++ args ∷ []
    unfolding ip_req
    ip_req_trace args s = ground arith

    pub Adds-ip_req : (args : List Str) → Adds (args ∷ []) (ip_req (recorded machine) args)
    Adds-ip_req args = Adds-always (args ∷ []) (ip_req (recorded machine) args) (ip_req_trace args)

    write_file_trace :
        (path value : Str) (s : Recorded W)
        → (write_file (recorded machine) path value s).1.trace ≡ s.trace
    unfolding write_file
    write_file_trace path value s = ground arith

    pub Adds-write_file : (path value : Str) → Adds [] (write_file (recorded machine) path value)
    Adds-write_file path value =
        Adds-none (write_file (recorded machine) path value) (write_file_trace path value)

    pub write_state_trace :
        (path value : Str) (s : Recorded W)
        → (write_state (recorded machine) path value s).1.trace ≡ s.trace
    unfolding write_state
    write_state_trace path value s = ground arith

    pub Adds-write_state : (path value : Str) → Adds [] (write_state (recorded machine) path value)
    Adds-write_state path value =
        Adds-none (write_state (recorded machine) path value) (write_state_trace path value)

module _ {W : Type 0} where
  -- The same choices under other names.
  pub Makes-map :
      {I J A : Type 0} (c : I → List (List Str)) (d : J → List (List Str))
      (m : Eff (Recorded W) Str A) (g : I → J)
      → ((i : I) → c i ≡ d (g i))
      → Makes c m
      → Makes d m
  Makes-map {I} {J} c d m g same h s =
      Ends-mono (λ _ s'. (i : I) × (s'.trace ≡ s.trace ++ c i))
        (λ _ s'. (j : J) × (s'.trace ≡ s.trace ++ d j)) (λ _ s'. Extends s s')
        (λ _ s'. Extends s s') (m s) (h s)
        (λ _ s' p. (g p.0, p.1 ∙ ap (λ l. s.trace ++ l) (same p.0))) (λ _ s' q. q)

  -- Just these calls, and then those of a choice.
  pub Adds-Makes :
      {J A B : Type 0} (c : List (List Str)) (d : J → List (List Str)) (m : Eff (Recorded W) Str A)
      (f : A → Eff (Recorded W) Str B)
      → Adds c m
      → ((a : A) → Makes d (f a))
      → Makes (λ j. c ++ d j) (m >>= f)
  Adds-Makes c d m f h k =
      Makes-map _ _ (m >>= f) (λ x. x.2) (λ x. refl) (Makes->>= (λ _. c) (λ _ j. d j) m f h k)
