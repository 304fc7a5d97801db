-- ===== src/Document/Ported.antt =====
-- Ports put into inbounds (daemon/src/system.rs, `validation_config_with_ports`).
use varmlen_client_linux.Base.{
  ℕ, ◌≤◌, true, List, [], ◌∷◌, ◌≡◌, arith, length, All, Option, none, some, ok, refl, ap, ◌∙◌,
  Bool-cases, inl, inr,
}
use varmlen_client_linux.Base.Text.{Str, str, str_eq, str_eq_iff}
use varmlen_client_linux.Base.Checked.{>>=-ok, ok_or-ok}
use varmlen_client_linux.Document.Json.{
  Value, null, boolean, number, unsigned, text, array, object, Items, empty, more, Fields, closed,
  member, u64_at, get, lookup, insert, items,
}
use varmlen_client_linux.Document.Ports.{unprivileged, ports_of, set_port, set_ports, length_items}

str_eq_refl : (s : Str) → str_eq s s ≡ true
str_eq_refl s = (str_eq_iff s s).1 refl

pub lookup-insert_self :
    (key : Str) (v : Value) (fs : Fields) → lookup key (insert key v fs) ≡ some v
unfolding lookup insert
lookup-insert_self key v closed = rw (str_eq_refl key)
lookup-insert_self key v (member k w fs) = elim (Bool-cases (str_eq k key)) [
  | inl e ↦ rw e (rw e)
  | inr e ↦ rw e (rw e (lookup-insert_self key v fs))
]

-- A port that is read stands in an object, which can be changed.
set_port_lem :
    (port : ℕ) (v : Value) {old : ℕ}
    → u64_at (str "port") v ≡ some old
    → (v' : Value) × (set_port port v ≡ some v') × (u64_at (str "port") v' ≡ some port)
unfolding set_port get
set_port_lem port (object fs) h = (
  object (insert (str "port") (number (unsigned port)) fs),
  refl,
  rw (lookup-insert_self (str "port") (number (unsigned port)) fs),
)
set_port_lem port null h = cc
set_port_lem port (boolean b) h = cc
set_port_lem port (number n) h = cc
set_port_lem port (text s) h = cc
set_port_lem port (array vs) h = cc

-- A `u16` that the system gives to a program without privileges.
abbrev pub IsFit : ℕ → Type 0
IsFit port = (1024 ≤ port) × (port ≤ 65535)

unprivileged-some : (o : Option ℕ) {port : ℕ} → unprivileged o ≡ some port → o ≡ some port
unprivileged-some none h = cc
unprivileged-some (some n) h = ground arith

unprivileged_fit : (port : ℕ) → IsFit port → unprivileged (some port) ≡ some port
unprivileged_fit port h = ground arith

set_ports-more :
    (v v' : Value) (vs vs' : Items) (port : ℕ) (ports : List ℕ)
    → set_port port v ≡ some v'
    → set_ports vs ports ≡ some vs'
    → set_ports (more v vs) (port ∷ ports) ≡ some (more v' vs')
unfolding set_ports
set_ports-more v v' vs vs' port ports h k = rw (h, k)

ports_of-more :
    (v : Value) (vs : List Value) (port : ℕ) (ports : List ℕ)
    → u64_at (str "port") v ≡ some port
    → IsFit port
    → ports_of vs ≡ ok ports
    → ports_of (v ∷ vs) ≡ ok (port ∷ ports)
unfolding ports_of
ports_of-more v vs port ports h fit k =
    let fine : unprivileged (u64_at (str "port") v) ≡ some port =
      ap unprivileged h ∙ unprivileged_fit port fit in
    rw (fine, k)

pub set_ports_lem :
    (vs : Items) (ports old : List ℕ)
    → length_items vs ≡ length ports
    → All IsFit ports
    → ports_of (items vs) ≡ ok old
    → (vs' : Items) × (set_ports vs ports ≡ some vs')
      × (ports_of (items vs') ≡ ok ports)
      × (length (items vs') ≡ length ports)
unfolding ports_of set_ports items length_items
set_ports_lem empty [] old e f h = (empty, refl, refl, refl)
set_ports_lem empty (p ∷ ps) old e f h = absurd (omega arith)
set_ports_lem (more v vs) [] old e f h = absurd (omega arith)
set_ports_lem (more v vs) (p ∷ ps) old e (fit, fits) h =
    let (before, b, h1) = >>=-ok _ _ h in
    let (rest, r, _) = >>=-ok (ports_of (items vs)) _ h1 in
    let read : u64_at (str "port") v ≡ some before =
      unprivileged-some (u64_at (str "port") v) (ok_or-ok _ _ b) in
    let (v', set, now) = set_port_lem p v read in
    let (vs', sets, same, size) = set_ports_lem vs ps rest (omega (arith, e)) fits r in
    (
      more v' vs',
      set_ports-more v v' vs vs' p ps set sets,
      ports_of-more v' (items vs') p ps now fit same,
      omega (arith, size),
    )
