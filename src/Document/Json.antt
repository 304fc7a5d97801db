-- ===== src/Document/Json.antt =====
-- `serde_json::Value`, its readers that daemon/src/system.rs calls, and its two directions as parameters.
use varmlen_client_linux.Base.{
  ℕ, Bool, false, not, ◌||◌, List, [], ◌∷◌, Option, none, some, Result, if◌then◌else◌, any,
}
use varmlen_client_linux.Base.Text.{Str, str_eq}

-- A number of 64 bits without sign, one below zero by its size, or a fraction by its bits.
pub data Number : Type 0 where
  unsigned negative float : ℕ → Number

mutual
  pub data Value : Type 0 where
    null : Value
    boolean : Bool → Value
    number : Number → Value
    text : Str → Value
    array : Items → Value
    object : Fields → Value

  pub data Items : Type 0 where
    empty : Items
    more : Value → Items → Items

  pub data Fields : Type 0 where
    closed : Fields
    member : Str → Value → Fields → Fields

-- `serde_json::from_str` and `serde_json::to_string`, each with what it says of a failure.
pub record Parser : Type 0 where
  pub from_str : Str → Result Str Value
  pub to_string : Value → Result Str Str

unfoldable pub items : Items → List Value
items empty = []
items (more v vs) = v ∷ items vs

unfoldable pub entries : Fields → List (Str × Value)
entries closed = []
entries (member key v fs) = (key, v) ∷ entries fs

abbrev pub as_str : Value → Option Str
as_str (text s) = some s
as_str _ = none

abbrev pub as_bool : Value → Option Bool
as_bool (boolean b) = some b
as_bool _ = none

abbrev pub as_u64 : Value → Option ℕ
as_u64 (number (unsigned n)) = some n
as_u64 _ = none

abbrev pub as_array : Value → Option (List Value)
as_array (array vs) = some (items vs)
as_array _ = none

unfoldable pub as_object : Value → Option Fields
as_object (object fs) = some fs
as_object _ = none

-- The members of a map stand in the order in which they are iterated, which nothing here reads.
unfoldable pub lookup : Str → Fields → Option Value
lookup key closed = none
lookup key (member k v fs) = if str_eq k key then some v else lookup key fs

unfoldable pub insert : Str → Value → Fields → Fields
insert key v closed = member key v closed
insert key v (member k w fs) = if str_eq k key then member k v fs else member k w (insert key v fs)

unfoldable pub get : Str → Value → Option Value
get key (object fs) = lookup key fs
get key _ = none

abbrev pub and_then {ℓ κ} : {A : Type ℓ} {B : Type κ} → Option A → (A → Option B) → Option B
and_then none f = none
and_then (some a) f = f a

-- `value.get(key).and_then(Value::as_str)`, and the like.
abbrev pub str_at : Str → Value → Option Str
str_at key v = and_then (get key v) as_str

abbrev pub u64_at : Str → Value → Option ℕ
u64_at key v = and_then (get key v) as_u64

abbrev pub array_at : Str → Value → Option (List Value)
array_at key v = and_then (get key v) as_array

abbrev pub object_at : Str → Value → Option Fields
object_at key v = and_then (get key v) as_object

-- `value.pointer("/key/…")`, at keys that are no numbers.
unfoldable pub pointer : List Str → Value → Option Value
pointer [] v = some v
pointer (key ∷ keys) v = and_then (get key v) (pointer keys)

-- `option == Some(text)`
abbrev pub is_text : Option Str → Str → Bool
is_text none s = false
is_text (some t) s = str_eq t s

-- `matches!(text, "…" | "…")`
abbrev pub one_of : List Str → Str → Bool
one_of words s = any (λ word. str_eq s word) words

abbrev pub is_one_of : Option Str → List Str → Bool
is_one_of none words = false
is_one_of (some s) words = one_of words s

-- `object.keys().any(|key| !matches!(key, …))`
unfoldable pub has_other_key : List Str → Fields → Bool
has_other_key words closed = false
has_other_key words (member key v fs) = not (one_of words key) || has_other_key words fs
