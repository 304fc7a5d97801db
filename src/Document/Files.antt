-- ===== src/Document/Files.antt =====
-- A member of any object inside a document, however deep (daemon/src/system.rs,
-- `contains_forbidden_file_key`).
use varmlen_client_linux.Base.{false, ◌≡◌, ◌∙◌, ap, sym, or_false}
use varmlen_client_linux.Base.Text.{Str}
use varmlen_client_linux.Document.Json.{Value, array, object, Items, more, Fields, member, one_of}
use varmlen_client_linux.Document.Checks.{
  contains_forbidden_file_key, any_forbidden, any_forbidden_field, file_keys,
}

mutual
  pub data HasKey (key : Str) : Value → Type 0 where
    in_array : {vs : Items} → HasKeyInItems key vs → HasKey key (array vs)
    in_object : {fs : Fields} → HasKeyInFields key fs → HasKey key (object fs)

  pub data HasKeyInItems (key : Str) : Items → Type 0 where
    first : {v : Value} {vs : Items} → HasKey key v → HasKeyInItems key (more v vs)
    later : {v : Value} {vs : Items} → HasKeyInItems key vs → HasKeyInItems key (more v vs)

  pub data HasKeyInFields (key : Str) : Fields → Type 0 where
    here : {k : Str} {v : Value} {fs : Fields} → k ≡ key → HasKeyInFields key (member k v fs)
    below : {k : Str} {v : Value} {fs : Fields} → HasKey key v → HasKeyInFields key (member k v fs)
    behind :
        {k : Str} {v : Value} {fs : Fields}
        → HasKeyInFields key fs
        → HasKeyInFields key (member k v fs)

mutual
  unfolding contains_forbidden_file_key

  pub not_file_key :
      {key : Str} {v : Value}
      → HasKey key v
      → contains_forbidden_file_key v ≡ false
      → one_of file_keys key ≡ false
  not_file_key (in_array h) e = not_file_key_in_items h e
  not_file_key (in_object h) e = not_file_key_in_fields h e

  not_file_key_in_items :
      {key : Str} {vs : Items}
      → HasKeyInItems key vs
      → any_forbidden vs ≡ false
      → one_of file_keys key ≡ false
  not_file_key_in_items (first h) e = not_file_key h (or_false _ _ e).0
  not_file_key_in_items (later h) e = not_file_key_in_items h (or_false _ _ e).1

  not_file_key_in_fields :
      {key : Str} {fs : Fields}
      → HasKeyInFields key fs
      → any_forbidden_field fs ≡ false
      → one_of file_keys key ≡ false
  not_file_key_in_fields (here p) e =
      ap (one_of file_keys) (sym p) ∙ (or_false _ _ (or_false _ _ e).0).0
  not_file_key_in_fields (below h) e = not_file_key h (or_false _ _ (or_false _ _ e).0).1
  not_file_key_in_fields (behind h) e = not_file_key_in_fields h (or_false _ _ e).1
