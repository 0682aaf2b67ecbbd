-- ===== src/Adapter/Remapped.antt =====
-- src/dokan_impl/adapter/routes.rs: what `remap_descendant_keys` does to a key that a rename moves.
use confuse.Common.{◌≡◌, Bool, false, ◌||◌, some, List, [], ◌∷◌}
use confuse.Common.Text.{Text, text_eq}
use confuse.Helpers.Names.{rename_descendant_path_key}

abbrev is_listed : Text → List Text → Bool
is_listed key [] = false
is_listed key (k ∷ ks) = text_eq k key || is_listed key ks

module _ {T : Type 0} (old_root new_root key new_key : Text) (value : T)
    (moves : rename_descendant_path_key old_root new_root key ≡ some new_key)
    (only : (k : Text)
      → rename_descendant_path_key old_root new_root k ≡ some new_key
      → k ≡ key) where
  -- Every pair at the new key holds the value.
  abbrev Same : List (Text × T) → Type 0
  Same [] = Unit
  Same ((k, v) ∷ pairs) = (k ≡ new_key → v ≡ value) × Same pairs
