-- ===== src/Adapter/Remap.antt =====
-- src/dokan_impl/adapter/routes.rs: `remap_descendant_keys`, on any map with paths as keys.
use confuse.Common.{Option, none, some, List, [], ◌∷◌, map}
use confuse.Common.Text.{Text}
use confuse.Common.Assoc.{get, remove, insert}
use confuse.Helpers.Names.{rename_descendant_path_key}

module _ {T : Type 0} where
  -- `items.remove(&key).map(|value| (next_key, value))`, before the other pairs.
  unfoldable pub moved : Text → Option T → List (Text × T) → List (Text × T)
  moved next_key none rest = rest
  moved next_key (some value) rest = (next_key, value) ∷ rest

  -- `items.extend(remapped)`
  unfoldable pub extend : List (Text × T) → List (Text × T) → List (Text × T)
  unfolding insert
  extend [] items = items
  extend ((key, value) ∷ rest) items = extend rest (insert key value items)

module _ {T : Type 0} (old_root new_root : Text) where
  -- The closure of `filter_map` over the keys: the pairs that it gives, and the map without them.
  unfoldable pub take_descendants : List Text → List (Text × T) → List (Text × T) × List (Text × T)
  unfolding moved
  take_descendants [] items = ([], items)
  take_descendants (key ∷ keys) items = elim (rename_descendant_path_key old_root new_root key) [
    | none ↦ take_descendants keys items
    | some next_key ↦
        let (rest, items') = take_descendants keys (remove key items) in
        (moved next_key (get key items) rest, items')
  ]

  unfoldable pub remap_descendant_keys : List (Text × T) → List (Text × T)
  unfolding take_descendants extend
  remap_descendant_keys items =
      let (remapped, items') = take_descendants (map (λ e. e.0) items) items in
      extend remapped items'
