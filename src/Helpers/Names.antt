-- ===== src/Helpers/Names.antt =====
-- src/dokan_impl/helpers.rs: paths as texts.
use confuse.Common.{not, ◌&&◌, Option, none, some, List, [], ◌∷◌, ◌++◌, filter, if◌then◌else◌}
use confuse.Common.Text.{Text, text_eq, ends_with, is_empty, split, join, strip_prefix}
use confuse.Resolver.Path.{backslash, colon, root_path, is_separator, drop_last}

unfoldable pub last_or_empty : List Text → Text
last_or_empty [] = []
last_or_empty (p ∷ []) = p
last_or_empty (p ∷ q ∷ ps) = last_or_empty (q ∷ ps)

unfoldable pub name_parts : Text → List Text
unfolding split is_empty ends_with
name_parts raw =
    filter (λ part. not (is_empty part) && not (ends_with colon part)) (split is_separator raw)

-- The path of the parent's parts.
unfoldable pub parent_path : List Text → Text
unfolding join
parent_path [] = root_path
parent_path (p ∷ ps) = backslash ∷ join root_path (p ∷ ps)

unfoldable pub parent_and_leaf : List Text → Text × Text
unfolding parent_path drop_last last_or_empty
parent_and_leaf [] = ([], [])
parent_and_leaf (p ∷ ps) = (parent_path (drop_last (p ∷ ps)), last_or_empty (p ∷ ps))

unfoldable pub split_parent_and_name : Text → Text × Text
unfolding name_parts parent_and_leaf
split_parent_and_name path = parent_and_leaf (name_parts path)

-- A text that ends in a backslash.
unfoldable pub with_backslash : Text → Text
unfolding ends_with
with_backslash base = if not (ends_with backslash base) then base ++ backslash ∷ [] else base

unfoldable pub join_child_path : Text → Text → Text
unfolding with_backslash
join_child_path parent name = with_backslash parent ++ name

unfoldable pub rename_descendant_path_key : Text → Text → Text → Option Text
unfolding with_backslash strip_prefix text_eq
rename_descendant_path_key old_root new_root key =
    if text_eq key old_root
    then some new_root
    else elim (strip_prefix (with_backslash old_root) key) [
      | some rest ↦ some (with_backslash new_root ++ rest)
      | none ↦ none
    ]

-- src/dokan_impl/adapter/path_routes.rs
unfoldable pub child_path_from_parent : Text → Text → Text
unfolding text_eq
child_path_from_parent parent component =
    if text_eq parent root_path then backslash ∷ component else parent ++ (backslash ∷ component)
