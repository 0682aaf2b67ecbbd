-- ===== src/Resolver/Path.antt =====
-- src/dokan_impl/adapter/state.rs: `normalized_components` and `normalize_path`. A path is the text
-- that `to_string_lossy` gives.
use confuse.Common.{ℕ, Bool, ◌||◌, not, List, [], ◌∷◌, ◌++◌, map, filter, ◌==◌, if◌then◌else◌}
use confuse.Common.Text.{Text, text_eq, ends_with, is_empty, split, join}
use confuse.Resolver.State.{Env}

abbrev pub backslash : ℕ
backslash = 92

abbrev pub slash : ℕ
slash = b'/'

abbrev pub colon : ℕ
colon = b':'

abbrev pub dot : Text
dot = b'.' ∷ []

abbrev pub dot_dot : Text
dot_dot = b'.' ∷ b'.' ∷ []

-- The text `\`.
abbrev pub root_path : Text
root_path = backslash ∷ []

abbrev pub is_separator : ℕ → Bool
is_separator c = c == backslash || c == slash

-- `Vec::pop`, without the popped element.
unfoldable pub drop_last : List Text → List Text
drop_last [] = []
drop_last (p ∷ []) = []
drop_last (p ∷ q ∷ ps) = p ∷ drop_last (q ∷ ps)

-- One round of the loop of `normalized_components`.
unfoldable pub add_component : List Text → Text → List Text
unfolding ends_with text_eq drop_last
add_component components component =
    if ends_with colon component || text_eq component dot
    then components
    else if text_eq component dot_dot
    then drop_last components
    else components ++ component ∷ []

unfoldable pub add_components : List Text → List Text → List Text
unfolding add_component
add_components components [] = components
add_components components (p ∷ ps) = add_components (add_component components p) ps

unfoldable pub normalized_components : Text → List Text
unfolding add_components split is_empty
normalized_components path =
    add_components [] (filter (λ p. not (is_empty p)) (split is_separator path))

-- The key of a list of components.
unfoldable pub key_of : List Text → Text
unfolding join
key_of [] = root_path
key_of (p ∷ ps) = backslash ∷ join root_path (p ∷ ps)

unfoldable pub normalize_path : Env → Text → Text
unfolding normalized_components key_of
normalize_path env path = key_of (map env.to_lowercase (normalized_components path))
