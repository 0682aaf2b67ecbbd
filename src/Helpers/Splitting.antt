-- ===== src/Helpers/Splitting.antt =====
-- src/dokan_impl/helpers.rs: splitting a path into parent and leaf against building it, and moving
-- the key of an open path with its root.
use confuse.Common.{
  ℕ, ◌≡◌, refl, ◌∙◌, ap, ◌⊎◌, inl, inr, Bool, true, false, not, ◌&&◌, Option, none, some, List, [],
  ◌∷◌, ◌++◌, filter, if◌then◌else◌, arith,
}
use mathlib.Core.List.{append_assoc}
use confuse.Common.Text.{
  Text, text_eq, text_eq_self, eq_of_text_eq, ends_with, is_empty, join, strip_prefix,
  strip_prefix-append, eq_of_strip_prefix,
}
use confuse.Resolver.Path.{backslash, colon, root_path, drop_last, key_of}
use confuse.Resolver.Normal.{All, IsComponent, split-join}
use confuse.Helpers.Names.{
  name_parts, parent_path, parent_and_leaf, split_parent_and_name, last_or_empty, with_backslash,
  rename_descendant_path_key, child_path_from_parent,
}

filter-named :
    (ps : List Text)
    → All IsComponent ps
    → filter (λ part. not (is_empty part) && not (ends_with colon part)) ps ≡ ps
filter-named [] a = refl
filter-named (p ∷ ps) a =
    rw (a.0.full, a.0.no_drive, if◌then◌else◌) (ap (◌∷◌ p) (filter-named ps a.1))

name_parts-key_of :
    (p : Text) (ps : List Text) → All IsComponent (p ∷ ps) → name_parts (key_of (p ∷ ps)) ≡ p ∷ ps
unfolding name_parts key_of
name_parts-key_of p ps a =
    ap (λ z. filter (λ part. not (is_empty part) && not (ends_with colon part)) ([] ∷ z))
      (split-join p ps a)
    ∙ filter-named (p ∷ ps) a

parent_path-key_of : (ps : List Text) → parent_path ps ≡ key_of ps
unfolding parent_path key_of
parent_path-key_of [] = refl
parent_path-key_of (p ∷ ps) = refl

drop_last-push : (ps : List Text) (leaf : Text) → drop_last (ps ++ leaf ∷ []) ≡ ps
unfolding drop_last
drop_last-push [] leaf = refl
drop_last-push (p ∷ []) leaf = refl
drop_last-push (p ∷ q ∷ ps) leaf = ap (◌∷◌ p) (drop_last-push (q ∷ ps) leaf)

last_or_empty-push : (ps : List Text) (leaf : Text) → last_or_empty (ps ++ leaf ∷ []) ≡ leaf
unfolding last_or_empty
last_or_empty-push [] leaf = refl
last_or_empty-push (p ∷ []) leaf = refl
last_or_empty-push (p ∷ q ∷ ps) leaf = last_or_empty-push (q ∷ ps) leaf

parent_and_leaf-push :
    (ps : List Text) (leaf : Text) → parent_and_leaf (ps ++ leaf ∷ []) ≡ (key_of ps, leaf)
unfolding parent_and_leaf
parent_and_leaf-push [] leaf = λ i. (parent_path-key_of [] i, leaf)
parent_and_leaf-push (p ∷ ps) leaf = λ i. (
  (ap parent_path (drop_last-push (p ∷ ps) leaf) ∙ parent_path-key_of (p ∷ ps)) i,
  last_or_empty-push (p ∷ ps) leaf i,
)

join-push :
    (p : Text) (ps : List Text) (leaf : Text)
    → join root_path (p ∷ ps) ++ backslash ∷ leaf ≡ join root_path (p ∷ ps ++ leaf ∷ [])
unfolding join
join-push p [] leaf = refl
join-push p (q ∷ ps) leaf =
    append_assoc p (backslash ∷ join root_path (q ∷ ps)) (backslash ∷ leaf)
    ∙ ap (λ z. p ++ backslash ∷ z) (join-push q ps leaf)

longer_than_root : (s : Text) → is_empty s ≡ false → text_eq (backslash ∷ s) root_path ≡ false
unfolding is_empty text_eq
longer_than_root [] h = cc
longer_than_root (c ∷ s) h = refl

join-full :
    (p : Text) (ps : List Text) → is_empty p ≡ false → is_empty (join root_path (p ∷ ps)) ≡ false
unfolding join is_empty
join-full p [] h = h
join-full [] (q ∷ ps) h = cc
join-full (c ∷ p) (q ∷ ps) h = refl

child_path_from_parent-key_of :
    (ps : List Text) (leaf : Text)
    → All IsComponent ps
    → child_path_from_parent (key_of ps) leaf ≡ key_of (ps ++ leaf ∷ [])
unfolding child_path_from_parent key_of text_eq
child_path_from_parent-key_of [] leaf a = refl
child_path_from_parent-key_of (p ∷ ps) leaf a =
    rw (longer_than_root (join root_path (p ∷ ps)) (join-full p ps a.0.full), if◌then◌else◌)
      (ap (λ z. backslash ∷ z) (join-push p ps leaf))

split_parent_and_name-key_of :
    (ps : List Text) (leaf : Text)
    → All IsComponent (ps ++ leaf ∷ [])
    → split_parent_and_name (key_of (ps ++ leaf ∷ [])) ≡ (key_of ps, leaf)
unfolding split_parent_and_name
split_parent_and_name-key_of [] leaf a =
    ap parent_and_leaf (name_parts-key_of leaf [] a) ∙ parent_and_leaf-push [] leaf
split_parent_and_name-key_of (p ∷ ps) leaf a =
    ap parent_and_leaf (name_parts-key_of p (ps ++ leaf ∷ []) a)
    ∙ parent_and_leaf-push (p ∷ ps) leaf

components-append :
    (ps : List Text) (leaf : Text)
    → All IsComponent ps
    → IsComponent leaf
    → All IsComponent (ps ++ leaf ∷ [])
components-append [] leaf a h = (h, tt)
components-append (p ∷ ps) leaf a h = (a.0, components-append ps leaf a.1 h)

-- The path that the resolver builds for a child of a directory splits into that directory's path
-- and the child's name again, when the directory's parts and the name are components.
pub split_parent_and_name-child_path :
    (ps : List Text) (leaf : Text)
    → All IsComponent ps
    → IsComponent leaf
    → split_parent_and_name (child_path_from_parent (key_of ps) leaf) ≡ (key_of ps, leaf)
split_parent_and_name-child_path ps leaf a h =
    ap split_parent_and_name (child_path_from_parent-key_of ps leaf a)
    ∙ split_parent_and_name-key_of ps leaf (components-append ps leaf a h)

-- A key that a rename gives, from the new root back to the old one.
text_eq_longer : (s : Text) (c : ℕ) (t : Text) → text_eq (s ++ c ∷ t) s ≡ false
unfolding text_eq
text_eq_longer [] c t = refl
text_eq_longer (d ∷ s) c t = ground (arith, text_eq_longer s c t)

with_backslash-push :
    (s : Text) → ends_with backslash s ≡ false → with_backslash s ≡ s ++ backslash ∷ []
unfolding with_backslash
with_backslash-push s h = rw (h, if◌then◌else◌)

renamed_below :
    (old_root new_root rest : Text)
    → ends_with backslash old_root ≡ false
    → rename_descendant_path_key old_root new_root (with_backslash old_root ++ rest)
      ≡ some (with_backslash new_root ++ rest)
unfolding rename_descendant_path_key
renamed_below old_root new_root rest h = rw (
  ap (λ z. text_eq (z ++ rest) old_root) (with_backslash-push old_root h)
      ∙ ap (λ z. text_eq z old_root) (append_assoc old_root (backslash ∷ []) rest)
      ∙ text_eq_longer old_root backslash rest,
  if◌then◌else◌,
  strip_prefix-append (with_backslash old_root) rest,
)

renamed_root :
    (old_root new_root : Text)
    → rename_descendant_path_key old_root new_root old_root ≡ some new_root
unfolding rename_descendant_path_key
renamed_root old_root new_root = rw (text_eq_self old_root, if◌then◌else◌)

-- A key that a rename does change is the old root, which becomes the new one, or lies below it.
renamed-cases :
    (old_root new_root key new_key : Text)
    → rename_descendant_path_key old_root new_root key ≡ some new_key
    → ((key ≡ old_root) × (new_key ≡ new_root))
      ⊎ ((rest : Text) × (key ≡ with_backslash old_root ++ rest)
          × (new_key ≡ with_backslash new_root ++ rest))
unfolding rename_descendant_path_key
renamed-cases old_root new_root key new_key h = by_test _ _ refl refl h
  where
    by_test :
        (b : Bool) (o : Option Text)
        → text_eq key old_root ≡ b
        → strip_prefix (with_backslash old_root) key ≡ o
        → (let y : Option Text =
              if b
              then some new_root
              else elim o [ some rest ↦ some (with_backslash new_root ++ rest) | none ↦ none ] in
            y)
          ≡ some new_key
        → ((key ≡ old_root) × (new_key ≡ new_root))
          ⊎ ((rest : Text) × (key ≡ with_backslash old_root ++ rest)
              × (new_key ≡ with_backslash new_root ++ rest))
    by_test true o e f h = inl (eq_of_text_eq key old_root e, cc)
    by_test false (some rest) e f h =
        inr (rest, eq_of_strip_prefix (with_backslash old_root) key rest f, cc)
    by_test false none e f h = cc

-- When neither root ends in a backslash, renaming back restores a key: the keys below the old root
-- and those below the new one correspond one to one.
pub rename_descendant_path_key-back :
    (old_root new_root key new_key : Text)
    → ends_with backslash old_root ≡ false
    → ends_with backslash new_root ≡ false
    → rename_descendant_path_key old_root new_root key ≡ some new_key
    → rename_descendant_path_key new_root old_root new_key ≡ some key
rename_descendant_path_key-back old_root new_root key new_key a b h =
    elim (renamed-cases old_root new_root key new_key h) [
      | inl (e, f) ↦ rw (e, f) (renamed_root new_root old_root)
      | inr (rest, e, f) ↦ rw (e, f) (renamed_below new_root old_root rest b)
    ]
