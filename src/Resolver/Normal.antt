-- ===== src/Resolver/Normal.antt =====
-- src/dokan_impl/adapter/state.rs: the components that `normalized_components` gives, and the keys
-- that `normalize_path` makes of them.
use confuse.Common.{
  ℕ, ◌≡◌, refl, ◌∙◌, ap, sym, ◌↔◌, inl, inr, Bool, true, false, not, ◌||◌, List, [], ◌∷◌, ◌++◌, map,
  filter, if◌then◌else◌, Bool-cases,
}
use mathlib.Core.List.{append-nil, append_assoc}
use confuse.Common.Text.{Text, text_eq, ends_with, is_empty, split, push_head, join}
use confuse.Resolver.State.{Env}
use confuse.Resolver.Path.{
  backslash, colon, dot, dot_dot, root_path, is_separator, drop_last, add_component, add_components,
  normalized_components, key_of, normalize_path,
}

-- Every element of a list.
abbrev pub All {ℓ κ} : {A : Type ℓ} → (A → Type κ) → List A → Type κ
All P [] = Unit
All P (x ∷ xs) = P x × All P xs

-- A text with no separator.
abbrev pub IsPiece : Text → Type 0
IsPiece = All (λ c. is_separator c ≡ false)

-- A component that names something below its parent.
pub record IsComponent (p : Text) : Type 0 where
  pub piece : IsPiece p
  pub full : is_empty p ≡ false
  pub no_drive : ends_with colon p ≡ false
  pub no_dot : text_eq p dot ≡ false
  pub no_dot_dot : text_eq p dot_dot ≡ false

All-append {ℓ κ} :
    {A : Type ℓ} (P : A → Type κ) (xs ys : List A) → All P xs → All P ys → All P (xs ++ ys)
All-append P [] ys h k = k
All-append P (x ∷ xs) ys h k = (h.0, All-append P xs ys h.1 k)

push_head-pieces :
    (c : ℕ) (ps : List Text)
    → is_separator c ≡ false
    → All IsPiece ps
    → All IsPiece (push_head c ps)
push_head-pieces c [] h a = ((h, tt), tt)
push_head-pieces c (p ∷ ps) h a = ((h, a.0), a.1)

split-pieces : (s : Text) → All IsPiece (split is_separator s)
unfolding split
split-pieces [] = (tt, tt)
split-pieces (c ∷ s) = elim (Bool-cases (is_separator c)) [
  | inl sep ↦ rw (sep, split) (tt, split-pieces s)
  | inr no_sep ↦ rw (no_sep, split) (push_head-pieces c _ no_sep (split-pieces s))
]

-- A piece that the loop reads, which is not empty.
IsFull : Text → Type 0
IsFull p = IsPiece p × (is_empty p ≡ false)

filter-IsFull : (ps : List Text) → All IsPiece ps → All IsFull (filter (λ p. not (is_empty p)) ps)
unfolding IsFull
filter-IsFull [] a = tt
filter-IsFull (p ∷ ps) a = elim (Bool-cases (is_empty p)) [
  | inl e ↦ rw (e, if◌then◌else◌) (filter-IsFull ps a.1)
  | inr e ↦ rw (e, if◌then◌else◌) ((a.0, e), filter-IsFull ps a.1)
]

drop_last-All {κ} : (P : Text → Type κ) (ps : List Text) → All P ps → All P (drop_last ps)
unfolding drop_last
drop_last-All P [] a = a
drop_last-All P (p ∷ []) a = a.1
drop_last-All P (p ∷ q ∷ ps) a = (a.0, drop_last-All P (q ∷ ps) a.1)

add_component-components :
    (ps : List Text) (p : Text)
    → IsFull p
    → All IsComponent ps
    → All IsComponent (add_component ps p)
unfolding add_component IsFull
add_component-components ps p h a = by_test _ _ _ refl refl refl
  where
    by_test :
        (b c d : Bool)
        → ends_with colon p ≡ b
        → text_eq p dot ≡ c
        → text_eq p dot_dot ≡ d
        → All IsComponent (if b || c then ps else if d then drop_last ps else ps ++ p ∷ [])
    by_test true c d e f g = a
    by_test false true d e f g = a
    by_test false false true e f g = drop_last-All IsComponent ps a
    by_test false false false e f g =
        All-append IsComponent ps (p ∷ []) a
          (record { piece = h.0; full = h.1; no_drive = e; no_dot = f; no_dot_dot = g }, tt)

add_components-components :
    (ps qs : List Text)
    → All IsFull qs
    → All IsComponent ps
    → All IsComponent (add_components ps qs)
unfolding add_components
add_components-components ps [] h a = a
add_components-components ps (q ∷ qs) h a =
    add_components-components (add_component ps q) qs h.1 (add_component-components ps q h.0 a)

-- Whatever the path, its components are non-empty names with no separator, no drive, no `.` and no
-- `..`: none of them leads out of the volume.
pub normalized_components-components : (path : Text) → All IsComponent (normalized_components path)
unfolding normalized_components
normalized_components-components path =
    add_components-components [] _ (filter-IsFull _ (split-pieces path)) tt

split-piece : (p : Text) → IsPiece p → split is_separator p ≡ p ∷ []
unfolding split
split-piece [] a = refl
split-piece (c ∷ p) a = rw (a.0, split) (ap (push_head c) (split-piece p a.1))

split-piece_sep :
    (p s : Text) → IsPiece p → split is_separator (p ++ backslash ∷ s) ≡ p ∷ split is_separator s
unfolding split
split-piece_sep [] s a = refl
split-piece_sep (c ∷ p) s a = rw (a.0, split) (ap (push_head c) (split-piece_sep p s a.1))

pub split-join :
    (p : Text) (ps : List Text)
    → All IsComponent (p ∷ ps)
    → split is_separator (join root_path (p ∷ ps)) ≡ p ∷ ps
unfolding join
split-join p [] a = split-piece p a.0.piece
split-join p (q ∷ ps) a =
    split-piece_sep p (join root_path (q ∷ ps)) a.0.piece ∙ ap (◌∷◌ p) (split-join q ps a.1)

filter-components : (ps : List Text) → All IsComponent ps → filter (λ p. not (is_empty p)) ps ≡ ps
filter-components [] a = refl
filter-components (p ∷ ps) a = rw (a.0.full, if◌then◌else◌) (ap (◌∷◌ p) (filter-components ps a.1))

add_component-push : (ps : List Text) (p : Text) → IsComponent p → add_component ps p ≡ ps ++ p ∷ []
unfolding add_component
add_component-push ps p h = rw (h.no_drive, h.no_dot, h.no_dot_dot)

add_components-append : (ps qs : List Text) → All IsComponent qs → add_components ps qs ≡ ps ++ qs
unfolding add_components
add_components-append ps [] a = sym (append-nil ps)
add_components-append ps (q ∷ qs) a =
    ap (λ z. add_components z qs) (add_component-push ps q a.0)
    ∙ add_components-append (ps ++ q ∷ []) qs a.1
    ∙ append_assoc ps (q ∷ []) qs

-- Reading the key of a list of components gives the list back.
pub normalized_components-key_of :
    (ps : List Text) → All IsComponent ps → normalized_components (key_of ps) ≡ ps
unfolding normalized_components key_of
normalized_components-key_of [] a = refl
normalized_components-key_of (p ∷ ps) a =
    ap (λ z. add_components [] (filter (λ q. not (is_empty q)) ([] ∷ z))) (split-join p ps a)
    ∙ ap (add_components []) (filter-components (p ∷ ps) a)
    ∙ add_components-append [] (p ∷ ps) a

map-components :
    (f : Text → Text)
    → ((p : Text) → IsComponent p → IsComponent (f p))
    → (ps : List Text) → All IsComponent ps
    → All IsComponent (map f ps)
map-components f keeps [] a = tt
map-components f keeps (p ∷ ps) a = (keeps p a.0, map-components f keeps ps a.1)

map_twice :
    (f : Text → Text)
    → ((p : Text) → f (f p) ≡ f p)
    → (ps : List Text) → map f (map f ps) ≡ map f ps
map_twice f twice [] = refl
map_twice f twice (p ∷ ps) = λ i. twice p i ∷ map_twice f twice ps i

-- What the keys rely on of `str::to_lowercase`: it turns a file name into a file name, and a text
-- in lower case into itself.
pub record IsLowercase (f : Text → Text) : Type 0 where
  pub keeps : (p : Text) → IsComponent p → IsComponent (f p)
  pub twice : (p : Text) → f (f p) ≡ f p

module _ (env : Env) (lower : IsLowercase env.to_lowercase) where
  lowered : (path : Text) → All IsComponent (map env.to_lowercase (normalized_components path))
  lowered path =
      map-components env.to_lowercase lower.keeps (normalized_components path)
        (normalized_components-components path)

  -- When lowercasing turns components into components and is idempotent: normalising a normalised path
  -- again changes nothing.
  pub normalize_path_twice :
      (path : Text) → normalize_path env (normalize_path env path) ≡ normalize_path env path
  unfolding normalize_path
  normalize_path_twice path =
      ap (λ z. key_of (map env.to_lowercase z)) (normalized_components-key_of _ (lowered path))
      ∙ ap key_of (map_twice env.to_lowercase lower.twice (normalized_components path))

  -- When lowercasing turns components into components and is idempotent: two paths share a key exactly
  -- when their components agree up to case.
  pub normalize_path-eq_iff :
      (s t : Text)
      → (normalize_path env s ≡ normalize_path env t) ↔ (
          map env.to_lowercase (normalized_components s)
          ≡ map env.to_lowercase (normalized_components t))
  unfolding normalize_path
  normalize_path-eq_iff s t = (
    λ h.
        sym (normalized_components-key_of _ (lowered s))
        ∙ ap normalized_components h
        ∙ normalized_components-key_of _ (lowered t),
    λ h. ap key_of h,
  )
