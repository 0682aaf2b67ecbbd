-- ===== src/Common/Assoc.antt =====
-- Hash maps with text keys, as association lists: `get`, `remove`, `insert`, and their laws.
-- The order of the list is the order of iteration, which no theorem fixes.
use mathlib.Core.Path.{◌≡◌, refl}
use mathlib.Core.Bool.{false}
use mathlib.Core.Option.{Option, none, some}
use mathlib.Core.List.{List, [], ◌∷◌}
use native.Mathlib.Omega.{arith}
use confuse.Common.Tests.{if◌then◌else◌}
use confuse.Common.Text.{Text, text_eq, text_eq_iff}

module _ {ℓ} {V : Type ℓ} where
  unfoldable pub get : Text → List (Text × V) → Option V
  get k [] = none
  get k ((j, v) ∷ m) = if text_eq j k then some v else get k m

  unfoldable pub remove : Text → List (Text × V) → List (Text × V)
  remove k [] = []
  remove k ((j, v) ∷ m) = let rest = remove k m in if text_eq j k then m else (j, v) ∷ rest

  unfoldable pub insert : Text → V → List (Text × V) → List (Text × V)
  insert k v m = (k, v) ∷ remove k m

  -- No key stands twice.
  abbrev pub Distinct : List (Text × V) → Type ℓ
  Distinct [] = Unit
  Distinct ((k, v) ∷ m) = (get k m ≡ none) × Distinct m

  pub get-remove_ne :
      (k j : Text) (m : List (Text × V)) → text_eq k j ≡ false → get j (remove k m) ≡ get j m
  unfolding get remove
  get-remove_ne k j [] h = refl
  get-remove_ne k j ((i, v) ∷ m) h =
      ground (arith, get-remove_ne k j m h, text_eq_iff i k, text_eq_iff i j, text_eq_iff k j)

  pub get-remove_self : (k : Text) (m : List (Text × V)) → Distinct m → get k (remove k m) ≡ none
  unfolding get remove
  get-remove_self k [] d = refl
  get-remove_self k ((i, v) ∷ m) d = ground (arith, get-remove_self k m d.1, text_eq_iff i k)

  pub get-remove-none :
      (k j : Text) (m : List (Text × V)) → get j m ≡ none → get j (remove k m) ≡ none
  unfolding get remove
  get-remove-none k j [] h = refl
  get-remove-none k j ((i, v) ∷ m) h = ground (arith, get-remove-none k j m)

  pub remove-Distinct : (k : Text) (m : List (Text × V)) → Distinct m → Distinct (remove k m)
  unfolding remove
  remove-Distinct k [] d = d
  remove-Distinct k ((i, v) ∷ m) d =
      ground (arith, remove-Distinct k m d.1, get-remove-none k i m d.0)

  pub insert-Distinct :
      (k : Text) (v : V) (m : List (Text × V)) → Distinct m → Distinct (insert k v m)
  unfolding insert
  insert-Distinct k v m d = (get-remove_self k m d, remove-Distinct k m d)

  pub get-insert_self : (k : Text) (v : V) (m : List (Text × V)) → get k (insert k v m) ≡ some v
  unfolding get insert
  get-insert_self k v m = ground (arith, text_eq_iff k k)

  pub get-insert_ne :
      (k j : Text) (v : V) (m : List (Text × V))
      → text_eq k j ≡ false
      → get j (insert k v m) ≡ get j m
  unfolding get insert
  get-insert_ne k j v m h = ground (arith, get-remove_ne k j m h)
