-- ===== src/Notifier/Wire.antt =====
-- Little-endian numbers (`to_le_bytes`) and UTF-8 (`str::as_bytes`).
use confuse.Common.{
  ℕ, zero, suc, ◌+◌, ◌-◌, ◌*◌, ◌/◌, ◌%◌, ◌^◌, ◌<◌, ◌≡◌, refl, Option, none, some, List, [], ◌∷◌,
  ◌++◌, length, length-append, ltb, if◌then◌else◌, arith,
}
use confuse.Common.Int.{ℤ, pos, negsuc}
use confuse.Common.Text.{Text}
use confuse.Facade.Buffers.{utf8_char_len, utf8_len}

unfoldable pub to_le_bytes : ℕ → ℕ → List ℕ
to_le_bytes zero n = []
to_le_bytes (suc width) n = n % 256 ∷ to_le_bytes width (n / 256)

-- An `i64` as the `u64` with the same bits.
unfoldable pub as_u64 : ℤ → ℕ
as_u64 (pos n) = n
as_u64 (negsuc n) = 2 ^ 64 - 1 - n

unfoldable pub utf8_char : ℕ → List ℕ
utf8_char c =
    if ltb c 0x80
    then c ∷ []
    else (if ltb c 0x800
        then (0xC0 + c / 64) ∷ (0x80 + c % 64) ∷ []
        else (if ltb c 0x10000
            then (0xE0 + c / 4096) ∷ (0x80 + c / 64 % 64) ∷ (0x80 + c % 64) ∷ []
            else (0xF0 + c / 262144)
              ∷ (0x80 + c / 4096 % 64)
              ∷ (0x80 + c / 64 % 64)
              ∷ (0x80 + c % 64)
              ∷ []))

unfoldable pub utf8 : Text → List ℕ
unfolding utf8_char
utf8 [] = []
utf8 (c ∷ s) = utf8_char c ++ utf8 s

pub length-utf8 : (s : Text) → length (utf8 s) ≡ utf8_len s
unfolding utf8 utf8_len utf8_char utf8_char_len
length-utf8 [] = refl
length-utf8 (c ∷ s) = ground (arith, length-append (utf8_char c) (utf8 s), length-utf8 s)

pub length-to_le_bytes : (width n : ℕ) → length (to_le_bytes width n) ≡ width
unfolding to_le_bytes
length-to_le_bytes zero n = refl
length-to_le_bytes (suc width) n = omega (arith, length-to_le_bytes width (n / 256))

-- The number in the first bytes, with the bytes behind it.
unfoldable pub read_le : ℕ → List ℕ → Option (ℕ × List ℕ)
read_le zero bytes = some (0, bytes)
read_le (suc width) [] = none
read_le (suc width) (b ∷ bytes) = elim (read_le width bytes) [
  | none ↦ none
  | some (n, rest) ↦ some (b + 256 * n, rest)
]

pub read_le-to_le_bytes :
    (width n : ℕ) (rest : List ℕ)
    → n < 256 ^ width
    → read_le width (to_le_bytes width n ++ rest) ≡ some (n, rest)
unfolding read_le to_le_bytes
read_le-to_le_bytes zero n rest lt = ground arith
read_le-to_le_bytes (suc width) n rest lt =
    let split : 256 ^ suc width ≡ 256 * 256 ^ width = omega arith in
    let small : n / 256 < 256 ^ width = omega arith in
    ground (arith, read_le-to_le_bytes width (n / 256) rest small)
