-- ===== src/Helpers/Ranges.antt =====
-- src/dokan_impl/helpers.rs: checked conversions of offsets and lengths.
use confuse.Common.{
  ℕ, ◌+◌, ◌^◌, ◌≤◌, ◌≡◌, refl, ◌↔◌, Option, none, some, ltb, leb, if◌then◌else◌, arith, Result, ok,
  err, ◌>>=◌,
}
use confuse.Common.Int.{ℤ, pos, negsuc, i64_max}
use confuse.Helpers.Codes.{NtStatus, invalid_parameter}

unfoldable pub nonnegative_i64_to_u64 : ℤ → Result ℕ NtStatus
nonnegative_i64_to_u64 (pos n) = ok n
nonnegative_i64_to_u64 (negsuc n) = err invalid_parameter

unfoldable pub checked_dokan_len : ℕ → Result ℕ NtStatus
checked_dokan_len n = if ltb n (2 ^ 32) then ok n else err invalid_parameter

-- `i64::checked_add` of two numbers that are not negative.
unfoldable pub checked_add : ℕ → ℕ → Option ℤ
checked_add a b = if leb (a + b) i64_max then some (pos (a + b)) else none

unfoldable pub checked_lock_range : ℤ → ℤ → Result (ℕ × ℕ) NtStatus
unfolding nonnegative_i64_to_u64 checked_add
checked_lock_range (negsuc m) length = err invalid_parameter
checked_lock_range (pos offset) (negsuc n) = err invalid_parameter
checked_lock_range (pos offset) (pos length) = do
  start ← nonnegative_i64_to_u64 (pos offset)
  end ← elim (checked_add offset length) [
    | none ↦ err invalid_parameter
    | some sum ↦ nonnegative_i64_to_u64 sum
  ]
  ok (start, end)

unfoldable pub advance_offset_on_emitted : ℤ → Option ℤ → ℤ
advance_offset_on_emitted current none = current
advance_offset_on_emitted current (some emitted) = emitted

-- A range is accepted exactly when offset and length are not negative and their sum is an `i64`;
-- it then starts at the offset and spans the length.
pub checked_lock_range-eq_ok_iff :
    (offset length : ℤ) (start end : ℕ)
    → (checked_lock_range offset length ≡ ok (start, end))
      ↔ ((n : ℕ) × (offset ≡ pos start) × (length ≡ pos n) × (end ≡ start + n) × (end ≤ i64_max))
unfolding checked_lock_range
checked_lock_range-eq_ok_iff (negsuc m) length start end = (λ h. cc, λ (n, a, b, c, d). cc)
checked_lock_range-eq_ok_iff (pos offset) (negsuc n) start end = (λ h. cc, λ (n, a, b, c, d). cc)
checked_lock_range-eq_ok_iff (pos offset) (pos n) start end =
    (λ h. (n, ground arith, refl, ground arith, ground arith), λ (m, a, b, c, d). ground arith)
