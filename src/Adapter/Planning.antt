-- ===== src/Adapter/Planning.antt =====
-- src/dokan_impl/helpers/operations.rs: the plan of a write, its cases and its bounds.
use confuse.Common.{
  ℕ, ◌+◌, ◌≤◌, ◌≡◌, refl, ap, sym, subst, ◌⊎◌, Bool, true, false, some, Result, ok, err, arith,
}
use confuse.Common.Int.{ℤ, pos, negsuc}
use confuse.Resolver.State.{Env}
use confuse.Helpers.Codes.{NtStatus}
use confuse.Helpers.Ranges.{nonnegative_i64_to_u64}
use confuse.Adapter.Calls.{Request, Filesystem, getattr}
use confuse.Adapter.World.{AdapterContext, DokanAdapter}
use confuse.Adapter.Paths.{call}
use confuse.Adapter.Monad.{◌>>=◌, and_then, pure, fail, of_result, ask}
use confuse.Adapter.Operations.{write_start, clip_write, size_of_reply, dokan_write_plan}

clip_write-within :
    (paging : Bool) (size len start : ℕ)
    → ((clip_write paging size len start).0 ≡ start)
      × ((clip_write paging size len start).1 ≤ len)
      × (paging ≡ true
          → ((clip_write paging size len start).1 ≡ 0)
            ⊎ ((clip_write paging size len start).0 + (clip_write paging size len start).1 ≤ size))
unfolding clip_write
clip_write-within true size len start = ground arith
clip_write-within false size len start = (refl, omega arith, λ e. cc)

clipped :
    (paging : Bool) (size len first start n : ℕ)
    → ◌≡◌ {A = Result (ℕ × ℕ) NtStatus} (ok (clip_write paging size len first)) (ok (start, n))
    → (start ≡ first) × (n ≤ len) × (paging ≡ true → (n ≡ 0) ⊎ (start + n ≤ size))
clipped paging size len first start n h =
    let plan : clip_write paging size len first ≡ (start, n) = cc in
    subst (λ p. (p.0 ≡ first) × (p.1 ≤ len) × (paging ≡ true → (p.1 ≡ 0) ⊎ (p.0 + p.1 ≤ size))) plan
      (clip_write-within paging size len first)

module _ {S : Type 0} (F : Filesystem S) (env : Env) where
  -- The size that the file system reports of the file that is written.
  abbrev pub reported_size : Request → AdapterContext → DokanAdapter S → Result ℕ NtStatus
  reported_size req context w =
      size_of_reply (call F env (getattr req context.ino (some context.fh)) w).0

  after_size :
      (to_eof paging : Bool) (offset : ℤ) (len start n : ℕ) (r : Result ℕ NtStatus)
      (w : DokanAdapter S)
      → (and_then
          (λ size.
            of_result (write_start to_eof size offset)
            >>= (λ first. pure (clip_write paging size len first)))
          (r, w)).0
        ≡ ok (start, n)
      → (n ≤ len)
        × (paging ≡ true → (size : ℕ) × (r ≡ ok size) × ((n ≡ 0) ⊎ (start + n ≤ size)))
        × (to_eof ≡ true → r ≡ ok start)
  unfolding ◌>>=◌ and_then of_result pure write_start nonnegative_i64_to_u64
  after_size to_eof paging offset len start n (err e) w h = cc
  after_size true paging offset len start n (ok size) w h =
      let (same, short, inside) = clipped paging size len size start n h in
      (short, λ e. (size, refl, inside e), λ e. ap ok (sym same))
  after_size false paging (pos m) len start n (ok size) w h =
      let (same, short, inside) = clipped paging size len m start n h in
      (short, λ e. (size, refl, inside e), λ e. cc)
  after_size false paging (negsuc m) len start n (ok size) w h = cc

  -- A planned write takes no more than the buffer holds, so that slicing the buffer cannot fail. A
  -- write of the pager stays inside the file: the file system reported a size, and the write is
  -- empty or ends within it. A write to the end starts at the size that was reported.
  pub dokan_write_plan-within :
      (req : Request) (context : AdapterContext) (offset : ℤ) (len : ℕ) (to_eof paging : Bool)
      (w : DokanAdapter S) (start n : ℕ)
      → (dokan_write_plan F env req context offset len to_eof paging w).0 ≡ ok (start, n)
      → (n ≤ len)
        × (paging ≡ true
            → (size : ℕ) × (reported_size req context w ≡ ok size) × ((n ≡ 0) ⊎ (start + n ≤ size)))
        × (to_eof ≡ true → reported_size req context w ≡ ok start)
  unfolding dokan_write_plan ◌>>=◌ and_then ask of_result pure fail write_start
      nonnegative_i64_to_u64
  dokan_write_plan-within req context (negsuc m) len false paging w start n h = cc
  dokan_write_plan-within req context (pos m) len false false w start n h =
      (ground (arith, h), λ e. cc, λ e. cc)
  dokan_write_plan-within req context (pos m) len false true w start n h =
      after_size false true (pos m) len start n _ _ h
  dokan_write_plan-within req context offset len true paging w start n h =
      after_size true paging offset len start n _ _ h
