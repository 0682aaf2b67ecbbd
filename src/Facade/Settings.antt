-- ===== src/Facade/Settings.antt =====
-- src/fuser_facade/types.rs: what the setters of `KernelConfig` accept.
use confuse.Common.{
  ℕ, zero, suc, ◌*◌, ◌<◌, ◌≤◌, ◌≡◌, refl, subst, ◌⊎◌, inl, inr, some, ◌==◌, ltb, ok, err, arith,
  Bool-cases,
}
use confuse.Facade.Kernel.{
  KernelConfig, Setting, set_max_stack_depth, set_max_write, set_max_readahead, set_max_background,
  previous_threshold, set_congestion_threshold, second, search_power, set_time_granularity,
}

pub data Setter : Type 0 where
  max_stack_depth max_write max_readahead max_background congestion_threshold : Setter

abbrev pub set : Setter → ℕ → KernelConfig → Setting
set max_stack_depth = set_max_stack_depth
set max_write = set_max_write
set max_readahead = set_max_readahead
set max_background = set_max_background
set congestion_threshold = set_congestion_threshold

-- A setter that fails leaves the configuration as it was, and accepts the value that it names
-- in its error, where reading ahead is allowed at all.
pub set_retry :
    (s : Setter) (value e : ℕ) (c c' : KernelConfig)
    → 0 < c.max_max_readahead
    → set s value c ≡ (err e, c')
    → (c' ≡ c) × ((old : ℕ) × ((set s e c).0 ≡ ok old))
unfolding set_max_stack_depth set_max_write set_max_readahead set_max_background
    set_congestion_threshold
set_retry max_stack_depth value e c c' room h = (ground arith, (c.max_stack_depth, ground arith))
set_retry max_write value e c c' room h = (ground arith, (c.max_write, ground arith))
set_retry max_readahead value e c c' room h = (ground arith, (c.max_readahead, ground arith))
set_retry max_background value e c c' room h = (ground arith, (c.max_background, ground arith))
set_retry congestion_threshold value e c c' room h =
    (ground arith, (previous_threshold c, ground arith))

pub data IsPowerOf10 : ℕ → Type 0 where
  one : IsPowerOf10 1
  ten_times : (n : ℕ) → IsPowerOf10 n → IsPowerOf10 (n * 10)

second-IsPowerOf10 : IsPowerOf10 second
second-IsPowerOf10 = ten_times _ (
    ten_times _ (
      ten_times _
        (ten_times _ (ten_times _ (ten_times _ (ten_times _ (ten_times _ (ten_times _ one))))))))

-- The power after some rounds of the loop.
abbrev after_rounds : ℕ → ℕ → ℕ
after_rounds zero p = p
after_rounds (suc f) p = after_rounds f (p * 10)

search_power-ends :
    (f p nanos : ℕ)
    → IsPowerOf10 p
    → p ≤ nanos
    → nanos ≤ after_rounds f p
    → ((search_power (suc f) p nanos ≡ some (ok tt)) × IsPowerOf10 nanos)
      ⊎ ((e : ℕ) × (search_power (suc f) p nanos ≡ some (err e))
          × IsPowerOf10 e
          × (e < nanos)
          × (nanos < e * 10))
unfolding search_power
search_power-ends zero p nanos power low high =
    let same : p ≡ nanos = omega arith in inl (ground arith, subst IsPowerOf10 same power)
search_power-ends (suc f) p nanos power low high = elim (Bool-cases (ltb p nanos)) [
  | inr reached ↦
      let same : p ≡ nanos = ground arith in inl (ground arith, subst IsPowerOf10 same power)
  | inl below ↦ elim (Bool-cases (ltb nanos (p * 10))) [
    | inl between ↦ inr (p, ground arith, power, ground arith, ground arith)
    | inr above ↦
        elim (search_power-ends f (p * 10) nanos (ten_times p power) (ground arith) high) [
          | inl (found, is_power) ↦ inl (ground arith, is_power)
          | inr (e, found, is_power, less, more) ↦ inr (e, ground arith, is_power, less, more)
        ]
  ]
]

-- Setting the granularity of times ends within ten rounds of the loop for every value. It
-- succeeds where the value is a power of ten nanoseconds up to a second; else it leaves the
-- configuration as it was and names the smallest granularity for zero, a second for more than that,
-- and otherwise the power of ten below the value.
pub set_time_granularity_ends :
    (value : ℕ) (c : KernelConfig)
    → ((set_time_granularity 10 value c ≡ some (ok c.time_gran, record c { time_gran = value }))
        × IsPowerOf10 value
        × (value ≤ second))
      ⊎ ((e : ℕ) × (set_time_granularity 10 value c ≡ some (err e, c))
          × IsPowerOf10 e
          × (((value ≡ 0) × (e ≡ 1))
              ⊎ (((second < value) × (e ≡ second)) ⊎ ((e < value) × (value < e * 10)))))
unfolding set_time_granularity
set_time_granularity_ends value c = elim (Bool-cases (value == 0)) [
  | inl none_given ↦ inr (1, ground arith, one, inl (ground arith, refl))
  | inr given ↦ elim (Bool-cases (ltb second value)) [
    | inl long ↦ inr (second, ground arith, second-IsPowerOf10, inr (inl (ground arith, refl)))
    | inr short ↦ elim (search_power-ends 9 1 value one (ground arith) (ground arith)) [
      | inl (found, is_power) ↦ inl (ground arith, is_power, ground arith)
      | inr (e, found, is_power, less, more) ↦
          inr (e, ground arith, is_power, inr (inr (less, more)))
    ]
  ]
]
