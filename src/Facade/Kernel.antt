-- ===== src/Facade/Kernel.antt =====
-- src/fuser_facade/types.rs: `KernelConfig` and its setters, with the default of
-- src/dokan_impl/helpers.rs. A set of flags is the `u64` of its bits.
use Prim.Native.Nat.{bit_and, bit_or, bit_xor}
use confuse.Common.{
  ℕ, zero, suc, ◌-◌, ◌*◌, ◌/◌, ◌%◌, ◌^◌, min, not, ◌&&◌, ◌||◌, Option, none, some, ◌==◌, ltb,
  if◌then◌else◌, Result, ok, err,
}

pub record KernelConfig : Type 0 where
  pub max_write : ℕ
  pub max_readahead : ℕ
  pub max_max_readahead : ℕ
  pub capabilities : ℕ
  pub requested : ℕ
  pub max_background : ℕ
  pub congestion_threshold : Option ℕ
  pub time_gran : ℕ
  pub max_stack_depth : ℕ
  pub kernel_abi : ℕ × ℕ

-- Times are numbers of nanoseconds.
abbrev pub default_kernel_config : KernelConfig
default_kernel_config = record {
  max_write = 128 * 1024;
  max_readahead = 128 * 1024;
  max_max_readahead = 1024 * 1024;
  capabilities = 0;
  requested = 0;
  max_background = 16;
  congestion_threshold = none;
  time_gran = 1;
  max_stack_depth = 0;
  kernel_abi = (7, 40);
}

abbrev pub Setting : Type 0
Setting = Result ℕ ℕ × KernelConfig

unfoldable pub set_max_stack_depth : ℕ → KernelConfig → Setting
set_max_stack_depth value c =
    if ltb 2 value then (err 2, c) else (ok c.max_stack_depth, record c { max_stack_depth = value })

unfoldable pub set_max_write : ℕ → KernelConfig → Setting
set_max_write value c =
    if value == 0
    then (err 1, c)
    else (if ltb (16 * 1024 * 1024) value
        then (err (16 * 1024 * 1024), c)
        else (ok c.max_write, record c { max_write = value }))

unfoldable pub set_max_readahead : ℕ → KernelConfig → Setting
set_max_readahead value c =
    if value == 0
    then (err 1, c)
    else (if ltb c.max_max_readahead value
        then (err c.max_max_readahead, c)
        else (ok c.max_readahead, record c { max_readahead = value }))

unfoldable pub set_max_background : ℕ → KernelConfig → Setting
set_max_background value c =
    if value == 0 then (err 1, c) else (ok c.max_background, record c { max_background = value })

unfoldable pub previous_threshold : KernelConfig → ℕ
previous_threshold c = elim c.congestion_threshold [
  | some n ↦ min n c.max_background
  | none ↦ min (c.max_background * 3 / 4 % 2 ^ 16) c.max_background
]

unfoldable pub set_congestion_threshold : ℕ → KernelConfig → Setting
unfolding previous_threshold
set_congestion_threshold value c =
    if value == 0
    then (err 1, c)
    else (ok (previous_threshold c), record c { congestion_threshold = some value })

-- `!flags`
unfoldable pub complement : ℕ → ℕ
complement flags = bit_xor flags (2 ^ 64 - 1)

-- The flag `FUSE_INIT_EXT` is bit 30.
unfoldable pub capabilities_of : KernelConfig → ℕ
unfolding complement
capabilities_of c = bit_and c.capabilities (complement (2 ^ 30))

unfoldable pub add_capabilities : ℕ → KernelConfig → Result (Unit {0}) ℕ × KernelConfig
unfolding complement
add_capabilities capabilities_to_add c =
    if not (bit_and c.capabilities capabilities_to_add == capabilities_to_add)
    then (err (bit_and capabilities_to_add (complement c.capabilities)), c)
    else (ok tt, record c { requested = bit_or c.requested capabilities_to_add })

abbrev pub second : ℕ
second = 10 ^ 9

-- The loop of `set_time_granularity`, on fuel: nothing where the fuel runs out, or else the error that
-- it returns or its end.
unfoldable pub search_power : ℕ → ℕ → ℕ → Option (Result (Unit {0}) ℕ)
search_power zero power_of_10 nanos = none
search_power (suc fuel) power_of_10 nanos =
    let rest = search_power fuel (power_of_10 * 10) nanos in
    if ltb power_of_10 nanos
    then (if ltb nanos (power_of_10 * 10) then some (err power_of_10) else rest)
    else some (ok tt)

unfoldable pub set_time_granularity : ℕ → ℕ → KernelConfig → Option Setting
unfolding search_power
set_time_granularity fuel value c =
    if value == 0
    then some (err 1, c)
    else (if ltb 1 (value / second) || ((value / second == 1) && ltb 0 (value % second))
        then some (err second, c)
        else elim (search_power fuel 1 value) [
          | none ↦ none
          | some (err e) ↦ some (err e, c)
          | some (ok u) ↦ some (ok c.time_gran, record c { time_gran = value })
        ])
