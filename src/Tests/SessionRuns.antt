-- ===== src/Tests/SessionRuns.antt =====
-- Runs of sessions and notifications, and their theorems at concrete states.
use confuse.Common.{
  ℕ, ◌*◌, ◌≤◌, ◌<◌, ◌≡◌, ◌≢◌, refl, ◌↔◌, ◌⊎◌, Bool, true, false, ◌&&◌, none, some, [], ◌∷◌, any,
  ◌==◌, Result, ok, err,
}
use confuse.Facade.Types.{custom, ro, owner, Config}
use confuse.Facade.Kernel.{default_kernel_config, second, set_time_granularity}
use confuse.Facade.Settings.{IsPowerOf10, set_time_granularity_ends}
use confuse.Adapter.Handlers.Streams.{has_nul}
use confuse.Mount.Words.{single_thread_text}
use confuse.Mount.Options.{DokanOptions, ErrorKind}
use confuse.Mount.Parsing.{is_owner}
use confuse.Mount.Flags.{Compatible, expected}
use confuse.Session.Configured.{is_auto_unmount, is_one, run_options}
use confuse.Session.Lifecycle.{Session, Shared, new, umount_and_join}
use confuse.Session.Threads.{run_options-expected, new-eq_ok_iff}
use confuse.Session.Ending.{
  serving, starts, steps, umounts_and_joins, IsOrderly, Reachable-IsOrderly,
}
use confuse.Notifier.Decoding.{Notice, deletes}
use confuse.Tests.Data.{path_a, name_a}

abbrev dokan_defaults : DokanOptions
dokan_defaults = record {
  single_thread = false;
  write_protect = false;
  debug = false;
  alt_stream = false;
}

-- `ro`, and the custom option for one thread.
abbrev config : Config
config = record {
  mount_options = ro ∷ custom single_thread_text ∷ [];
  acl = owner;
  n_threads = none;
  clone_fd = false;
}

abbrev mounted_with : DokanOptions
mounted_with = record {
  single_thread = false;
  write_protect = true;
  debug = false;
  alt_stream = false;
}

run_options-expected_example :
    (mounted_with.single_thread ≡ is_one config.n_threads)
    × (mounted_with.write_protect ≡ (expected dokan_defaults config.mount_options).write_protect)
    × (mounted_with.debug ≡ (expected dokan_defaults config.mount_options).debug)
    × (mounted_with.alt_stream ≡ (expected dokan_defaults config.mount_options).alt_stream)
unfolding run_options
run_options-expected_example = run_options-expected dokan_defaults config mounted_with refl

new-eq_ok_iff_example :
    ((session : Session) × (new path_a (ok tt) dokan_defaults config ≡ ok session)) ↔ (
      (has_nul path_a ≡ false)
      × ((is_owner config.acl && any is_auto_unmount config.mount_options) ≡ false)
      × (config.n_threads ≢ some 0)
      × Compatible config.mount_options
      × (◌≡◌ {A = Result (Unit {0}) ErrorKind} (ok tt) (ok tt)))
new-eq_ok_iff_example = new-eq_ok_iff path_a (ok tt) dokan_defaults config

-- `dokan::unmount` succeeds at its third call.
abbrev third : ℕ → Bool
third k = k == 2

abbrev fresh : Shared
fresh = record { mounted = true; destroyed = false; unmount_calls = 0; destroy_calls = 0 }

-- The first unmounting fails, and so does that of the dropped guard; then Dokan reports the end.
abbrev after_join : Shared
after_join = (umount_and_join third none fresh).1

Reachable-IsOrderly_example : IsOrderly third serving after_join
Reachable-IsOrderly_example =
    Reachable-IsOrderly third (serving, after_join)
      (steps (serving, fresh) (serving, after_join) starts (umounts_and_joins serving fresh none))

abbrev deletion : Notice
deletion = deletes 1 7 name_a

set_time_granularity_ends_example :
    ((set_time_granularity 10 250 default_kernel_config
        ≡ some (ok 1, record default_kernel_config { time_gran = 250 }))
      × IsPowerOf10 250
      × (◌≤◌ 250 second))
    ⊎ ((e : ℕ) × (set_time_granularity 10 250 default_kernel_config
          ≡ some (err e, default_kernel_config))
        × IsPowerOf10 e
        × (((◌≡◌ {A = ℕ} 250 0) × (e ≡ 1))
            ⊎ (((second < 250) × (e ≡ second)) ⊎ ((e < 250) × (250 < e * 10)))))
set_time_granularity_ends_example = set_time_granularity_ends 250 default_kernel_config
