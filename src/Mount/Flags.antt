-- ===== src/Mount/Flags.antt =====
-- src/dokan_impl/mount_options.rs: which options Dokan is given.
use confuse.Common.{
  ◌≡◌, refl, ◌↔◌, ◌⊎◌, Bool, true, false, ◌&&◌, ◌||◌, List, [], ◌∷◌, any, Result, ok, err, arith,
  inl, inr,
}
use confuse.Common.Text.{Text}
use confuse.Facade.Types.{
  MountOption, custom, ro, rw, dev, no_dev, suid, no_suid, exec, no_exec, atime, no_atime, sync,
  async,
}
use confuse.Helpers.Volume.{eq_ignore_ascii_case, named_streams, dokan_named_streams}
use confuse.Mount.Words.{single_thread_text, debug_text}
use confuse.Mount.Options.{
  ErrorKind, contains, validate_mount_options, reject_conflicting_mount_options, DokanOptions,
  apply_custom_dokan_mount_option, apply_mount_option, apply_mount_options, to_dokan_mount_options,
}

-- A custom option that passes the test.
abbrev pub is_custom : (Text → Bool) → MountOption → Bool
is_custom test (custom v) = test v
is_custom test _ = false

abbrev pub is_ro : MountOption → Bool
is_ro ro = true
is_ro _ = false

abbrev pub names_streams : Text → Bool
names_streams v = eq_ignore_ascii_case v dokan_named_streams || eq_ignore_ascii_case v named_streams

single_thread-step :
    (option : MountOption) (out : DokanOptions)
    → (apply_mount_option option out).single_thread
      ≡ is_custom (λ v. eq_ignore_ascii_case v single_thread_text) option || out.single_thread
unfolding apply_mount_option apply_custom_dokan_mount_option
single_thread-step (custom v) out = refl
single_thread-step ro out = refl
single_thread-step _ out = refl

write_protect-step :
    (option : MountOption) (out : DokanOptions)
    → (apply_mount_option option out).write_protect ≡ is_ro option || out.write_protect
unfolding apply_mount_option apply_custom_dokan_mount_option
write_protect-step (custom v) out = refl
write_protect-step ro out = refl
write_protect-step _ out = refl

debug-step :
    (option : MountOption) (out : DokanOptions)
    → (apply_mount_option option out).debug
      ≡ is_custom (λ v. eq_ignore_ascii_case v debug_text) option || out.debug
unfolding apply_mount_option apply_custom_dokan_mount_option
debug-step (custom v) out = refl
debug-step ro out = refl
debug-step _ out = refl

alt_stream-step :
    (option : MountOption) (out : DokanOptions)
    → (apply_mount_option option out).alt_stream ≡ is_custom names_streams option || out.alt_stream
unfolding apply_mount_option apply_custom_dokan_mount_option
alt_stream-step (custom v) out = refl
alt_stream-step ro out = refl
alt_stream-step _ out = refl

apply_mount_options-field :
    (field : DokanOptions → Bool) (test : MountOption → Bool)
    → ((option : MountOption) (out : DokanOptions)
        → field (apply_mount_option option out) ≡ test option || field out)
    → (options : List MountOption) (out : DokanOptions)
    → field (apply_mount_options options out) ≡ any test options || field out
unfolding apply_mount_options
apply_mount_options-field field test step [] out = refl
apply_mount_options-field field test step (option ∷ options) out = ground (
  arith,
  step option out,
  apply_mount_options-field field test step options (apply_mount_option option out),
)

Unit-cases : (r : Result (Unit {0}) ErrorKind) → (r ≡ ok tt) ⊎ ((e : ErrorKind) × (r ≡ err e))
Unit-cases (ok tt) = inl refl
Unit-cases (err e) = inr (e, refl)

-- Both options of a pair are given.
abbrev pub conflict : MountOption → MountOption → List MountOption → Bool
conflict left right options = contains left options && contains right options

abbrev pub Compatible : List MountOption → Type 0
Compatible options =
    (conflict ro rw options ≡ false)
    × (conflict dev no_dev options ≡ false)
    × (conflict suid no_suid options ≡ false)
    × (conflict exec no_exec options ≡ false)
    × (conflict atime no_atime options ≡ false)
    × (conflict sync async options ≡ false)

validate-Compatible :
    (options : List MountOption) → (validate_mount_options options ≡ ok tt) ↔ Compatible options
unfolding validate_mount_options reject_conflicting_mount_options
validate-Compatible options = (λ h. ground arith, λ h. ground arith)

-- The options for Dokan in terms of the list of mount options and Dokan's defaults.
abbrev pub expected : DokanOptions → List MountOption → DokanOptions
expected default options = record {
  single_thread =
      any (is_custom (λ v. eq_ignore_ascii_case v single_thread_text)) options
      || default.single_thread;
  write_protect = any is_ro options || default.write_protect;
  debug = any (is_custom (λ v. eq_ignore_ascii_case v debug_text)) options || default.debug;
  alt_stream = any (is_custom names_streams) options || default.alt_stream;
}

apply_mount_options-expected :
    (default : DokanOptions) (options : List MountOption)
    → apply_mount_options options default ≡ expected default options
apply_mount_options-expected default options = λ i. record {
  single_thread =
      apply_mount_options-field (λ o. o.single_thread) _ single_thread-step options default i;
  write_protect =
      apply_mount_options-field (λ o. o.write_protect) _ write_protect-step options default i;
  debug = apply_mount_options-field (λ o. o.debug) _ debug-step options default i;
  alt_stream = apply_mount_options-field (λ o. o.alt_stream) _ alt_stream-step options default i;
}

-- Mount options are translated exactly when no two of them exclude each other; Dokan then has
-- the write protection of `ro`, one thread, debugging and alternate streams as custom options ask for
-- them in any case, and its defaults otherwise, wherever in the list the options stand.
pub to_dokan_mount_options-eq_ok_iff :
    (default : DokanOptions) (options : List MountOption) (out : DokanOptions)
    → (to_dokan_mount_options default options ≡ ok out)
      ↔ (Compatible options × (out ≡ expected default options))
unfolding to_dokan_mount_options
to_dokan_mount_options-eq_ok_iff default options out = (
  λ h. elim (Unit-cases (validate_mount_options options)) [
    | inl valid ↦ (
      (validate-Compatible options).0 valid,
      ground (arith, h, valid, apply_mount_options-expected default options),
    )
    | inr (e, invalid) ↦ absurd (ground (arith, h, invalid))
  ],
  λ (compatible, same). ground (
    arith,
    (validate-Compatible options).1 compatible,
    same,
    apply_mount_options-expected default options,
  ),
)
