-- ===== src/Session/Threads.antt =====
-- src/fuser_facade/session.rs: the configuration's effect on the mount.
use confuse.Common.{
  ◌≡◌, ◌≢◌, refl, ◌↔◌, ◌⊎◌, inl, inr, false, ◌&&◌, some, any, ◌==◌, Result, ok, err, arith,
  Bool-cases, Option-cases,
}
use confuse.Facade.Types.{Config}
use confuse.Resolver.State.{default}
use confuse.Common.Text.{Text}
use confuse.Adapter.Handlers.Streams.{has_nul}
use confuse.Mount.Options.{ErrorKind, invalid_input, DokanOptions, to_dokan_mount_options}
use confuse.Mount.Parsing.{is_owner}
use confuse.Mount.Flags.{Compatible, expected, to_dokan_mount_options-eq_ok_iff}
use confuse.Session.Configured.{
  is_auto_unmount, validate_session_config, is_one, apply_session_threading, run_options,
}
use confuse.Session.Lifecycle.{Session, mountpoint_to_u16, new}

Result-cases :
    {A : Type 0} (r : Result A ErrorKind) → ((a : A) × (r ≡ ok a)) ⊎ ((e : ErrorKind) × (r ≡ err e))
Result-cases (ok a) = inl (a, refl)
Result-cases (err e) = inr (e, refl)

-- What a session mounts with has the flags that the mount options ask for, but one thread exactly
-- where the configuration asks for one thread: the custom option `single_thread` is without effect.
pub run_options-expected :
    (default : DokanOptions) (config : Config) (out : DokanOptions)
    → run_options default config ≡ ok out
    → (out.single_thread ≡ is_one config.n_threads)
      × (out.write_protect ≡ (expected default config.mount_options).write_protect)
      × (out.debug ≡ (expected default config.mount_options).debug)
      × (out.alt_stream ≡ (expected default config.mount_options).alt_stream)
unfolding run_options apply_session_threading
run_options-expected default config out h =
    elim (Result-cases (to_dokan_mount_options default config.mount_options)) [
      | inl (translated, e) ↦
          let same =
            ((to_dokan_mount_options-eq_ok_iff default config.mount_options translated).0 e).1 in
          (
            ground (arith, h, e),
            ground (arith, h, e, same),
            ground (arith, h, e, same),
            ground (arith, h, e, same),
          )
      | inr (error, e) ↦ absurd (ground (arith, h, e))
    ]

validate_session_config-eq_ok_iff :
    (config : Config)
    → (validate_session_config config ≡ ok tt) ↔ (
        ((is_owner config.acl && any is_auto_unmount config.mount_options) ≡ false)
        × (config.n_threads ≢ some 0))
unfolding validate_session_config
validate_session_config-eq_ok_iff config = elim (Option-cases config.n_threads) [
  | inl e ↦ (λ h. (ground arith, λ zero_threads. ground arith), λ (acl, threads). ground arith)
  | inr (n, e) ↦ elim (Bool-cases (n == 0)) [
    | inl z ↦ (λ h. absurd (ground arith), λ (acl, threads). absurd (threads (ground arith)))
    | inr nz ↦ (λ h. (ground arith, λ zero_threads. ground arith), λ (acl, threads). ground arith)
  ]
]

mountpoint_to_u16-cases :
    (mountpoint : Text)
    → ((has_nul mountpoint ≡ false) × (mountpoint_to_u16 mountpoint ≡ ok mountpoint))
      ⊎ (mountpoint_to_u16 mountpoint ≡ err invalid_input)
unfolding mountpoint_to_u16
mountpoint_to_u16-cases mountpoint = elim (Bool-cases (has_nul mountpoint)) [
  | inl zero_in_it ↦ inr (ground (arith, zero_in_it))
  | inr plain ↦ inl (plain, ground (arith, plain))
]

-- A session is made exactly where the mount point has no zero, automatic unmounting comes with access
-- for others, the number of threads is not zero, no two mount options exclude each other, and the
-- system gives a socket.
pub new-eq_ok_iff :
    (mountpoint : Text) (fd : Result (Unit {0}) ErrorKind) (default : DokanOptions)
    (config : Config)
    → ((session : Session) × (new mountpoint fd default config ≡ ok session)) ↔ (
        (has_nul mountpoint ≡ false)
        × ((is_owner config.acl && any is_auto_unmount config.mount_options) ≡ false)
        × (config.n_threads ≢ some 0)
        × Compatible config.mount_options
        × (fd ≡ ok tt))
unfolding new
new-eq_ok_iff mountpoint fd default config = (
  λ (session, h). elim (mountpoint_to_u16-cases mountpoint) [
    | inl (plain, converted) ↦ elim (Result-cases (validate_session_config config)) [
      | inl (tt, valid) ↦
          elim (Result-cases (to_dokan_mount_options default config.mount_options)) [
            | inl (out, translated) ↦ elim (Result-cases fd) [
              | inl (tt, socket) ↦
                  let (acl, threads) = (validate_session_config-eq_ok_iff config).0 valid in
                  (
                    plain,
                    acl,
                    threads,
                    ((to_dokan_mount_options-eq_ok_iff default config.mount_options out).0
                        translated).0,
                    socket,
                  )
              | inr (error, e) ↦ absurd (ground (arith, h, converted, valid, translated, e))
            ]
            | inr (error, e) ↦ absurd (ground (arith, h, converted, valid, e))
          ]
      | inr (error, e) ↦ absurd (ground (arith, h, converted, e))
    ]
    | inr refused ↦ absurd (ground (arith, h, refused))
  ],
  λ (plain, acl, threads, compatible, socket).
      let valid = (validate_session_config-eq_ok_iff config).1 (acl, threads) in
      let translated =
        (to_dokan_mount_options-eq_ok_iff default config.mount_options
            (expected default config.mount_options)).1
          (compatible, refl) in
      elim (mountpoint_to_u16-cases mountpoint) [
        | inl (plain', converted) ↦ rw (converted, valid, translated, socket) (_, refl)
        | inr refused ↦ absurd (unfold mountpoint_to_u16 in ground (arith, refused, plain))
      ],
)
