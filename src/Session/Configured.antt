-- ===== src/Session/Configured.antt =====
-- src/fuser_facade/session.rs: what a session makes of its configuration.
use confuse.Common.{
  ℕ, ◌+◌, ◌-◌, ◌*◌, ◌^◌, Bool, true, false, ◌&&◌, ◌||◌, Option, none, some, List, [], ◌∷◌, any,
  ◌==◌, ltb, leb, if◌then◌else◌, Result, ok, err, ◌>>=◌,
}
use confuse.Common.Text.{Text, text_eq, strip_prefix}
use confuse.Facade.Types.{MountOption, custom, auto_unmount, Config}
use confuse.Resolver.State.{PathResolver, default, set_negative_ttl}
use confuse.Mount.Words.{negative_ttl_is_0_text, negative_ttl_is_off_text, negative_ttl_ms_is_text}
use confuse.Mount.Options.{ErrorKind, invalid_input, other, DokanOptions, to_dokan_mount_options}
use confuse.Mount.Parsing.{is_owner}

unfoldable pub is_auto_unmount : MountOption → Bool
is_auto_unmount auto_unmount = true
is_auto_unmount _ = false

unfoldable pub validate_session_config : Config → Result (Unit {0}) ErrorKind
unfolding is_owner is_auto_unmount
validate_session_config config =
    if is_owner config.acl && any is_auto_unmount config.mount_options
    then err invalid_input
    else elim config.n_threads [ some n ↦ if n == 0 then err other else ok tt | none ↦ ok tt ]

unfoldable pub is_one : Option ℕ → Bool
is_one (some n) = n == 1
is_one none = false

unfoldable pub apply_session_threading : Config → DokanOptions → DokanOptions
unfolding is_one
apply_session_threading config options = record options { single_thread = is_one config.n_threads }

-- The options that `run` mounts with.
unfoldable pub run_options : DokanOptions → Config → Result DokanOptions ErrorKind
unfolding to_dokan_mount_options apply_session_threading
run_options default config = do
  options ← to_dokan_mount_options default config.mount_options
  ok (apply_session_threading config options)

-- `str::parse::<u64>`: an optional `+`, then digits whose value is a `u64`.
unfoldable pub parse_digits : ℕ → Text → Option ℕ
parse_digits n [] = some n
parse_digits n (c ∷ s) =
    let next = n * 10 + (c - 48) in
    let rest = parse_digits next s in
    if (leb 48 c && leb c 57) && ltb next (2 ^ 64) then rest else none

unfoldable pub parse_u64 : Text → Option ℕ
unfolding parse_digits
parse_u64 [] = none
parse_u64 (c ∷ []) = parse_digits 0 (c ∷ [])
parse_u64 (c ∷ d ∷ s) = if c == 43 then parse_digits 0 (d ∷ s) else parse_digits 0 (c ∷ d ∷ s)

-- The negative time to live that an option sets, in nanoseconds.
unfoldable pub negative_ttl_of : MountOption → Option ℕ
unfolding text_eq strip_prefix parse_u64
negative_ttl_of (custom value) =
    if text_eq value negative_ttl_is_0_text || text_eq value negative_ttl_is_off_text
    then some 0
    else elim (strip_prefix negative_ttl_ms_is_text value) [
      | none ↦ none
      | some digits ↦ elim (parse_u64 digits) [ none ↦ none | some ms ↦ some (ms * 10 ^ 6) ]
    ]
negative_ttl_of _ = none

unfoldable pub set_ttl : Option ℕ → PathResolver → PathResolver
unfolding set_negative_ttl
set_ttl (some ttl) resolver = set_negative_ttl ttl resolver
set_ttl none resolver = resolver

unfoldable pub configure : List MountOption → PathResolver → PathResolver
unfolding set_ttl negative_ttl_of
configure [] resolver = resolver
configure (option ∷ options) resolver =
    configure options (set_ttl (negative_ttl_of option) resolver)

unfoldable pub configured_path_resolver : Config → PathResolver
unfolding configure default
configured_path_resolver config = configure config.mount_options default
