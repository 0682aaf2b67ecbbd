-- ===== src/Adapter/Walk.antt =====
-- src/dokan_impl/adapter/path_routes.rs: the file system's counts of lookups, and the resolver's, after
-- a path is resolved and after what the routes do with the result.
use confuse.Common.{
  ◌+◌, ℕ, refl, Bool, true, false, Option, none, some, List, [], ◌∷◌, ◌==◌, if◌then◌else◌, Result,
  ok, err,
}
use confuse.Common.Text.{Text, text_eq}
use confuse.Facade.Errno
use confuse.Facade.Types.{ReplyEntryPayload, root}
use confuse.Resolver.State.{Env, ResolvedEntry}
use confuse.Resolver.Path.{root_path, normalize_path, normalized_components}
use confuse.Resolver.Ops.{Cached, cached, remember_lookup}
use confuse.Resolver.Invalidate.{remember_negative}
use confuse.Resolver.Balance.{balance-cached, balance-remember_negative}
use confuse.Resolver.Invariant.{cached-IsAccounted}
use confuse.Resolver.Stores.{remember_negative-IsAccounted}
use confuse.Helpers.Names.{split_parent_and_name, child_path_from_parent}
use confuse.Adapter.Calls.{Request, Reply, Filesystem, lookup}
use confuse.Adapter.World.{AdapterContext, DokanAdapter}
use confuse.Adapter.Paths.{
  CreatedPath, Out, call, drain_expired_resolver_forgets, invalidate_inode_attr, use_cached,
  cached_path_component, remember_negative_lookup, use_lookup, lookup_path_component,
  lookup_unless_cached, resolve_component, resolve_components, resolve_path_ino,
  resolve_context_or_path, resolve_ctx, context_of, invalidate_resolved_attr,
  invalidate_parent_attr_for_path, finish_metadata_mutation, remember_created_path,
}
use confuse.Adapter.Ledger.{
  one_if, granted, Counts, Settles, IsSettled, drain-Settles, drain_expired-IsSettled,
  invalidate_path_cache-IsSettled, resolver_step-Settles, invalidate_inode_attr-Settles,
  remember-IsSettled, remember-Settles, call-Settles,
}

module _ {S : Type 0} {F : Filesystem S} (env : Env) (counts : Counts F) where
  use_cached-IsSettled :
      (req : Request) (answer : Cached) (w : DokanAdapter S)
      → IsSettled counts w
      → IsSettled counts (use_cached F env req answer w).1
  unfolding use_cached
  use_cached-IsSettled req (some (ok entry)) w h = h
  use_cached-IsSettled req (some (err e)) w h = drain-Settles env counts req w h
  use_cached-IsSettled req none w h = h

  cached_path_component-IsSettled :
      (req : Request) (path : Text) (p g : ℕ) (w : DokanAdapter S)
      → IsSettled counts w
      → IsSettled counts (cached_path_component F env req path p g w).1
  unfolding cached_path_component
  cached_path_component-IsSettled req path p g w h =
      let out = cached env path p g w.resolver in
      use_cached-IsSettled req out.0 (record w { resolver = out.1 })
        (resolver_step-Settles env counts out.1 w h (balance-cached env path p g w.resolver)
          (cached-IsAccounted env path p g w.resolver h.accounted))

  remember_negative_lookup-IsSettled :
      (req : Request) (e : ℕ) (path : Text) (p g : ℕ) (name : Text) (w : DokanAdapter S)
      → IsSettled counts w
      → IsSettled counts (remember_negative_lookup F env req e path p g name w)
  unfolding remember_negative_lookup
  remember_negative_lookup-IsSettled req e path p g name w h =
      let missed =
        resolver_step-Settles env counts (remember_negative env path p g name w.resolver) w h
          (balance-remember_negative env path p g name w.resolver)
          (remember_negative-IsAccounted env path p g name w.resolver h.accounted) in
      drain-Settles env counts req _ (by_code (e == Errno.enoent) missed)
    where
      by_code :
          (b : Bool)
          → IsSettled counts
              (record w { resolver = remember_negative env path p g name w.resolver })
          → IsSettled counts (
              if b
              then record w { resolver = remember_negative env path p g name w.resolver }
              else w)
      by_code true missed = missed
      by_code false missed = h

  use_lookup-IsSettled :
      (req : Request) (path : Text) (p g : ℕ) (name : Text) (reply : Reply ReplyEntryPayload)
      (w : DokanAdapter S)
      → Settles counts (granted (lookup req p name) reply) w
      → IsSettled counts (use_lookup F env req path p g name reply w).1
  unfolding use_lookup remember_lookup
  use_lookup-IsSettled req path p g name (some (ok payload)) w h =
      remember-IsSettled env counts _ w h
  use_lookup-IsSettled req path p g name (some (err e)) w h =
      remember_negative_lookup-IsSettled req e path p g name w h
  use_lookup-IsSettled req path p g name none w h = drain-Settles env counts req w h

  lookup_path_component-IsSettled :
      (req : Request) (path : Text) (p g : ℕ) (name : Text) (w : DokanAdapter S)
      → IsSettled counts w
      → IsSettled counts (lookup_path_component F env req path p g name w).1
  unfolding lookup_path_component
  lookup_path_component-IsSettled req path p g name w h =
      let out = call F env (lookup req p name) w in
      use_lookup-IsSettled req path p g name out.0 out.1
        (call-Settles env counts (lookup req p name) w (λ i. refl) h)

  lookup_unless_cached-IsSettled :
      (req : Request) (path : Text) (p g : ℕ) (name : Text)
      (out : Out S (Result (Option ResolvedEntry) ℕ))
      → IsSettled counts out.1
      → IsSettled counts (lookup_unless_cached F env req path p g name out).1
  unfolding lookup_unless_cached
  lookup_unless_cached-IsSettled req path p g name (err e, w) h = h
  lookup_unless_cached-IsSettled req path p g name (ok (some entry), w) h = h
  lookup_unless_cached-IsSettled req path p g name (ok none, w) h =
      lookup_path_component-IsSettled req path p g name w h

  resolve_component-IsSettled :
      (req : Request) (path : Text) (p g : ℕ) (name : Text) (w : DokanAdapter S)
      → IsSettled counts w
      → IsSettled counts (resolve_component F env req path p g name w).1
  unfolding resolve_component
  resolve_component-IsSettled req path p g name w h =
      lookup_unless_cached-IsSettled req path p g name (cached_path_component F env req path p g w)
        (cached_path_component-IsSettled req path p g w h)

  resolve_components-IsSettled :
      (req : Request) (rest : List Text) (ino generation : ℕ) (path : Text) (w : DokanAdapter S)
      → IsSettled counts w
      → IsSettled counts (resolve_components F env req rest ino generation path w).1
  unfolding resolve_components
  resolve_components-IsSettled req [] ino generation path w h = h
  resolve_components-IsSettled req (component ∷ rest) ino generation path w h =
      let child = child_path_from_parent path component in
      let out = resolve_component F env req child ino generation component w in
      next out.0 (resolve_component-IsSettled req child ino generation component w h)
        (λ e. resolve_components-IsSettled req rest e.ino e.generation child out.1)
    where
      child : Text
      child = child_path_from_parent path component

      after : DokanAdapter S
      after = (resolve_component F env req child ino generation component w).1

      next :
          (found : Result ResolvedEntry ℕ)
          → IsSettled counts after
          → ((e : ResolvedEntry)
              → IsSettled counts after
              → IsSettled counts
                  (resolve_components F env req rest e.ino e.generation child after).1)
          → IsSettled counts
              (let y : Out S (Result ℕ ℕ) = elim found [
                | ok entry ↦
                    resolve_components F env req rest entry.ino entry.generation child after
                | err e ↦ (err e, after)
              ] in
                y).1
      next (ok entry) s more = more entry s
      next (err e) s more = s

  -- For a file system that counts lookups as the protocol asks: resolving a path, from the cache or by
  -- lookups, to its end or to an error, leaves the file system's counts and the resolver's equal when
  -- they are equal before.
  pub resolve_path_ino-IsSettled :
      (req : Request) (path : Text) (w : DokanAdapter S)
      → IsSettled counts w
      → IsSettled counts (resolve_path_ino F env req path w).1
  unfolding resolve_path_ino
  resolve_path_ino-IsSettled req path w h = by_root (text_eq (normalize_path env path) root_path) (
      resolve_components-IsSettled req (normalized_components path) root 0 root_path
        (drain_expired_resolver_forgets F env req w) (drain_expired-IsSettled env counts req w h))
    where
      walk : Out S (Result ℕ ℕ)
      walk =
          resolve_components F env req (normalized_components path) root 0 root_path
            (drain_expired_resolver_forgets F env req w)

      by_root :
          (b : Bool)
          → IsSettled counts walk.1
          → IsSettled counts (let y : Out S (Result ℕ ℕ) = if b then (ok root, w) else walk in y).1
      by_root true s = h
      by_root false s = s

  pub resolve_context_or_path-IsSettled :
      (req : Request) (path : Text) (context : AdapterContext) (w : DokanAdapter S)
      → IsSettled counts w
      → IsSettled counts (resolve_context_or_path F env req path context w).1
  unfolding resolve_context_or_path context_of
  resolve_context_or_path-IsSettled req path context w h = by_context (resolve_ctx path context)
    where
      by_out :
          (out : Out S (Result ℕ ℕ))
          → IsSettled counts out.1
          → IsSettled counts (context_of F env context out).1
      by_out (ok ino, w') s = s
      by_out (err e, w') s = s

      by_context :
          (known : Option AdapterContext)
          → IsSettled counts
              (let y : Out S (Result AdapterContext ℕ) = elim known [
                | some ctx ↦ (ok ctx, w)
                | none ↦ context_of F env context (resolve_path_ino F env req path w)
              ] in
                y).1
      by_context (some ctx) = h
      by_context none =
          by_out (resolve_path_ino F env req path w) (resolve_path_ino-IsSettled req path w h)

  invalidate_resolved_attr-IsSettled :
      (out : Out S (Result ℕ ℕ))
      → IsSettled counts out.1
      → IsSettled counts (invalidate_resolved_attr F env out)
  unfolding invalidate_resolved_attr
  invalidate_resolved_attr-IsSettled (ok ino, w) h =
      invalidate_inode_attr-Settles env counts ino w h
  invalidate_resolved_attr-IsSettled (err e, w) h = h

  pub finish_metadata_mutation-IsSettled :
      (req : Request) (path : Text) (ino : ℕ) (w : DokanAdapter S)
      → IsSettled counts w
      → IsSettled counts (finish_metadata_mutation F env req path ino w)
  unfolding finish_metadata_mutation invalidate_parent_attr_for_path
  finish_metadata_mutation-IsSettled req path ino w h =
      let parent = (split_parent_and_name path).0 in
      let fresh = invalidate_inode_attr F env ino w in
      invalidate_path_cache-IsSettled env counts req path _ (
        invalidate_resolved_attr-IsSettled (resolve_path_ino F env req parent fresh) (
          resolve_path_ino-IsSettled req parent fresh
            (invalidate_inode_attr-Settles env counts ino w h)))

  -- The lookups of other entries stay in hand.
  pub remember_created_path-Settles :
      {hand : ℕ → ℕ} (req : Request) (created : CreatedPath) (w : DokanAdapter S)
      → Settles counts (λ i. one_if created.attr.ino i + hand i) w
      → Settles counts hand (remember_created_path F env req created w)
  unfolding remember_created_path
  remember_created_path-Settles req created w h =
      drain-Settles env counts req _ (remember-Settles env counts _ w h)

  pub remember_created_path-IsSettled :
      (req : Request) (created : CreatedPath) (w : DokanAdapter S)
      → Settles counts (one_if created.attr.ino) w
      → IsSettled counts (remember_created_path F env req created w)
  unfolding remember_created_path
  remember_created_path-IsSettled req created w h =
      drain-Settles env counts req _ (remember-IsSettled env counts _ w h)
