-- ===== src/Adapter/Untouched.antt =====
-- src/dokan_impl/adapter/path_routes.rs: what the routes leave of a file system that keeps no count of
-- lookups, as examples/memfs.
use confuse.Common.{
  ℕ, ◌≡◌, refl, ◌∙◌, Bool, true, false, Option, none, some, List, [], ◌∷◌, ◌==◌, if◌then◌else◌,
  Result, ok, err,
}
use confuse.Common.Text.{Text, text_eq}
use confuse.Facade.Errno
use confuse.Facade.Types.{ReplyEntryPayload, root}
use confuse.Resolver.State.{Env, PathResolver, ResolvedEntry, take_pending_forgets}
use confuse.Resolver.Path.{root_path, normalize_path, normalized_components}
use confuse.Resolver.Ops.{Cached, cached}
use confuse.Resolver.Invalidate.{remember_negative, reap_expired, invalidate_subtree}
use confuse.Helpers.Names.{split_parent_and_name, child_path_from_parent}
use confuse.Adapter.Calls.{Request, Reply, Filesystem, lookup, forget}
use confuse.Adapter.World.{DokanAdapter}
use confuse.Adapter.Paths

-- Lookups and forgets leave the file system as it is.
pub record IsUncounted {S : Type 0} (F : Filesystem S) : Type 0 where
  pub looked : (req : Request) (p : ℕ) (name : Text) (s : S) → (F (lookup req p name) s).1 ≡ s
  pub forgot : (req : Request) (ino n : ℕ) (s : S) → (F (forget req ino n) s).1 ≡ s

module _ {S : Type 0} {F : Filesystem S} (env : Env) (rule : IsUncounted F) where
  fs-forget_all :
      (req : Request) (l : List (ℕ × ℕ)) (w : DokanAdapter S)
      → (Paths.forget_all F env req l w).fs ≡ w.fs
  unfolding Paths.forget_all Paths.call
  fs-forget_all req [] w = refl
  fs-forget_all req ((ino, n) ∷ l) w =
      fs-forget_all req l (Paths.call F env (forget req ino n) w).1 ∙ rule.forgot req ino n w.fs

  fs-forget_returned :
      (req : Request) (out : List (ℕ × ℕ) × PathResolver) (w : DokanAdapter S)
      → (Paths.forget_returned F env req out w).fs ≡ w.fs
  unfolding Paths.forget_returned
  fs-forget_returned req (l, r) w = fs-forget_all req l (record w { resolver = r })

  pub fs-drain_resolver_forgets :
      (req : Request) (w : DokanAdapter S) → (Paths.drain_resolver_forgets F env req w).fs ≡ w.fs
  unfolding Paths.drain_resolver_forgets
  fs-drain_resolver_forgets req w = fs-forget_returned req (take_pending_forgets w.resolver) w

  fs-use_cached :
      (req : Request) (answer : Cached) (w : DokanAdapter S)
      → (Paths.use_cached F env req answer w).1.fs ≡ w.fs
  unfolding Paths.use_cached
  fs-use_cached req (some (ok entry)) w = refl
  fs-use_cached req (some (err e)) w = fs-drain_resolver_forgets req w
  fs-use_cached req none w = refl

  fs-remember_negative_lookup :
      (req : Request) (e : ℕ) (path : Text) (p g : ℕ) (name : Text) (w : DokanAdapter S)
      → (Paths.remember_negative_lookup F env req e path p g name w).fs ≡ w.fs
  unfolding Paths.remember_negative_lookup
  fs-remember_negative_lookup req e path p g name w =
      fs-drain_resolver_forgets req _ ∙ by_code (e == Errno.enoent)
    where
      by_code :
          (b : Bool)
          → (let w' : DokanAdapter S =
                if b
                then record w { resolver = remember_negative env path p g name w.resolver }
                else w in
              w').fs
            ≡ w.fs
      by_code true = refl
      by_code false = refl

  fs-use_lookup :
      (req : Request) (path : Text) (p g : ℕ) (name : Text) (reply : Reply ReplyEntryPayload)
      (w : DokanAdapter S)
      → (Paths.use_lookup F env req path p g name reply w).1.fs ≡ w.fs
  unfolding Paths.use_lookup
  fs-use_lookup req path p g name (some (ok payload)) w = refl
  fs-use_lookup req path p g name (some (err e)) w =
      fs-remember_negative_lookup req e path p g name w
  fs-use_lookup req path p g name none w = fs-drain_resolver_forgets req w

  fs-lookup_unless_cached :
      (req : Request) (path : Text) (p g : ℕ) (name : Text)
      (out : Paths.Out S (Result (Option ResolvedEntry) ℕ))
      → (Paths.lookup_unless_cached F env req path p g name out).1.fs ≡ out.1.fs
  unfolding Paths.lookup_unless_cached Paths.lookup_path_component Paths.call
  fs-lookup_unless_cached req path p g name (err e, w) = refl
  fs-lookup_unless_cached req path p g name (ok (some entry), w) = refl
  fs-lookup_unless_cached req path p g name (ok none, w) =
      let out = Paths.call F env (lookup req p name) w in
      fs-use_lookup req path p g name out.0 out.1 ∙ rule.looked req p name w.fs

  fs-resolve_component :
      (req : Request) (path : Text) (p g : ℕ) (name : Text) (w : DokanAdapter S)
      → (Paths.resolve_component F env req path p g name w).1.fs ≡ w.fs
  unfolding Paths.resolve_component Paths.cached_path_component
  fs-resolve_component req path p g name w =
      let out = cached env path p g w.resolver in
      fs-lookup_unless_cached req path p g name (Paths.cached_path_component F env req path p g w)
      ∙ fs-use_cached req out.0 (record w { resolver = out.1 })

  fs-resolve_components :
      (req : Request) (rest : List Text) (ino generation : ℕ) (path : Text) (w : DokanAdapter S)
      → (Paths.resolve_components F env req rest ino generation path w).1.fs ≡ w.fs
  unfolding Paths.resolve_components
  fs-resolve_components req [] ino generation path w = refl
  fs-resolve_components req (component ∷ rest) ino generation path w =
      next (Paths.resolve_component F env req child ino generation component w).0
        (λ e. fs-resolve_components req rest e.ino e.generation child after)
      ∙ fs-resolve_component req child ino generation component w
    where
      child : Text
      child = child_path_from_parent path component

      after : DokanAdapter S
      after = (Paths.resolve_component F env req child ino generation component w).1

      next :
          (found : Result ResolvedEntry ℕ)
          → ((e : ResolvedEntry)
              → (Paths.resolve_components F env req rest e.ino e.generation child after).1.fs
                ≡ after.fs)
          → (let y : Paths.Out S (Result ℕ ℕ) = elim found [
            | ok entry ↦
                Paths.resolve_components F env req rest entry.ino entry.generation child after
            | err e ↦ (err e, after)
          ] in
              y).1.fs
            ≡ after.fs
      next (ok entry) more = more entry
      next (err e) more = refl

  fs-resolve_path_ino :
      (req : Request) (path : Text) (w : DokanAdapter S)
      → (Paths.resolve_path_ino F env req path w).1.fs ≡ w.fs
  unfolding Paths.resolve_path_ino Paths.drain_expired_resolver_forgets
  fs-resolve_path_ino req path w = by_root (text_eq (normalize_path env path) root_path) (
      fs-resolve_components req (normalized_components path) root 0 root_path
        (Paths.drain_expired_resolver_forgets F env req w)
      ∙ fs-forget_returned req (reap_expired env w.resolver) w)
    where
      walk : Paths.Out S (Result ℕ ℕ)
      walk =
          Paths.resolve_components F env req (normalized_components path) root 0 root_path
            (Paths.drain_expired_resolver_forgets F env req w)

      by_root :
          (b : Bool)
          → walk.1.fs ≡ w.fs
          → (let y : Paths.Out S (Result ℕ ℕ) = if b then (ok root, w) else walk in y).1.fs ≡ w.fs
      by_root true s = refl
      by_root false s = s

  fs-invalidate_resolved_attr :
      (out : Paths.Out S (Result ℕ ℕ)) → (Paths.invalidate_resolved_attr F env out).fs ≡ out.1.fs
  unfolding Paths.invalidate_resolved_attr Paths.invalidate_inode_attr
  fs-invalidate_resolved_attr (ok ino, w) = refl
  fs-invalidate_resolved_attr (err e, w) = refl

  pub fs-finish_metadata_mutation :
      (req : Request) (path : Text) (ino : ℕ) (w : DokanAdapter S)
      → (Paths.finish_metadata_mutation F env req path ino w).fs ≡ w.fs
  unfolding Paths.finish_metadata_mutation Paths.invalidate_parent_attr_for_path
      Paths.invalidate_path_cache Paths.invalidate_inode_attr
  fs-finish_metadata_mutation req path ino w =
      let parent = (split_parent_and_name path).0 in
      let fresh = Paths.invalidate_inode_attr F env ino w in
      let kept = Paths.invalidate_parent_attr_for_path F env req path fresh in
      fs-forget_returned req (invalidate_subtree env path kept.resolver) kept
      ∙ fs-invalidate_resolved_attr (Paths.resolve_path_ino F env req parent fresh)
      ∙ fs-resolve_path_ino req parent fresh
