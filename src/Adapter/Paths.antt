-- ===== src/Adapter/Paths.antt =====
-- src/dokan_impl/adapter/path_routes.rs: resolving paths through the resolver and the file system.
use confuse.Common.{
  ℕ, true, Option, none, some, List, [], ◌∷◌, ◌==◌, not, if◌then◌else◌, Result, ok, err,
}
use confuse.Common.Text.{Text, text_eq}
use confuse.Facade.Errno
use confuse.Facade.Types.{FileAttr, ReplyEntryPayload, root}
use confuse.Resolver.State.{Env, PathResolver, ResolvedEntry, take_pending_forgets, generation_for}
use confuse.Resolver.Path.{root_path, normalize_path, normalized_components}
use confuse.Resolver.Ops.{Cached, cached, remember_lookup, remember_positive}
use confuse.Resolver.Attrs
use confuse.Resolver.Invalidate.{remember_negative, reap_expired, invalidate_subtree}
use confuse.Helpers.Names.{split_parent_and_name, child_path_from_parent}
use confuse.Adapter.Calls.{Request, FsCall, ReplyOf, Reply, Filesystem, lookup, forget}
use confuse.Adapter.World.{AdapterContext, default_context, DokanAdapter}

pub record CreatedPath : Type 0 where
  pub path : Text
  pub parent : ℕ
  pub name : Text
  pub attr : FileAttr
  pub generation : ℕ
  pub ttl : ℕ

-- What a method returns, beside the state after it.
abbrev pub Out : Type 0 → Type 0 → Type 0
Out S A = A × DokanAdapter S

-- `resolve_ctx` of src/dokan_impl/helpers.rs
unfoldable pub resolve_ctx : Text → AdapterContext → Option AdapterContext
resolve_ctx file_name context =
    if not (context.ino == 0)
    then some context
    else if text_eq file_name root_path
    then some (record {
      fh = 0;
      flags = 0;
      ino = root;
      is_dir = true;
      lock_owner = none;
      request_ids = context.request_ids;
    })
    else none

module _ {S : Type 0} (F : Filesystem S) (env : Env) where
  -- A call of the file system.
  unfoldable pub call : (c : FsCall) → DokanAdapter S → Out S (ReplyOf c)
  call c w = let (reply, fs') = F c w.fs in (reply, record w { fs = fs' })

  -- `for (ino, nlookup) in forgets { fs.forget(req, ino, nlookup); }`
  unfoldable pub forget_all : Request → List (ℕ × ℕ) → DokanAdapter S → DokanAdapter S
  unfolding call
  forget_all req [] w = w
  forget_all req ((ino, nlookup) ∷ l) w = forget_all req l (call (forget req ino nlookup) w).1

  -- The forgets that an operation of the resolver returned, handed to the file system.
  unfoldable pub forget_returned :
      Request → List (ℕ × ℕ) × PathResolver → DokanAdapter S → DokanAdapter S
  unfolding forget_all
  forget_returned req (forgets, r) w = forget_all req forgets (record w { resolver = r })

  unfoldable pub drain_resolver_forgets : Request → DokanAdapter S → DokanAdapter S
  unfolding forget_returned
  drain_resolver_forgets req w = forget_returned req (take_pending_forgets w.resolver) w

  unfoldable pub drain_expired_resolver_forgets : Request → DokanAdapter S → DokanAdapter S
  unfolding forget_returned
  drain_expired_resolver_forgets req w = forget_returned req (reap_expired env w.resolver) w

  unfoldable pub invalidate_path_cache : Request → Text → DokanAdapter S → DokanAdapter S
  unfolding forget_returned
  invalidate_path_cache req path w = forget_returned req (invalidate_subtree env path w.resolver) w

  unfoldable pub invalidate_inode_attr : ℕ → DokanAdapter S → DokanAdapter S
  invalidate_inode_attr ino w = record w {
    resolver = Attrs.invalidate_inode_attr env ino w.resolver;
  }

  -- The match of `cached_path_component` on what `cached` answered.
  unfoldable pub use_cached :
      Request → Cached → DokanAdapter S → Out S (Result (Option ResolvedEntry) ℕ)
  use_cached req (some (ok entry)) w = (ok (some entry), w)
  use_cached req (some (err e)) w = (err e, drain_resolver_forgets req w)
  use_cached req none w = (ok none, w)

  unfoldable pub cached_path_component :
      Request → Text → ℕ → ℕ → DokanAdapter S → Out S (Result (Option ResolvedEntry) ℕ)
  unfolding use_cached
  cached_path_component req path parent parent_generation w =
      let (answer, r) = cached env path parent parent_generation w.resolver in
      use_cached req answer (record w { resolver = r })

  unfoldable pub remember_negative_lookup :
      Request → ℕ → Text → ℕ → ℕ → Text → DokanAdapter S → DokanAdapter S
  unfolding drain_resolver_forgets
  remember_negative_lookup req e path parent parent_generation name w = drain_resolver_forgets req (
      if e == Errno.enoent
      then record w {
        resolver = remember_negative env path parent parent_generation name w.resolver;
      }
      else w)

  -- The match of `lookup_path_component` on the reply.
  unfoldable pub use_lookup :
      Request
      → Text
      → ℕ
      → ℕ
      → Text
      → Reply ReplyEntryPayload
      → DokanAdapter S
      → Out S (Result ResolvedEntry ℕ)
  unfolding remember_negative_lookup drain_resolver_forgets
  use_lookup req path parent parent_generation name (some (ok payload)) w =
      let (entry, r) = remember_lookup env path parent parent_generation name payload w.resolver in
      (ok entry, record w { resolver = r })
  use_lookup req path parent parent_generation name (some (err e)) w =
      (err e, remember_negative_lookup req e path parent parent_generation name w)
  use_lookup req path parent parent_generation name none w =
      (err Errno.eio, drain_resolver_forgets req w)

  unfoldable pub lookup_path_component :
      Request → Text → ℕ → ℕ → Text → DokanAdapter S → Out S (Result ResolvedEntry ℕ)
  unfolding use_lookup call
  lookup_path_component req path parent parent_generation name w =
      let (reply, w') = call (lookup req parent name) w in
      use_lookup req path parent parent_generation name reply w'

  -- One round of the loop of `resolve_path_ino`: the child from the cache, or else by a lookup.
  unfoldable pub lookup_unless_cached :
      Request
      → Text
      → ℕ
      → ℕ
      → Text
      → Out S (Result (Option ResolvedEntry) ℕ)
      → Out S (Result ResolvedEntry ℕ)
  unfolding lookup_path_component
  lookup_unless_cached req path parent parent_generation name (err e, w) = (err e, w)
  lookup_unless_cached req path parent parent_generation name (ok (some entry), w) = (ok entry, w)
  lookup_unless_cached req path parent parent_generation name (ok none, w) =
      lookup_path_component req path parent parent_generation name w

  unfoldable pub resolve_component :
      Request → Text → ℕ → ℕ → Text → DokanAdapter S → Out S (Result ResolvedEntry ℕ)
  unfolding lookup_unless_cached cached_path_component
  resolve_component req path parent parent_generation name w =
      lookup_unless_cached req path parent parent_generation name
        (cached_path_component req path parent parent_generation w)

  -- The loop of `resolve_path_ino`, from an inode, its generation and its path.
  unfoldable pub resolve_components :
      Request → List Text → ℕ → ℕ → Text → DokanAdapter S → Out S (Result ℕ ℕ)
  unfolding resolve_component
  resolve_components req [] ino generation path w = (ok ino, w)
  resolve_components req (component ∷ rest) ino generation path w =
      let child = child_path_from_parent path component in
      let (found, w') = resolve_component req child ino generation component w in
      elim found [
        | ok entry ↦ resolve_components req rest entry.ino entry.generation child w'
        | err e ↦ (err e, w')
      ]

  unfoldable pub resolve_path_ino : Request → Text → DokanAdapter S → Out S (Result ℕ ℕ)
  unfolding resolve_components drain_expired_resolver_forgets
  resolve_path_ino req path w =
      if text_eq (normalize_path env path) root_path
      then (ok root, w)
      else resolve_components req (normalized_components path) root 0 root_path
          (drain_expired_resolver_forgets req w)

  abbrev pub resolve_parent_ino : Request → Text → DokanAdapter S → Out S (Result ℕ ℕ)
  resolve_parent_ino = resolve_path_ino

  unfoldable pub context_of : AdapterContext → Out S (Result ℕ ℕ) → Out S (Result AdapterContext ℕ)
  context_of context (ok ino, w) =
      (ok (record default_context { ino = ino; request_ids = context.request_ids }), w)
  context_of context (err e, w) = (err e, w)

  unfoldable pub resolve_context_or_path :
      Request → Text → AdapterContext → DokanAdapter S → Out S (Result AdapterContext ℕ)
  unfolding resolve_ctx context_of
  resolve_context_or_path req path context w = elim (resolve_ctx path context) [
    | some ctx ↦ (ok ctx, w)
    | none ↦ context_of context (resolve_path_ino req path w)
  ]

  unfoldable pub invalidate_resolved_attr : Out S (Result ℕ ℕ) → DokanAdapter S
  unfolding invalidate_inode_attr
  invalidate_resolved_attr (ok ino, w) = invalidate_inode_attr ino w
  invalidate_resolved_attr (err e, w) = w

  unfoldable pub invalidate_parent_attr_for_path : Request → Text → DokanAdapter S → DokanAdapter S
  unfolding invalidate_resolved_attr
  invalidate_parent_attr_for_path req path w =
      invalidate_resolved_attr (resolve_parent_ino req (split_parent_and_name path).0 w)

  unfoldable pub finish_metadata_mutation : Request → Text → ℕ → DokanAdapter S → DokanAdapter S
  unfolding invalidate_inode_attr invalidate_parent_attr_for_path invalidate_path_cache
  finish_metadata_mutation req path ino w =
      invalidate_path_cache req path
        (invalidate_parent_attr_for_path req path (invalidate_inode_attr ino w))

  unfoldable pub remember_created_path : Request → CreatedPath → DokanAdapter S → DokanAdapter S
  unfolding drain_resolver_forgets
  remember_created_path req created w =
      let r =
        (remember_positive env
          (record {
            path = created.path;
            parent = created.parent;
            parent_generation = generation_for created.parent w.resolver;
            name = created.name;
            attr = created.attr;
            generation = created.generation;
            ttl = created.ttl;
          })
          w.resolver).1 in
      drain_resolver_forgets req (record w { resolver = r })
