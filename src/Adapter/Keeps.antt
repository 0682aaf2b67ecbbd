-- ===== src/Adapter/Keeps.antt =====
-- src/dokan_impl/adapter: the parts of a method and the counts of lookups, one rule for each way to put
-- a method together.
use confuse.Common.{ℕ, ◌≡◌, Bool, true, false, Result, ok, err, if◌then◌else◌}
use confuse.Common.Text.{Text}
use confuse.Resolver.State.{Env}
use confuse.Helpers.Codes.{NtStatus}
use confuse.Adapter.Calls.{RequestIds, Request, FsCall, ReplyOf, Filesystem}
use confuse.Adapter.World.{AdapterContext, DokanAdapter, request_from_ids}
use confuse.Adapter.Paths.{
  call, resolve_path_ino, resolve_context_or_path, invalidate_inode_attr, invalidate_path_cache,
  finish_metadata_mutation,
}
use confuse.Adapter.Ledger.{
  granted, returned, Counts, Settles, IsSettled, drain-Settles, call-Settles, plain_call-IsSettled,
  invalidate_inode_attr-Settles, invalidate_path_cache-IsSettled,
}
use confuse.Adapter.Walk.{
  finish_metadata_mutation-IsSettled, resolve_path_ino-IsSettled, resolve_context_or_path-IsSettled,
}
use confuse.Adapter.Monad.{
  M, and_then, ◌>>=◌, ◌>>◌, pure, fail, of_result, attempt, modify, observe, or_status, new_request,
  ask, drain, resolved,
}

module _ {S : Type 0} {F : Filesystem S} (counts : Counts F) where
  -- The method settles the lookups in `hand`, whatever it returns.
  pub record SettlesAll {A : Type 0} (hand : ℕ → ℕ) (m : M S A) : Type 0 where
    pub settled : (w : DokanAdapter S) → Settles counts hand w → IsSettled counts (m w).1

  -- The method keeps the counts equal.
  abbrev pub Keeps : {A : Type 0} → M S A → Type 0
  Keeps = SettlesAll (λ i. 0)

  pub pure-Keeps : {A : Type 0} (a : A) → Keeps (pure a)
  unfolding pure
  pure-Keeps a = record { settled = λ w h. h }

  pub fail-Keeps : {A : Type 0} (e : NtStatus) → Keeps (fail {A = A} e)
  unfolding fail
  fail-Keeps e = record { settled = λ w h. h }

  pub of_result-Keeps : {A : Type 0} (r : Result A NtStatus) → Keeps (of_result r)
  unfolding of_result
  of_result-Keeps r = record { settled = λ w h. h }

  and_then-Keeps :
      {A B : Type 0} (f : A → M S B) (out : Result A NtStatus × DokanAdapter S)
      → IsSettled counts out.1
      → ((a : A) → Keeps (f a))
      → IsSettled counts (and_then f out).1
  unfolding and_then
  and_then-Keeps f (ok a, w) h k = (k a).settled w h
  and_then-Keeps f (err e, w) h k = h

  pub bind-SettlesAll :
      {A B : Type 0} {hand : ℕ → ℕ} {m : M S A} {f : A → M S B}
      → SettlesAll hand m
      → ((a : A) → Keeps (f a))
      → SettlesAll hand (m >>= f)
  unfolding ◌>>=◌
  bind-SettlesAll {m = m} {f = f} s k = record {
    settled = λ w h. and_then-Keeps f (m w) (s.settled w h) k;
  }

  pub then-SettlesAll :
      {A B : Type 0} {hand : ℕ → ℕ} {m : M S A} {k : M S B}
      → SettlesAll hand m
      → Keeps k
      → SettlesAll hand (m >> k)
  unfolding ◌>>◌ ◌>>=◌
  then-SettlesAll {m = m} {k = k} s t = record {
    settled = λ w h. and_then-Keeps (λ a. k) (m w) (s.settled w h) (λ a. t);
  }

  pub if-Keeps :
      {A : Type 0} (b : Bool) {m k : M S A} → Keeps m → Keeps k → Keeps (if b then m else k)
  if-Keeps true s t = s
  if-Keeps false s t = t

  pub attempt-Keeps : {A : Type 0} {m : M S A} → Keeps m → Keeps (attempt m)
  unfolding attempt
  attempt-Keeps s = record { settled = λ w h. s.settled w h }

  pub modify-SettlesAll :
      {hand : ℕ → ℕ} {f : DokanAdapter S → DokanAdapter S}
      → ((w : DokanAdapter S) → Settles counts hand w → IsSettled counts (f w))
      → SettlesAll hand (modify f)
  unfolding modify
  modify-SettlesAll s = record { settled = λ w h. s w h }

  pub new_request-Keeps : (ids : RequestIds) → Keeps (new_request ids)
  unfolding new_request request_from_ids
  new_request-Keeps ids = record {
    settled = λ w h. record { owes = h.owes; accounted = h.accounted };
  }

module _ {S : Type 0} {F : Filesystem S} (env : Env) (counts : Counts F) where
  pub drain-Keeps : (req : Request) → Keeps counts (drain F env req)
  unfolding drain modify
  drain-Keeps req = record { settled = λ w h. drain-Settles env counts req w h }

  -- Draining in between: what is in hand stays in hand.
  pub drain-then :
      {A : Type 0} {hand : ℕ → ℕ} (req : Request) {k : M S A}
      → SettlesAll counts hand k
      → SettlesAll counts hand (drain F env req >> k)
  unfolding ◌>>◌ ◌>>=◌ and_then drain modify
  drain-then req s = record { settled = λ w h. s.settled _ (drain-Settles env counts req w h) }

  -- A call whose reply grants nothing.
  pub ask-Keeps :
      (c : FsCall)
      → ((i : ℕ) → returned c i ≡ 0)
      → ((reply : ReplyOf c) (i : ℕ) → granted c reply i ≡ 0)
      → Keeps counts (ask F env c)
  unfolding ask
  ask-Keeps c none_back none_granted = record {
    settled =
        λ w h. plain_call-IsSettled env counts c w none_back (none_granted (call F env c w).0) h;
  }

  -- A call whose reply grants lookups: what follows settles them.
  pub ask-then :
      {A : Type 0} (c : FsCall) {f : ReplyOf c → M S A}
      → ((i : ℕ) → returned c i ≡ 0)
      → ((reply : ReplyOf c) → SettlesAll counts (granted c reply) (f reply))
      → Keeps counts (ask F env c >>= f)
  unfolding ◌>>=◌ and_then ask
  ask-then c none_back s = record {
    settled = λ w h.
        (s (call F env c w).0).settled (call F env c w).1 (call-Settles env counts c w none_back h);
  }

  pub observe_path-Keeps :
      (req : Request) (path : Text) → Keeps counts (observe (resolve_path_ino F env req path))
  unfolding observe
  observe_path-Keeps req path = record {
    settled = λ w h. resolve_path_ino-IsSettled env counts req path w h;
  }

  pub path-Keeps :
      (req : Request) (path : Text) → Keeps counts (or_status (resolve_path_ino F env req path))
  unfolding or_status
  path-Keeps req path = record {
    settled = λ w h. resolve_path_ino-IsSettled env counts req path w h;
  }

  pub observe_context-Keeps :
      (req : Request) (path : Text) (context : AdapterContext)
      → Keeps counts (observe (resolve_context_or_path F env req path context))
  unfolding observe
  observe_context-Keeps req path context = record {
    settled = λ w h. resolve_context_or_path-IsSettled env counts req path context w h;
  }

  pub resolved-Keeps :
      (req : Request) (path : Text) (context : AdapterContext)
      → Keeps counts (resolved F env req path context)
  unfolding resolved or_status
  resolved-Keeps req path context = record {
    settled = λ w h. resolve_context_or_path-IsSettled env counts req path context w h;
  }

  pub invalidate_inode_attr-Keeps :
      (ino : ℕ) → Keeps counts (modify (invalidate_inode_attr F env ino))
  invalidate_inode_attr-Keeps ino =
      modify-SettlesAll counts (invalidate_inode_attr-Settles env counts ino)

  pub invalidate_path_cache-Keeps :
      (req : Request) (path : Text) → Keeps counts (modify (invalidate_path_cache F env req path))
  invalidate_path_cache-Keeps req path =
      modify-SettlesAll counts (invalidate_path_cache-IsSettled env counts req path)

  pub finish_metadata_mutation-Keeps :
      (req : Request) (path : Text) (ino : ℕ)
      → Keeps counts (modify (finish_metadata_mutation F env req path ino))
  finish_metadata_mutation-Keeps req path ino =
      modify-SettlesAll counts (finish_metadata_mutation-IsSettled env counts req path ino)

pub ruleset keeps_rules = (
  pure-Keeps, fail-Keeps, of_result-Keeps, bind-SettlesAll, then-SettlesAll, if-Keeps,
  attempt-Keeps, new_request-Keeps, drain-Keeps, ask-Keeps, observe_path-Keeps, path-Keeps,
  observe_context-Keeps, resolved-Keeps, invalidate_inode_attr-Keeps, invalidate_path_cache-Keeps,
  finish_metadata_mutation-Keeps,
)
