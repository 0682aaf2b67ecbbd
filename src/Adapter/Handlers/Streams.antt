-- ===== src/Adapter/Handlers/Streams.antt =====
-- src/dokan_impl/adapter/handler_methods/security_locks_streams.rs: named streams. Dokan's function
-- that takes a stream is `refuses`: whether it refuses the last of those that it has been handed.
use confuse.Common.{
  ℕ, min, Bool, Option, none, some, List, [], ◌∷◌, ◌++◌, any, filter, not, ◌==◌, if◌then◌else◌,
  Result, ok, err,
}
use confuse.Common.Int.{ℤ, pos, i64_max}
use confuse.Common.Text.{Text, split, is_empty}
use confuse.Facade.Errno
use confuse.Facade.Types.{ReplyAttrPayload}
use confuse.Resolver.State.{Env}
use confuse.Helpers.Codes.{
  NtStatus, not_implemented, ntstatus, classify_optional_probe_error, missing_reply_status,
}
use confuse.Helpers.Security.{data_suffix, xattr_needs_data_fetch, stream_name_from_xattr}
use confuse.Adapter.Calls.{Request, Reply, XattrReply, Filesystem, getattr, getxattr, listxattr}
use confuse.Adapter.World.{AdapterContext}
use confuse.Adapter.Monad.{M, ◌>>=◌, ◌>>◌, pure, new_request, ask, drain, resolved}

-- `dokan::FindStreamData`
pub record FindStreamData : Type 0 where
  pub size : ℤ
  pub name : Text

-- What Dokan was handed, and the result.
abbrev pub Emitted : Type 0
Emitted = List FindStreamData × Result (Unit {0}) NtStatus

-- `U16CString::from_str` fails at a name with a zero.
unfoldable pub has_nul : Text → Bool
has_nul name = any (λ c. c == 0) name

unfoldable pub size_of : Reply ReplyAttrPayload → ℤ
size_of (some (ok payload)) = pos (min payload.attr.size i64_max)
size_of _ = pos 0

unfoldable pub hinted_size : Option ℕ → ℤ
hinted_size (some size) = pos size
hinted_size none = pos 0

unfoldable pub or_empty : Option Text → Text
or_empty (some text) = text
or_empty none = []

module _ {S : Type 0} (F : Filesystem S) (env : Env) (from_utf8 : List ℕ → Option Text)
    (refuses : List FindStreamData → Bool) where
  unfoldable pub emit_named_streams :
      Request → ℕ → List (List ℕ) → List FindStreamData → M S Emitted
  unfolding stream_name_from_xattr hinted_size has_nul or_empty
  emit_named_streams req ino [] given = pure (given, ok tt)
  emit_named_streams req ino (raw_name ∷ rest) given =
      elim (stream_name_from_xattr from_utf8 raw_name) [
        | none ↦ emit_named_streams req ino rest given
        | some name ↦
            (ask F env (getxattr req ino (or_empty (from_utf8 raw_name)) 0) >>= (λ reply.
              let given' =
                given ++ (record { size = hinted_size reply.size_hint; name = name } ∷ []) in
              if has_nul name
              then pure (given, err not_implemented)
              else (if refuses given'
                  then pure (given', ok tt)
                  else emit_named_streams req ino rest given')))
      ]

  -- The list of names, asked for again with its size where the first reply told only that.
  unfoldable pub fetch_stream_xattr_list : Request → ℕ → XattrReply → M S (Reply (List ℕ))
  unfolding xattr_needs_data_fetch
  fetch_stream_xattr_list req ino reply = elim reply.status [
    | none ↦ pure none
    | some (err e) ↦ pure (some (err e))
    | some (ok bytes) ↦ elim (xattr_needs_data_fetch bytes reply.size_hint) [
      | none ↦ pure (some (ok bytes))
      | some fetch_size ↦
          (ask F env (listxattr req ino fetch_size) >>= (λ fetch. pure fetch.status))
    ]
  ]

  unfoldable pub names_in : List ℕ → List (List ℕ)
  unfolding split is_empty
  names_in bytes = filter (λ part. not (is_empty part)) (split (λ b. b == 0) bytes)

  unfoldable pub use_stream_list : Request → ℕ → List FindStreamData → Reply (List ℕ) → M S Emitted
  unfolding emit_named_streams names_in
  use_stream_list req ino given (some (ok bytes)) =
      emit_named_streams req ino (names_in bytes) given
  use_stream_list req ino given (some (err e)) =
      if e == Errno.enosys
      then pure (given, ok tt)
      else pure (given, err (ntstatus (classify_optional_probe_error e)))
  use_stream_list req ino given none = pure (given, err missing_reply_status)

  -- The named streams, where Dokan took the default one.
  unfoldable pub list_streams : Request → ℕ → List FindStreamData → M S Emitted
  unfolding fetch_stream_xattr_list use_stream_list
  list_streams req ino given = do
    reply ← ask F env (listxattr req ino 0)
    names ← fetch_stream_xattr_list req ino reply
    drain F env req
    use_stream_list req ino given names

  -- The name of the default stream is "::$DATA".
  unfoldable pub find_streams : Text → AdapterContext → M S Emitted
  unfolding size_of list_streams
  find_streams file_name context = do
    req ← new_request context.request_ids
    target ← resolved F env req file_name context
    attr ← ask F env (getattr req target.ino (some target.fh))
    let given = record { size = size_of attr; name = 58 ∷ data_suffix } ∷ []
    if refuses given then pure (given, ok tt) else list_streams req target.ino given
