-- ===== src/Adapter/Monad.antt =====
-- Methods of src/dokan_impl/adapter as functions on the adapter's state that return a value or a
-- status; `?` and early returns are the failures.
use confuse.Common.{ℕ, none, some, Result, ok, err}
use confuse.Common.Text.{Text}
use confuse.Resolver.State.{Env}
use confuse.Helpers.Codes.{NtStatus, errno_to_ntstatus, missing_reply_status}
use confuse.Adapter.Calls.{RequestIds, Request, FsCall, ReplyOf, Reply, Filesystem}
use confuse.Adapter.World.{AdapterContext, DokanAdapter, request_from_ids}
use confuse.Adapter.Paths.{call, drain_resolver_forgets, resolve_context_or_path}

abbrev pub M : Type 0 → Type 0 → Type 0
M S A = DokanAdapter S → Result A NtStatus × DokanAdapter S

unfoldable pub and_then :
    {S A B : Type 0}
    → (A → M S B)
    → Result A NtStatus × DokanAdapter S
    → Result B NtStatus × DokanAdapter S
and_then f (ok a, w) = f a w
and_then f (err e, w) = (err e, w)

infixl 5 ◌>>=◌ ◌>>◌
unfoldable pub ◌>>=◌ : {S A B : Type 0} → M S A → (A → M S B) → M S B
unfolding and_then
◌>>=◌ m f w = and_then f (m w)

unfoldable pub ◌>>◌ : {S A B : Type 0} → M S A → M S B → M S B
unfolding ◌>>=◌
m >> k = m >>= λ _. k

unfoldable pub pure : {S A : Type 0} → A → M S A
pure a w = (ok a, w)

unfoldable pub fail : {S A : Type 0} → NtStatus → M S A
fail e w = (err e, w)

unfoldable pub of_result : {S A : Type 0} → Result A NtStatus → M S A
of_result r w = (r, w)

-- What a part returned, failure included, as a value.
unfoldable pub attempt : {S A : Type 0} → M S A → M S (Result A NtStatus)
attempt m w = let (r, w') = m w in (ok r, w')

-- A change of the state.
unfoldable pub modify : {S : Type 0} → (DokanAdapter S → DokanAdapter S) → M S (Unit {0})
modify f w = (ok tt, f w)

-- A method that fails with an error number, where the caller looks at the number.
unfoldable pub observe :
    {S A : Type 0} → (DokanAdapter S → Result A ℕ × DokanAdapter S) → M S (Result A ℕ)
observe m w = let (r, w') = m w in (ok r, w')

-- `map_err(errno_to_ntstatus)`
unfoldable pub with_status : {A : Type 0} → Result A ℕ → Result A NtStatus
with_status (ok a) = ok a
with_status (err e) = err (errno_to_ntstatus e)

unfoldable pub or_status : {S A : Type 0} → (DokanAdapter S → Result A ℕ × DokanAdapter S) → M S A
unfolding with_status
or_status m w = let (r, w') = m w in (with_status r, w')

-- The match on the slot of a reply that most handlers end with.
unfoldable pub reply_result : {A : Type 0} → Reply A → Result A NtStatus
reply_result (some (ok a)) = ok a
reply_result (some (err e)) = err (errno_to_ntstatus e)
reply_result none = err missing_reply_status

unfoldable pub new_request : {S : Type 0} → RequestIds → M S Request
new_request ids w = let (req, w') = request_from_ids ids w in (ok req, w')

module _ {S : Type 0} (F : Filesystem S) (env : Env) where
  unfoldable pub ask : (c : FsCall) → M S (ReplyOf c)
  ask c w = let (reply, w') = call F env c w in (ok reply, w')

  unfoldable pub drain : Request → M S (Unit {0})
  unfolding modify
  drain req = modify (drain_resolver_forgets F env req)

  unfoldable pub resolved : Request → Text → AdapterContext → M S AdapterContext
  unfolding or_status
  resolved req path context = or_status (resolve_context_or_path F env req path context)
