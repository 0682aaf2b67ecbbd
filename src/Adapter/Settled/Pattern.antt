-- ===== src/Adapter/Settled/Pattern.antt =====
-- src/dokan_impl/adapter/handler_methods/dispatch.rs: the lookups after `find_files_with_pattern`.
use confuse.Common.{
  ℕ, ◌≡◌, refl, inl, inr, Bool, false, none, any, List, [], ◌∷◌, if◌then◌else◌, Result, ok, err,
  Bool-cases, arith,
}
use confuse.Common.Text.{Text}
use confuse.Facade.Types.{DirectoryPlusEntryPayload}
use confuse.Resolver.State.{Env}
use confuse.Helpers.Codes.{NtStatus}
use confuse.Adapter.Calls.{Request, Filesystem, DirectoryPlusReply, readdirplus}
use confuse.Adapter.World.{AdapterContext, DokanAdapter, request_from_ids}
use confuse.Adapter.Paths.{Out, call, drain_resolver_forgets}
use confuse.Adapter.Ledger.{
  entries_of, dots_of, counted_of, dots-counted, is_dots, Counts, Settles, IsSettled, moved_counts,
  call-Settles, drain-Settles,
}
use confuse.Adapter.Monad.{M, and_then, ◌>>=◌, ◌>>◌, new_request, ask, drain, modify}
use confuse.Adapter.Keeps.{Keeps, new_request-Keeps}
use confuse.Adapter.Handlers.Directory.{
  FindData, is_enosys, directory_ino, directory_offset, inspect, find_by_readdir,
  emit_readdirplus_pattern_entries, finish_listing, find_files_with_pattern,
}
use confuse.Common.Int.{ℤ, max_zero}
use confuse.Adapter.Settled.Directory.{
  directory_ino-Keeps, find_by_readdir-Keeps, finish_listing-Keeps,
}
use confuse.Adapter.Settled.Listing.{unread, emit_readdirplus-Settles}

-- A file system that leaves "." and ".." out of the listings of `readdirplus`, as it may.
pub record LeavesDots {S : Type 0} (F : Filesystem S) : Type 0 where
  pub without :
      (req : Request) (ino fh offset : ℕ) (s : S)
      → any is_dots (F (readdirplus req ino fh offset) s).0.entries ≡ false

dots_of-none :
    (i : ℕ) (es : List DirectoryPlusEntryPayload) → any is_dots es ≡ false → dots_of i es ≡ 0
dots_of-none i [] h = refl
dots_of-none i (e ∷ es) h = ground (arith, dots_of-none i es)

module _ {S : Type 0} {F : Filesystem S} (counts : Counts F) where
  -- A method that keeps the counts of every file system keeps what is in hand.
  carry :
      {A : Type 0} {hand : ℕ → ℕ} {m : M S A}
      → ((others : Counts F) → Keeps others m)
      → (w : DokanAdapter S) → Settles counts hand w
      → Settles counts hand (m w).1
  carry {hand = hand} keeps w h =
      let others = moved_counts counts (λ i. 0) hand (λ s i. omega (arith, counts.bounded s i)) in
      let settled : IsSettled others w = record {
        owes = λ i. omega (arith, h.owes i);
        accounted = h.accounted;
      } in
      let after = (keeps others).settled w settled in
      record { owes = λ i. omega (arith, after.owes i); accounted = after.accounted }

-- The entries of a listing that the handler does not read: all of them, where the file system has no
-- `readdirplus` and still gave some.
abbrev pub left_over :
    (List FindData → Bool)
    → (Text → Text → Bool)
    → Text
    → Text
    → DirectoryPlusReply
    → List DirectoryPlusEntryPayload
left_over refuses matches file_name pattern reply =
    if is_enosys reply.status
    then reply.entries
    else unread refuses matches file_name pattern reply.entries []

-- The entries that a reply of `readdirplus` lists and the handler does not read.
abbrev pub left_over_of :
    (List FindData → Bool)
    → (Text → Text → Bool)
    → Text
    → Text
    → Result DirectoryPlusReply NtStatus
    → List DirectoryPlusEntryPayload
left_over_of refuses matches file_name pattern (ok reply) =
    left_over refuses matches file_name pattern reply
left_over_of refuses matches file_name pattern (err e) = []

module _ {S : Type 0} (F : Filesystem S) (env : Env) (refuses : List FindData → Bool)
    (matches : Text → Text → Bool) where
  -- The call of `readdirplus` of the handler.
  unfoldable pub listed_from : Text → AdapterContext → Request → ℕ → M S DirectoryPlusReply
  unfolding inspect directory_offset
  listed_from file_name context req ino = do
    req_offset ← inspect (directory_offset file_name)
    ask F env (readdirplus req ino context.fh (max_zero req_offset))

  unfoldable pub listed : Text → AdapterContext → M S DirectoryPlusReply
  unfolding directory_ino listed_from
  listed file_name context = do
    req ← new_request context.request_ids
    ino ← directory_ino F env refuses matches req file_name context
    listed_from file_name context req ino

module _ {S : Type 0} {F : Filesystem S} (env : Env) (counts : Counts F)
    (refuses : List FindData → Bool) (matches : Text → Text → Bool) where
  then-carry :
      {A B : Type 0} {hand : ℕ → ℕ} (f : A → M S B) (out : Out S (Result A NtStatus))
      → ((others : Counts F) (a : A) → Keeps others (f a))
      → Settles counts hand out.1
      → Settles counts hand (and_then f out).1
  unfolding and_then
  then-carry f (ok a, w) keeps h = carry counts (λ others. keeps others a) w h
  then-carry f (err e, w) keeps h = h

  -- The handler, from the reply on.
  replied-Settles :
      (req : Request) (file_name pattern : Text) (ino fh : ℕ) (req_offset : ℤ)
      (reply : DirectoryPlusReply) (w : DokanAdapter S)
      → any is_dots reply.entries ≡ false
      → Settles counts (λ i. counted_of i reply.entries) w
      → Settles counts
          (λ i. entries_of i (left_over refuses matches file_name pattern reply))
          ((drain F env req
              >> (if is_enosys reply.status
                  then find_by_readdir F env refuses matches req file_name pattern ino fh req_offset
                  else (emit_readdirplus_pattern_entries F env refuses matches req file_name pattern
                        ino reply.entries [] none
                      >>= finish_listing F env refuses matches file_name req_offset reply.status)))
            w).1
  unfolding ◌>>◌ ◌>>=◌ drain modify and_then
  replied-Settles req file_name pattern ino fh req_offset reply w no_dots h =
      let w' = drain_resolver_forgets F env req w in
      let all : Settles counts (λ i. entries_of i reply.entries) w = record {
        owes = λ i.
            omega
              (arith, h.owes i, dots-counted i reply.entries, dots_of-none i reply.entries no_dots);
        accounted = h.accounted;
      } in
      let drained : Settles counts (λ i. entries_of i reply.entries) w' =
        drain-Settles env counts req w all in
      elim (Bool-cases (is_enosys reply.status)) [
        | inl e ↦ rw e (
            carry counts
              (λ others.
                find_by_readdir-Keeps env others refuses matches req file_name pattern ino fh
                  req_offset)
              w' drained)
        | inr e ↦ rw e (
            then-carry (finish_listing F env refuses matches file_name req_offset reply.status)
              (emit_readdirplus_pattern_entries F env refuses matches req file_name pattern ino
                reply.entries [] none w')
              (λ others emission.
                finish_listing-Keeps env others refuses matches file_name req_offset reply.status
                  emission)
              (emit_readdirplus-Settles env counts refuses matches req file_name pattern ino
                reply.entries [] none w' drained))
      ]

  found-Settles :
      (leaves : LeavesDots F) (req : Request) (file_name pattern : Text) (context : AdapterContext)
      (out : Out S (Result ℕ NtStatus))
      → IsSettled counts out.1
      → Settles counts
          (λ i. entries_of i (
            left_over_of refuses matches file_name pattern
              (and_then (listed_from F env refuses matches file_name context req) out).0))
          (and_then
            (λ ino. inspect (directory_offset file_name) >>= (λ req_offset.
              ask F env (readdirplus req ino context.fh (max_zero req_offset)) >>= (λ reply.
                drain F env req
                >> (if is_enosys reply.status
                    then find_by_readdir F env refuses matches req file_name pattern ino context.fh
                        req_offset
                    else (emit_readdirplus_pattern_entries F env refuses matches req file_name
                          pattern ino reply.entries [] none
                        >>= finish_listing F env refuses matches file_name req_offset
                            reply.status)))))
            out).1
  unfolding and_then listed_from ◌>>=◌ inspect ask
  found-Settles leaves req file_name pattern context (ok ino, w) h =
      let req_offset = directory_offset file_name w in
      let c = readdirplus req ino context.fh (max_zero req_offset) in
      replied-Settles req file_name pattern ino context.fh req_offset (call F env c w).0
        (call F env c w).1
        (unfold call in leaves.without req ino context.fh (max_zero req_offset) w.fs)
        (call-Settles env counts c w (λ i. refl) h)
  found-Settles leaves req file_name pattern context (err e, w) h = h

  -- For a file system that leaves "." and ".." out: listing a directory with a pattern keeps the
  -- counts, except for the entries that it does not read, whose lookups nobody gives back.
  pub find_files_with_pattern-Settles :
      (leaves : LeavesDots F) (file_name pattern : Text) (context : AdapterContext)
      (w : DokanAdapter S)
      → IsSettled counts w
      → Settles counts
          (λ i. entries_of i (
            left_over_of refuses matches file_name pattern
              (listed F env refuses matches file_name context w).0))
          (find_files_with_pattern F env refuses matches file_name pattern context w).1
  unfolding find_files_with_pattern listed new_request ◌>>=◌ and_then
  find_files_with_pattern-Settles leaves file_name pattern context w h =
      let (req, w') = request_from_ids context.request_ids w in
      found-Settles leaves req file_name pattern context
        (directory_ino F env refuses matches req file_name context w')
        ((directory_ino-Keeps env counts refuses matches req file_name context).settled w'
          ((new_request-Keeps counts context.request_ids).settled w h))
