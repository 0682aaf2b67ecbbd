-- ===== src/Adapter/Settled/Security.antt =====
-- src/dokan_impl/adapter/handler_methods/security_locks_streams.rs: the counts of lookups after the
-- callbacks for security descriptors and streams.
use confuse.Common.{ℕ, Bool, Option, none, some, Option-cases, List, [], ◌∷◌, inl, inr, ok, err}
use confuse.Common.Text.{Text}
use confuse.Resolver.State.{Env}
use confuse.Helpers.Security.{xattr_needs_data_fetch, stream_name_from_xattr}
use confuse.Adapter.Calls.{Request, Reply, XattrReply, Filesystem}
use confuse.Adapter.World.{AdapterContext}
use confuse.Adapter.Ledger.{Counts}
use confuse.Adapter.Keeps.{Keeps, keeps_rules, pure-Keeps}
use confuse.Adapter.Handlers.Security.{
  DokanBuffer, synthesized_security_descriptor_from_fs, fetched, fetch_security_descriptor_data,
  copy_existing_or_fetched_security_descriptor, use_descriptor, get_file_security,
  set_file_security,
}
use confuse.Adapter.Handlers.Streams.{
  FindStreamData, emit_named_streams, fetch_stream_xattr_list, use_stream_list, list_streams,
  find_streams,
}

module _ {S : Type 0} {F : Filesystem S} (env : Env) (counts : Counts F) where
  synthesized-Keeps :
      (req : Request) (ino fh : ℕ)
      → Keeps counts (synthesized_security_descriptor_from_fs F env req ino fh)
  unfolding synthesized_security_descriptor_from_fs
  synthesized-Keeps req ino fh = search keeps_rules

  fetched-Keeps :
      (req : Request) (target : AdapterContext) (reply : Reply (List ℕ))
      → Keeps counts (fetched F env req target reply)
  unfolding fetched
  fetched-Keeps req target (some (ok bytes)) = search keeps_rules
  fetched-Keeps req target (some (err e)) = search (keeps_rules, synthesized-Keeps)
  fetched-Keeps req target none = search keeps_rules

  fetch_security_descriptor_data-Keeps :
      (req : Request) (target : AdapterContext) (bytes : List ℕ) (size_hint : Option ℕ)
      (buffer : DokanBuffer)
      → Keeps counts (fetch_security_descriptor_data F env req target bytes size_hint buffer)
  unfolding fetch_security_descriptor_data
  fetch_security_descriptor_data-Keeps req target bytes size_hint buffer =
      elim (Option-cases (xattr_needs_data_fetch bytes size_hint)) [
        | inl e ↦ rw (fetch_security_descriptor_data, e) (pure-Keeps counts bytes)
        | inr (n, e) ↦ rw (fetch_security_descriptor_data, e) (search (keeps_rules, fetched-Keeps))
      ]

  copy_existing-Keeps :
      (req : Request) (target : AdapterContext) (bytes : List ℕ) (size_hint : Option ℕ)
      (buffer : DokanBuffer)
      → Keeps counts
          (copy_existing_or_fetched_security_descriptor F env req target bytes size_hint buffer)
  unfolding copy_existing_or_fetched_security_descriptor
  copy_existing-Keeps req target bytes size_hint buffer =
      search (keeps_rules, fetch_security_descriptor_data-Keeps) depth 12

  use_descriptor-Keeps :
      (req : Request) (target : AdapterContext) (buffer : DokanBuffer) (size_hint : Option ℕ)
      (reply : Reply (List ℕ))
      → Keeps counts (use_descriptor F env req target buffer size_hint reply)
  unfolding use_descriptor
  use_descriptor-Keeps req target buffer size_hint (some (ok bytes)) =
      copy_existing-Keeps req target bytes size_hint buffer
  use_descriptor-Keeps req target buffer size_hint (some (err e)) =
      search (keeps_rules, synthesized-Keeps) depth 8
  use_descriptor-Keeps req target buffer size_hint none = search keeps_rules

  pub get_file_security-Keeps :
      (file_name : Text) (buffer : DokanBuffer) (context : AdapterContext)
      → Keeps counts (get_file_security F env file_name buffer context)
  unfolding get_file_security
  get_file_security-Keeps file_name buffer context =
      search (keeps_rules, use_descriptor-Keeps) depth 12

  pub set_file_security-Keeps :
      (file_name : Text) (descriptor : List ℕ) (context : AdapterContext)
      → Keeps counts (set_file_security F env file_name descriptor context)
  unfolding set_file_security
  set_file_security-Keeps file_name descriptor context = search keeps_rules depth 12

  module _ (from_utf8 : List ℕ → Option Text) (refuses : List FindStreamData → Bool) where
    emit_named_streams-Keeps :
        (req : Request) (ino : ℕ) (names : List (List ℕ)) (given : List FindStreamData)
        → Keeps counts (emit_named_streams F env from_utf8 refuses req ino names given)
    unfolding emit_named_streams
    emit_named_streams-Keeps req ino [] given = pure-Keeps counts _
    emit_named_streams-Keeps req ino (raw_name ∷ names) given =
        elim (Option-cases (stream_name_from_xattr from_utf8 raw_name)) [
          | inl e ↦ rw (emit_named_streams, e) (emit_named_streams-Keeps req ino names given)
          | inr (name, e) ↦
              let rest = emit_named_streams-Keeps req ino names in
              rw (emit_named_streams, e) (search (keeps_rules, rest) depth 8)
        ]

    fetch_stream_xattr_list-Keeps :
        (req : Request) (ino : ℕ) (status : Reply (List ℕ)) (size_hint : Option ℕ)
        → Keeps counts (
            fetch_stream_xattr_list F env from_utf8 refuses req ino
              (record { status = status; size_hint = size_hint }))
    unfolding fetch_stream_xattr_list
    fetch_stream_xattr_list-Keeps req ino none size_hint = search keeps_rules
    fetch_stream_xattr_list-Keeps req ino (some (err e)) size_hint = search keeps_rules
    fetch_stream_xattr_list-Keeps req ino (some (ok bytes)) size_hint =
        elim (Option-cases (xattr_needs_data_fetch bytes size_hint)) [
          | inl e ↦ rw (fetch_stream_xattr_list, e) (pure-Keeps counts _)
          | inr (n, e) ↦ rw (fetch_stream_xattr_list, e) (search keeps_rules)
        ]

    fetch_of-Keeps :
        (req : Request) (ino : ℕ) (reply : XattrReply)
        → Keeps counts (fetch_stream_xattr_list F env from_utf8 refuses req ino reply)
    fetch_of-Keeps req ino reply =
        fetch_stream_xattr_list-Keeps req ino reply.status reply.size_hint

    use_stream_list-Keeps :
        (req : Request) (ino : ℕ) (given : List FindStreamData) (reply : Reply (List ℕ))
        → Keeps counts (use_stream_list F env from_utf8 refuses req ino given reply)
    unfolding use_stream_list
    use_stream_list-Keeps req ino given (some (ok bytes)) = emit_named_streams-Keeps req ino _ given
    use_stream_list-Keeps req ino given (some (err e)) = search keeps_rules
    use_stream_list-Keeps req ino given none = search keeps_rules

    list_streams-Keeps :
        (req : Request) (ino : ℕ) (given : List FindStreamData)
        → Keeps counts (list_streams F env from_utf8 refuses req ino given)
    unfolding list_streams
    list_streams-Keeps req ino given =
        search (keeps_rules, fetch_of-Keeps, use_stream_list-Keeps) depth 12

    pub find_streams-Keeps :
        (file_name : Text) (context : AdapterContext)
        → Keeps counts (find_streams F env from_utf8 refuses file_name context)
    unfolding find_streams
    find_streams-Keeps file_name context = search (keeps_rules, list_streams-Keeps) depth 12
