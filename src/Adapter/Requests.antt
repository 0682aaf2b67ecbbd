-- ===== src/Adapter/Requests.antt =====
-- src/dokan_impl/adapter/create_routes.rs: the data that the routes pass on.
use confuse.Common.{ℕ, Bool, true, not, ◌||◌, none, ◌==◌, if◌then◌else◌}
use confuse.Common.Text.{Text}
use confuse.Common.Assoc.{insert}
use confuse.Facade.Types.{FileAttr, ReplyCreatePayload}
use confuse.Helpers.Codes.{is_directory}
use confuse.Adapter.Calls.{RequestIds, Request}
use confuse.Adapter.World.{AdapterContext, default_context, DokanAdapter}

-- `dokan::CreateFileInfo`
pub record CreateFileInfo : Type 0 where
  pub context : AdapterContext
  pub is_dir : Bool
  pub new_file_created : Bool

pub record CreateEntryRequest : Type 0 where
  pub req : Request
  pub file_name : Text
  pub parent_ino : ℕ
  pub leaf : Text
  pub path_ino : ℕ
  pub request_ids : RequestIds
  pub mode : ℕ
  pub is_dir_open : Bool

pub record OpenEntryRequest : Type 0 where
  pub req : Request
  pub file_name : Text
  pub path_ino : ℕ
  pub request_ids : RequestIds
  pub open_flags : ℕ
  pub is_dir_open : Bool

pub record CreatedEntry : Type 0 where
  pub req : Request
  pub file_name : Text
  pub parent_ino : ℕ
  pub leaf : Text
  pub attr : FileAttr
  pub generation : ℕ
  pub ttl : ℕ
  pub ctx : AdapterContext

-- `OpenEntryRequest::from_create`
unfoldable pub from_create : CreateEntryRequest → ℕ → OpenEntryRequest
from_create c open_flags = record {
  req = c.req;
  file_name = c.file_name;
  path_ino = c.path_ino;
  request_ids = c.request_ids;
  open_flags = open_flags;
  is_dir_open = c.is_dir_open;
}

unfoldable pub remember_open_context :
    {S : Type 0} → Text → AdapterContext → DokanAdapter S → DokanAdapter S
remember_open_context file_name ctx w = record w { handles = insert file_name ctx w.handles }

abbrev pub entry_ino : FileAttr → ℕ → ℕ
entry_ino attr path_ino = if not (attr.ino == 0) then attr.ino else path_ino

unfoldable pub directory_context : CreateEntryRequest → FileAttr → AdapterContext
directory_context c attr = record default_context {
  ino = entry_ino attr c.path_ino;
  is_dir = true;
  request_ids = c.request_ids;
}

unfoldable pub created_entry : CreateEntryRequest → FileAttr → ℕ → ℕ → AdapterContext → CreatedEntry
created_entry c attr generation ttl ctx = record {
  req = c.req;
  file_name = c.file_name;
  parent_ino = c.parent_ino;
  leaf = c.leaf;
  attr = attr;
  generation = generation;
  ttl = ttl;
  ctx = ctx;
}

unfoldable pub file_context : CreateEntryRequest → ReplyCreatePayload → AdapterContext
file_context c payload = record {
  fh = payload.fh;
  flags = payload.flags;
  ino = entry_ino payload.attr c.path_ino;
  is_dir = is_directory payload.attr.kind || c.is_dir_open;
  lock_owner = none;
  request_ids = c.request_ids;
}
