-- ===== src/Memfs/Adapted.antt =====
-- examples/memfs below the adapter: a file written and read through the callbacks.
use confuse.Common.{ℕ, refl}
use confuse.Common.Text.{Text}
use confuse.Adapter.Calls.{Request, default_reply}
use confuse.Adapter.World.{AdapterContext, DokanAdapter, request_from_ids}
use confuse.Adapter.Untouched.{IsUncounted}
use confuse.Memfs.Service.{memfs}

pub memfs-IsUncounted : (clock : ℕ → ℕ) → IsUncounted (memfs clock)
unfolding memfs default_reply
memfs-IsUncounted clock = record { looked = λ req p name fs. refl; forgot = λ req ino n fs. refl }

-- The request of a callback, and the adapter after it is numbered.
abbrev first : {S : Type 0} → AdapterContext → DokanAdapter S → Request × DokanAdapter S
first context w = request_from_ids context.request_ids w
