-- ===== src/Facade/Filling.antt =====
-- src/fuser_facade/reply/api.rs: a directory reply as a file system fills it.
use confuse.Common.{
  ℕ, ◌+◌, ◌%◌, ◌^◌, ◌≤◌, ◌<◌, ◌≡◌, refl, sym, ◌∙◌, inl, inr, false, none, List, [], ◌∷◌, ◌++◌, ltb,
  saturating_add, if◌then◌else◌, Bool-cases, arith,
}
use mathlib.Core.List.{append_assoc, append-nil}
use confuse.Facade.Types.{DirectoryEntryPayload}
use confuse.Facade.Buffers.{ReplyDirectory, add_sized, add, dirent_entry_size}

-- A file system that adds entries until the buffer is full.
abbrev pub add_all : List DirectoryEntryPayload → ReplyDirectory → ReplyDirectory
add_all [] reply = reply
add_all (e ∷ es) reply =
    let (full, reply') = add e reply in if full then reply' else add_all es reply'

abbrev pub total_size : List DirectoryEntryPayload → ℕ
total_size [] = 0
total_size (e ∷ es) = dirent_entry_size e.name + total_size es

total_size-append :
    (xs : List DirectoryEntryPayload) (e : DirectoryEntryPayload)
    → total_size (xs ++ (e ∷ [])) ≡ total_size xs + dirent_entry_size e.name
total_size-append [] e = omega arith
total_size-append (x ∷ xs) e = omega (arith, total_size-append xs e)

-- The used size is that of the entries, within the limit, which is below `usize::MAX`.
pub record IsSized (reply : ReplyDirectory) : Type 0 where
  pub used : reply.used_size ≡ total_size reply.entries
  pub within : reply.used_size ≤ reply.max_size
  pub limit : reply.max_size + 1 < 2 ^ 64

add-IsSized :
    (e : DirectoryEntryPayload) (reply : ReplyDirectory) → IsSized reply → IsSized (add e reply).1
unfolding add add_sized
add-IsSized e reply good = elim (Bool-cases reply.full) [
  | inl h ↦
      rw (add, add_sized, h) (record { used = good.used; within = good.within; limit = good.limit })
  | inr h ↦
      elim (Bool-cases
        (ltb reply.max_size (saturating_add reply.used_size (dirent_entry_size e.name)))) [
          | inl h' ↦
              rw (add, add_sized, h, h')
                (record { used = good.used; within = good.within; limit = good.limit })
          | inr h' ↦
              rw (add, add_sized, h, h')
                (record {
                  used = ground (arith, total_size-append reply.entries e, good.used, good.limit);
                  within = ground (arith, good.within, good.limit);
                  limit = good.limit;
                })
        ]
]

-- What the buffer takes is a beginning of the entries offered, and all of them unless it is full.
pub add_all-beginning :
    (es : List DirectoryEntryPayload) (reply : ReplyDirectory)
    → (rest : List DirectoryEntryPayload) × (reply.entries ++ es
        ≡ (add_all es reply).entries ++ rest)
      × ((add_all es reply).full ≡ false → rest ≡ [])
unfolding add add_sized
add_all-beginning [] reply = ([], refl, λ h. refl)
add_all-beginning (e ∷ es) reply = elim (Bool-cases reply.full) [
  | inl h ↦ rw (add_all, add, add_sized, h) (e ∷ es, refl, λ no. absurd (ground arith))
  | inr h ↦
      elim (Bool-cases
        (ltb reply.max_size (saturating_add reply.used_size (dirent_entry_size e.name)))) [
          | inl h' ↦ rw (add_all, add, add_sized, h, h') (e ∷ es, refl, λ no. absurd (ground arith))
          | inr h' ↦
              let (rest, joined, all) = add_all-beginning es (record reply {
                full = false;
                entries = reply.entries ++ (e ∷ []);
                used_size = (reply.used_size + dirent_entry_size e.name) % 2 ^ 64;
              }) in
              rw (add_all, add, add_sized, h, h')
                (rest, sym (append_assoc reply.entries (e ∷ []) es) ∙ joined, all)
        ]
]

-- What was in the buffer stays in front.
add_all-extends :
    (es : List DirectoryEntryPayload) (reply : ReplyDirectory)
    → (more : List DirectoryEntryPayload) × ((add_all es reply).entries ≡ reply.entries ++ more)
unfolding add add_sized
add_all-extends [] reply = ([], sym (append-nil reply.entries))
add_all-extends (e ∷ es) reply = elim (Bool-cases reply.full) [
  | inl h ↦ rw (add_all, add, add_sized, h) ([], sym (append-nil reply.entries))
  | inr h ↦
      elim (Bool-cases
        (ltb reply.max_size (saturating_add reply.used_size (dirent_entry_size e.name)))) [
          | inl h' ↦ rw (add_all, add, add_sized, h, h') ([], sym (append-nil reply.entries))
          | inr h' ↦
              let (more, joined) = add_all-extends es (record reply {
                full = false;
                entries = reply.entries ++ (e ∷ []);
                used_size = (reply.used_size + dirent_entry_size e.name) % 2 ^ 64;
              }) in
              rw (add_all, add, add_sized, h, h')
                (e ∷ more, joined ∙ append_assoc reply.entries (e ∷ []) more)
        ]
]

abbrev pub empty_reply : ℕ → ReplyDirectory
empty_reply max = record {
  status = none;
  entries = [];
  full = false;
  max_size = max;
  used_size = 0;
}

-- An empty buffer takes a first entry that fits.
pub add_all-first :
    (e : DirectoryEntryPayload) (es : List DirectoryEntryPayload) (max : ℕ)
    → dirent_entry_size e.name ≤ max
    → (more : List DirectoryEntryPayload) × ((add_all (e ∷ es) (empty_reply max)).entries
        ≡ e ∷ more)
unfolding add add_sized
add_all-first e es max fits =
    let (more, joined) = add_all-extends es (record (empty_reply max) {
      entries = e ∷ [];
      used_size = (0 + dirent_entry_size e.name) % 2 ^ 64;
    }) in
    let room : ltb max (saturating_add 0 (dirent_entry_size e.name)) ≡ false = ground arith in
    rw (add_all, add, add_sized, room) (more, joined)

-- A buffer with a limit below `usize::MAX` that a file system fills: its entries take up the size that
-- it counts, which stays within the limit.
pub add_all-IsSized :
    (es : List DirectoryEntryPayload) (reply : ReplyDirectory)
    → IsSized reply
    → IsSized (add_all es reply)
add_all-IsSized [] reply good = good
add_all-IsSized (e ∷ es) reply good = elim (Bool-cases (add e reply).0) [
  | inl full ↦ rw full (add-IsSized e reply good)
  | inr room ↦ rw room (add_all-IsSized es (add e reply).1 (add-IsSized e reply good))
]
