-- ===== src/Session/Ending.antt =====
-- src/fuser_facade/session.rs: every order of unmounting and ending a session.
use confuse.Common.{
  ℕ, zero, suc, ◌<◌, ◌≡◌, refl, sym, ◌∙◌, inl, inr, Bool, true, false, not, ◌==◌, Option, none,
  some, if◌then◌else◌, Result, ok, err, arith, Bool-cases,
}
use confuse.Mount.Options.{ErrorKind}
use confuse.Session.Lifecycle.{
  Shared, facade_unmounted_with, drop_session, unmount_once, drop_guard, join, joined,
  umount_and_join,
}

-- Where the session's thread is: Dokan serves the volume, has closed it, or the session is dropped.
pub data Phase : Type 0 where
  serving closed dropped : Phase

module _ (answers : ℕ → Bool) where
  -- What happens to a session. Any handle may unmount at any time; Dokan reports once that the
  -- volume is unmounted; the session is dropped when `run` has returned, also where mounting failed.
  pub data Step : Phase × Shared → Phase × Shared → Type 0 where
    unmounts : (p : Phase) (s : Shared) → Step (p, s) (p, (unmount_once answers s).1)
    drops_guard : (p : Phase) (s : Shared) → Step (p, s) (p, drop_guard answers s)
    joins :
        (p : Phase) (s : Shared) (thread : Option (Result (Unit {0}) ErrorKind))
        → Step (p, s) (p, (join answers thread s).1)
    umounts_and_joins :
        (p : Phase) (s : Shared) (thread : Option (Result (Unit {0}) ErrorKind))
        → Step (p, s) (p, (umount_and_join answers thread s).1)
    closes : (s : Shared) → Step (serving, s) (closed, facade_unmounted_with s)
    drops_unmounted : (s : Shared) → Step (closed, s) (dropped, drop_session s)
    drops_unserved : (s : Shared) → Step (serving, s) (dropped, drop_session s)

  pub data Reachable : Phase × Shared → Type 0 where
    starts : Reachable (
      serving,
      record { mounted = true; destroyed = false; unmount_calls = 0; destroy_calls = 0 },
    )
    steps : (a b : Phase × Shared) → Reachable a → Step a b → Reachable b

  abbrev is_serving : Phase → Bool
  is_serving serving = true
  is_serving _ = false

  -- `destroy` has been called once where the volume is no longer served, and not before;
  -- `dokan::unmount` has not been called again after it succeeded.
  pub record IsOrderly (p : Phase) (s : Shared) : Type 0 where
    pub flagged : s.destroyed ≡ not (is_serving p)
    pub destroyed_once : s.destroy_calls ≡ (if is_serving p then 0 else 1)
    pub refused_before : (k : ℕ) → suc k < s.unmount_calls → answers k ≡ false
    pub refused_last : s.mounted ≡ true → (k : ℕ) → k < s.unmount_calls → answers k ≡ false
    pub succeeded_last :
        s.mounted ≡ false → (k : ℕ) × (s.unmount_calls ≡ suc k) × (answers k ≡ true)

  unmount_once-IsOrderly :
      (p : Phase) (s : Shared) → IsOrderly p s → IsOrderly p (unmount_once answers s).1
  unfolding unmount_once
  unmount_once-IsOrderly p s good = elim (Bool-cases s.mounted) [
    | inr off ↦
        rw (unmount_once, off)
          (record {
            flagged = good.flagged;
            destroyed_once = good.destroyed_once;
            refused_before = good.refused_before;
            refused_last = λ on. absurd (ground arith);
            succeeded_last = λ e. good.succeeded_last off;
          })
    | inl on ↦ elim (Bool-cases (answers s.unmount_calls)) [
      | inl agreed ↦
          rw (unmount_once, on, agreed)
            (record {
              flagged = good.flagged;
              destroyed_once = good.destroyed_once;
              refused_before = λ k lt. good.refused_last on k (omega arith);
              refused_last = λ e. absurd (ground arith);
              succeeded_last = λ e. (s.unmount_calls, refl, agreed);
            })
      | inr refused ↦
          rw (unmount_once, on, refused)
            (record {
              flagged = good.flagged;
              destroyed_once = good.destroyed_once;
              refused_before = λ k lt. good.refused_last on k (omega arith);
              refused_last = λ e k lt. elim (Bool-cases (k == s.unmount_calls)) [
                | inl last ↦ ground arith
                | inr before ↦ good.refused_last on k (ground arith)
              ];
              succeeded_last = λ e. absurd (ground arith);
            })
    ]
  ]

  joined-IsOrderly :
      (p : Phase) (thread : Option (Result (Unit {0}) ErrorKind))
      (out : Result (Unit {0}) ErrorKind × Shared)
      → IsOrderly p out.1
      → IsOrderly p (joined answers thread out).1
  unfolding joined join drop_guard
  joined-IsOrderly p (some r) (ok u, s) good = unmount_once-IsOrderly p s good
  joined-IsOrderly p none (ok u, s) good = unmount_once-IsOrderly p s good
  joined-IsOrderly p (some r) (err e, s) good = unmount_once-IsOrderly p s good
  joined-IsOrderly p none (err e, s) good = unmount_once-IsOrderly p s good

  join-IsOrderly :
      (p : Phase) (s : Shared) (thread : Option (Result (Unit {0}) ErrorKind))
      → IsOrderly p s
      → IsOrderly p (join answers thread s).1
  unfolding join drop_guard
  join-IsOrderly p s (some r) good = unmount_once-IsOrderly p s good
  join-IsOrderly p s none good = unmount_once-IsOrderly p s good

  -- The end of a session leaves the unmounting alone.
  ended-IsOrderly :
      (p q : Phase) (s t : Shared)
      → IsOrderly p s
      → t.destroyed ≡ not (is_serving q)
      → t.destroy_calls ≡ (if is_serving q then 0 else 1)
      → t.mounted ≡ s.mounted
      → t.unmount_calls ≡ s.unmount_calls
      → IsOrderly q t
  ended-IsOrderly p q s t good flagged once same_mounted same_calls = record {
    flagged = flagged;
    destroyed_once = once;
    refused_before = λ k lt. good.refused_before k (omega arith);
    refused_last = λ on k lt. good.refused_last (sym same_mounted ∙ on) k (omega arith);
    succeeded_last = λ off.
        let (k, calls, agreed) = good.succeeded_last (sym same_mounted ∙ off) in
        (k, same_calls ∙ calls, agreed);
  }

  Step-IsOrderly : (a b : Phase × Shared) → Step a b → IsOrderly a.0 a.1 → IsOrderly b.0 b.1
  unfolding drop_guard umount_and_join facade_unmounted_with drop_session
  Step-IsOrderly a b (unmounts p s) good = unmount_once-IsOrderly p s good
  Step-IsOrderly a b (drops_guard p s) good = unmount_once-IsOrderly p s good
  Step-IsOrderly a b (joins p s thread) good = join-IsOrderly p s thread good
  Step-IsOrderly a b (umounts_and_joins p s thread) good =
      joined-IsOrderly p thread (unmount_once answers s) (unmount_once-IsOrderly p s good)
  Step-IsOrderly a b (closes s) good =
      ended-IsOrderly serving closed s (facade_unmounted_with s) good refl
        (ground (arith, good.destroyed_once)) refl refl
  Step-IsOrderly a b (drops_unmounted s) good =
      ended-IsOrderly closed dropped s (drop_session s) good (ground (arith, good.flagged))
        (ground (arith, good.flagged, good.destroyed_once)) (ground arith) (ground arith)
  Step-IsOrderly a b (drops_unserved s) good =
      ended-IsOrderly serving dropped s (drop_session s) good (ground (arith, good.flagged))
        (ground (arith, good.flagged, good.destroyed_once)) (ground arith) (ground arith)

  -- In every order of events, `Filesystem::destroy` is called once, when the volume is closed
  -- or else when the session is dropped, and `dokan::unmount` is called until it succeeds and
  -- not again.
  pub Reachable-IsOrderly : (a : Phase × Shared) → Reachable a → IsOrderly a.0 a.1
  Reachable-IsOrderly a starts = record {
    flagged = refl;
    destroyed_once = refl;
    refused_before = λ k lt. absurd (omega arith);
    refused_last = λ on k lt. absurd (omega arith);
    succeeded_last = λ off. absurd (ground arith);
  }
  Reachable-IsOrderly c (steps a b r step) = Step-IsOrderly a b step (Reachable-IsOrderly a r)

  abbrev pub attempts : ℕ → Shared → Shared
  attempts zero s = s
  attempts (suc n) s = attempts n (unmount_once answers s).1
