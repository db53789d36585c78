-- ===== src/Controller/Pods/Watches.antt =====
-- The table of watches and the watches that run, under calls of `watch` and `unwatch` and the ends of
-- watches in any order. The table's lock makes each of these one step.
use multi_raft_storage.Prelude.{
  ℕ, ◌+◌, ◌-◌, ◌≤◌, ◌<◌, ◌≡◌, refl, inl, inr, String, Bool, true, false, ◌&&◌, [], Option, none,
  some, arith, str_eq, str_eq_iff, str_eq_refl, string_Eq, Option-cases, if◌then◌else◌,
}
use multi_raft_storage.Prelude.Assoc.{lookup, lookup-insert, lookup-delete}
use multi_raft_storage.Controller.Pods.{Watches, watch, unwatch, finish}

-- The table, and how many watches run for an address.
pub record World : Type 0 where
  pub table : Watches
  pub running : String → ℕ

pub start : World
start = record { table = []; running = λ a. 0 }

-- One more watch runs where `watch` starts a goroutine.
pub begin : String → World → World
begin a w = record {
  table = (watch a w.table).0;
  running = λ b. if str_eq a b && (watch a w.table).1 then w.running b + 1 else w.running b;
}

pub cancel : String → World → World
cancel a w = record w { table = unwatch a w.table }

pub end : String → World → World
end a w = record {
  table = finish a w.table;
  running = λ b. if str_eq a b then w.running b - 1 else w.running b;
}

pub data Step (w v : World) : Type 0 where
  begins : (a : String) → v ≡ begin a w → Step w v
  cancels : (a : String) → v ≡ cancel a w → Step w v
  ends : (a : String) → 0 < w.running a → v ≡ end a w → Step w v

pub data Reach : World → Type 0 where
  here : Reach start
  next : {w v : World} → Reach w → Step w v → Reach v

abbrev pub entry : Option Bool → ℕ
entry none = 0
entry (some b) = 1

Step-entry :
    {w v : World}
    → Step w v
    → ((a : String) → w.running a ≡ entry (lookup a w.table))
    → (a : String) → v.running a ≡ entry (lookup a v.table)
unfolding begin cancel end watch unwatch finish
Step-entry {w} {v} (begins b h) inv a = elim (Option-cases (lookup b w.table)) [
  | inl free ↦ rw h (rw (free, watch) (rw lookup-insert (ground (arith, inv a, str_eq_iff b a))))
  | inr (c, taken) ↦ rw h (rw (taken, watch) (ground (arith, inv a)))
]
Step-entry {w} {v} (cancels b h) inv a = elim (Option-cases (lookup b w.table)) [
  | inl free ↦ rw h (rw (free, unwatch) (inv a))
  | inr (c, taken) ↦
      rw h (rw (taken, unwatch) (rw lookup-insert (ground (arith, inv a, str_eq_iff b a))))
]
Step-entry {w} {v} (ends b some_runs h) inv a =
    rw h (rw lookup-delete (ground (arith, inv a, inv b, str_eq_iff b a)))

Reach-entry : {w : World} → Reach w → (a : String) → w.running a ≡ entry (lookup a w.table)
unfolding start lookup
Reach-entry here a = refl
Reach-entry (next r s) a = Step-entry s (Reach-entry r) a

entry_small : (o : Option Bool) → entry o ≤ 1
entry_small none = omega arith
entry_small (some b) = omega arith

-- In every order of calls of `watch` and `unwatch` and of ends of watches, at most one watch runs for an
-- address, and one runs exactly where the table has an entry.
pub at_most_one_watch :
    (w : World) (a : String)
    → Reach w
    → (w.running a ≡ entry (lookup a w.table)) × (w.running a ≤ 1)
at_most_one_watch w a r = (Reach-entry r a, rw (Reach-entry r a) (entry_small (lookup a w.table)))

-- Where a pod's watch runs and the pod is deleted and created anew under its address before the watch has
-- ended, the new pod's `watch` starts none, and no watch is left once the old one has ended.
pub watch_lost :
    (a : String) (w : Watches)
    → lookup a w ≡ some false
    → (watch a (unwatch a w) ≡ (unwatch a w, false))
      × (lookup a (finish a (watch a (unwatch a w)).0) ≡ none)
unfolding watch unwatch finish
watch_lost a w runs =
    let cancelled : lookup a (unwatch a w) ≡ some true =
      rw (runs, unwatch) (rw lookup-insert (ground (arith, str_eq_refl a))) in
    let kept : watch a (unwatch a w) ≡ (unwatch a w, false) = rw (cancelled, watch) refl in
    (kept, rw kept (rw lookup-delete (ground (arith, str_eq_refl a))))
