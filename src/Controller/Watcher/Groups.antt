-- ===== src/Controller/Watcher/Groups.antt =====
-- What the events of the nodes keep true of a group's status.
use multi_raft_storage.Prelude.{
  ℕ, ◌<◌, ◌≡◌, refl, ◌⊎◌, inl, inr, String, true, false, not, ◌&&◌, ◌||◌, Option, none, some, arith,
  List, [], ◌∷◌, ◌++◌, str_eq, str_eq_iff, string_Eq, keep, contains, Bool-cases,
}
use multi_raft_storage.Node.Events.{EventKind, member_ready, leader_updated}
use multi_raft_storage.Controller.Api.{RaftGroupStatus}
use multi_raft_storage.Controller.Watcher.{
  is_leader, update_group, is_news, leader_of, member_name, demote, without, is_follower_or_leader,
}

contains-append :
    (xs ys : List String) (a : String) → contains (xs ++ ys) a ≡ (contains xs a || contains ys a)
contains-append [] ys a = refl
contains-append (x ∷ xs) ys a = ground (arith, contains-append xs ys a)

pub contains-keep :
    (n a : String) (xs : List String)
    → contains (keep (λ f. not (str_eq f n)) xs) a ≡ (not (str_eq a n) && contains xs a)
contains-keep n a [] = ground arith
contains-keep n a (x ∷ xs) =
    ground (arith, contains-keep n a xs, str_eq_iff x a, str_eq_iff x n, str_eq_iff a n)

-- No name stands twice.
abbrev pub Distinct : List String → Type 0
Distinct [] = Unit
Distinct (x ∷ xs) = (contains xs x ≡ false) × Distinct xs

Distinct-keep :
    (n : String) (xs : List String) → Distinct xs → Distinct (keep (λ f. not (str_eq f n)) xs)
Distinct-keep n [] d = tt
Distinct-keep n (x ∷ xs) d = elim (Bool-cases (str_eq x n)) [
  | inl e ↦ rw e (Distinct-keep n xs d.1)
  | inr e ↦ rw e (ground (arith, contains-keep n x xs, d.0), Distinct-keep n xs d.1)
]

Distinct-append :
    (a : String) (xs : List String) → Distinct xs → contains xs a ≡ false → Distinct (xs ++ a ∷ [])
Distinct-append a [] d h = (refl, tt)
Distinct-append a (x ∷ xs) d h = (
  ground (arith, contains-append xs (a ∷ []) x, d.0, str_eq_iff a x, str_eq_iff x a),
  Distinct-append a xs d.1 (ground arith),
)

-- No member stands twice in a group's status, and its leader is not among its followers.
pub record IsWell (s : RaftGroupStatus) : Type 0 where
  pub distinct : Distinct s.followers
  pub apart : (l : String) → s.leader ≡ some l → contains s.followers l ≡ false

Distinct-demote :
    (old new : Option String) (fs : List String)
    → Distinct fs
    → ((l : String) → old ≡ some l → contains fs l ≡ false)
    → Distinct (demote old new fs)
Distinct-demote none new fs d h = d
Distinct-demote (some o) none fs d h = Distinct-append o fs d (h o refl)
Distinct-demote (some o) (some n) fs d h = elim (Bool-cases (str_eq o n)) [
  | inl e ↦ rw e d
  | inr e ↦ rw e (Distinct-append o fs d (h o refl))
]

Distinct-without :
    (new : Option String) (fs : List String) → Distinct fs → Distinct (without new fs)
Distinct-without none fs d = d
Distinct-without (some n) fs d = Distinct-keep n fs d

without_apart :
    (new : Option String) (fs : List String) (l : String)
    → new ≡ some l
    → contains (without new fs) l ≡ false
without_apart none fs l h = absurd (ground arith)
without_apart (some n) fs l h = ground (arith, contains-keep n l fs, str_eq_iff l n)

-- The events of a group's nodes, whatever their order, keep its members apart: no member is listed
-- twice, and the leader is no follower.
pub update_group-IsWell :
    (store : String) (e : EventKind) (s : RaftGroupStatus)
    → IsWell s
    → IsWell (update_group store e s).0
unfolding update_group
update_group-IsWell store (member_ready e) s w =
    elim (Bool-cases (is_follower_or_leader (member_name store e.group_id e.member_id) s)) [
      | inl known ↦ rw (known, update_group) w
      | inr new ↦
          rw (new, update_group)
            (record {
              distinct =
                  Distinct-append (member_name store e.group_id e.member_id) s.followers w.distinct
                    (ground arith);
              apart = λ l h. ground (
                arith,
                contains-append s.followers (member_name store e.group_id e.member_id ∷ []) l,
                w.apart l h,
                str_eq_iff (member_name store e.group_id e.member_id) l,
                str_eq_iff l (member_name store e.group_id e.member_id),
              );
            })
    ]
update_group-IsWell store (leader_updated e t m) s w =
    elim (Bool-cases (is_news s.term s.leader t m)) [
      | inl news ↦
          rw (news, update_group)
            (record {
              distinct = Distinct-without _ _ (
                  Distinct-demote s.leader (leader_of store e.group_id m) s.followers w.distinct
                    w.apart);
              apart = λ l h. without_apart (leader_of store e.group_id m) _ l h;
            })
      | inr old ↦ rw (old, update_group) w
    ]
update_group-IsWell store _ s w = w

known_after :
    (old new : Option String) (fs : List String) (a : String)
    → (is_leader old a || contains fs a) ≡ true
    → (is_leader new a || contains (without new (demote old new fs)) a) ≡ true
known_after none none fs a h = h
known_after none (some n) fs a h =
    ground (arith, contains-keep n a fs, str_eq_iff n a, str_eq_iff a n)
known_after (some o) none fs a h = ground (arith, contains-append fs (o ∷ []) a)
known_after (some o) (some n) fs a h = ground (
  arith,
  contains-keep n a fs,
  contains-keep n a (fs ++ o ∷ []),
  contains-append fs (o ∷ []) a,
  str_eq_iff n a,
  str_eq_iff a n,
  str_eq_iff o n,
  str_eq_iff o a,
)

abbrev pub ReportsReady : String → String → EventKind → Type 0
ReportsReady store a (member_ready e) = member_name store e.group_id e.member_id ≡ a
ReportsReady store a _ = ⊥

-- A member that the status lists, as leader or follower, is listed after every event, and a member
-- that reports ready is listed from then on.
pub update_group_keeps :
    (store : String) (e : EventKind) (s : RaftGroupStatus) (a : String)
    → ((is_follower_or_leader a s ≡ true) ⊎ ReportsReady store a e)
    → is_follower_or_leader a (update_group store e s).0 ≡ true
unfolding update_group
update_group_keeps store (member_ready e) s a h =
    let name = member_name store e.group_id e.member_id in
    elim (Bool-cases (is_follower_or_leader name s)) [
      | inl known ↦ rw (known, update_group) (elim h [ inl k ↦ k | inr e ↦ rw (← e) known ])
      | inr new ↦
          rw (new, update_group)
            (ground (arith, contains-append s.followers (name ∷ []) a, str_eq_iff name a))
    ]
update_group_keeps store (leader_updated e t m) s a h =
    let known : is_follower_or_leader a s ≡ true = elim h [
      | inl k ↦ k
      | inr none_reports ↦ absurd none_reports
    ] in
    elim (Bool-cases (is_news s.term s.leader t m)) [
      | inl news ↦
          rw (news, update_group)
            (known_after s.leader (leader_of store e.group_id m) s.followers a known)
      | inr old ↦ rw (old, update_group) known
    ]
update_group_keeps store _ s a h = elim h [ inl k ↦ k | inr none_reports ↦ absurd none_reports ]

-- A term that has gone up, or is the first.
abbrev pub Later : Option ℕ → Option ℕ → Type 0
Later none (some b) = Unit
Later (some a) (some b) = a < b
Later a none = ⊥

Later-news :
    (old : Option ℕ) (leader : Option String) (t m : ℕ) (l : String)
    → leader ≡ some l
    → is_news old leader t m ≡ true
    → Later old (some t)
unfolding is_news
Later-news none leader t m l h news = tt
Later-news (some a) leader t m l h news = ground arith

-- The leader that a group's status names for a term is not replaced by another in that term: an
-- event that leaves the term leaves the leader, and one that changes the term takes it up.
pub update_group_leader :
    (store : String) (e : EventKind) (s : RaftGroupStatus) (l : String)
    → s.leader ≡ some l
    → ((update_group store e s).0.leader ≡ some l) ⊎ Later s.term (update_group store e s).0.term
unfolding update_group
update_group_leader store (member_ready e) s l h =
    elim (Bool-cases (is_follower_or_leader (member_name store e.group_id e.member_id) s)) [
      | inl known ↦ rw (known, update_group) (inl h)
      | inr new ↦ rw (new, update_group) (inl h)
    ]
update_group_leader store (leader_updated e t m) s l h =
    elim (Bool-cases (is_news s.term s.leader t m)) [
      | inl news ↦ rw (news, update_group) (inr (Later-news s.term s.leader t m l h news))
      | inr old ↦ rw (old, update_group) (inl h)
    ]
update_group_leader store _ s l h = inl h
