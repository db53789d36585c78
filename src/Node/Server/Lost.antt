-- ===== src/Node/Server/Lost.antt =====
-- A watch whose number another watch takes: `watcherID` is counted without the lock, so two watches that
-- begin at once can get one number, and the second entry replaces the first.
use multi_raft_storage.Prelude.{
  ℕ, ◌+◌, ◌≤◌, ◌≡◌, ◌≢◌, subst, true, false, List, [], ◌∷◌, All, length, some, arith, inl, inr,
  Bool-cases, nat_eq, nat_eq_iff, nat_Eq, Option,
}
use multi_raft_storage.Prelude.Assoc.{insert, delete}
use multi_raft_storage.Node.Events.{Event}
use multi_raft_storage.Node.Server.Channels.{
  is_used, Stream, World, set, set-elim, to_send, Step, begins, sends, ends, registers, replays,
  releases, closes, creates, delivers, fails, finishes, Run, stay, onward,
}
use multi_raft_storage.Node.Server.Invariant.{All-mono, Registered, All-insert, All-delete}

-- The map of watchers has one entry for a number.
abbrev pub Unique : List (ℕ × ℕ) → Type 0
Unique [] = Unit
Unique ((k, c) ∷ ws) = All (λ p. nat_eq p.0 k ≡ false) ws × Unique ws

insert-Unique : (k c : ℕ) (ws : List (ℕ × ℕ)) → Unique ws → Unique (insert k c ws)
unfolding insert
insert-Unique k c [] h = (tt, tt)
insert-Unique k c ((j, d) ∷ ws) h = elim (Bool-cases (nat_eq j k)) [
  | inl e ↦ rw e (subst (λ i. All (λ p. nat_eq p.0 i ≡ false) ws) ((nat_eq_iff j k).0 e) h.0, h.1)
  | inr e ↦
      let apart : nat_eq k j ≡ false = ground arith in
      rw e (All-insert (λ p. nat_eq p.0 j ≡ false) k c ws apart h.0, insert-Unique k c ws h.1)
]

delete-Unique : (k : ℕ) (ws : List (ℕ × ℕ)) → Unique ws → Unique (delete k ws)
unfolding delete
delete-Unique k [] h = tt
delete-Unique k ((j, d) ∷ ws) h = elim (Bool-cases (nat_eq j k)) [
  | inl e ↦ rw e (delete-Unique k ws h.1)
  | inr e ↦ rw e (
    All-mono _ _ (delete k ws) (λ p q. q.0) (All-delete (λ p. nat_eq p.0 j ≡ false) k ws h.0),
    delete-Unique k ws h.1,
  )
]

Step-Unique : {w v : World} → Step w v → Unique w.watchers → Unique v.watchers
Step-Unique {w} (registers c id free new m) h = rw m (insert-Unique id c w.watchers h)
Step-Unique {w} (closes c free used is_open m) h = rw m (delete-Unique _ w.watchers h)
Step-Unique (begins t e calm now m) h = rw m h
Step-Unique (sends t c e rest now room m) h = rw m h
Step-Unique (ends t now m) h = rw m h
Step-Unique (replays c e rest now room m) h = rw m h
Step-Unique (releases c now m) h = rw m h
Step-Unique (creates i p free m) h = rw m h
Step-Unique (delivers c e rest on now m) h = rw m h
Step-Unique (fails c e rest on now m) h = rw m h
Step-Unique (finishes c on now closed m) h = rw m h

pub Run-Unique : {w v : World} → Run w v → Unique w.watchers → Unique v.watchers
Run-Unique stay h = h
Run-Unique (onward s r) h = Run-Unique r (Step-Unique s h)

other_streams :
    (f : ℕ → Stream) (c k : ℕ) (ws : List (ℕ × ℕ))
    → k ≡ (f c).id
    → All (λ p. nat_eq p.0 k ≡ false) ws
    → All (λ p. Registered p.0 (f p.1)) ws
    → All (λ p. p.1 ≢ c) ws
other_streams f c k [] own u r = tt
other_streams f c k ((j, e) ∷ ws) own u r = (
  λ at_c.
      let key : (f c).id ≡ j = subst (λ i. (f i).id ≡ j) at_c r.0.0 in
      let apart = u.0 in absurd (ground arith),
  other_streams f c k ws own u.1 r.1,
)

-- An entry that takes the stream's number leaves the stream no entry.
pub replaced :
    (f : ℕ → Stream) (c d : ℕ) (ws : List (ℕ × ℕ))
    → d ≢ c
    → Unique ws
    → All (λ p. Registered p.0 (f p.1)) ws
    → All (λ p. p.1 ≢ c) (insert (f c).id d ws)
unfolding insert
replaced f c d [] apart u r = (apart, tt)
replaced f c d ((k, e) ∷ ws) apart u r = elim (Bool-cases (nat_eq k (f c).id)) [
  | inl same ↦ rw same (apart, other_streams f c k ws ((nat_eq_iff k (f c).id).0 same) u.0 r.1)
  | inr other ↦ rw other (
    (λ at_c.
        let key : (f c).id ≡ k = subst (λ i. (f i).id ≡ k) at_c r.0.0 in absurd (ground arith)),
    replaced f c d ws apart u.1 r.1,
  )
]

-- The events that a stream has been given.
abbrev pub given : Stream → ℕ
given s = length s.delivered + length s.buffer

-- A stream without an entry, to which nobody is to send.
pub record Lost (c n : ℕ) (w : World) : Type 0 where
  pub used : is_used (w.streams c).phase ≡ true
  pub unlisted : All (λ p. p.1 ≢ c) w.watchers
  pub unsent : (t : ℕ) (p : List (ℕ × Event)) → w.publishing t ≡ some p → All (λ q. q.0 ≢ c) p
  pub unreplayed : (d : ℕ) (es : List Event) → w.replaying ≡ some (d, es) → d ≢ c
  pub bounded : given (w.streams c) ≤ n

-- What a stream may become.
abbrev pub Goes : ℕ → Stream → Type 0
Goes n s = (is_used s.phase ≡ true) × (given s ≤ n)

pub All-to_send_apart :
    (c : ℕ) (e : Event) (ws : List (ℕ × ℕ))
    → All (λ p. p.1 ≢ c) ws
    → All (λ q. q.0 ≢ c) (to_send e ws)
All-to_send_apart c e [] h = tt
All-to_send_apart c e (p ∷ ws) h = (h.0, All-to_send_apart c e ws h.1)

module _ (c n : ℕ) (w : World) (h : Lost c n w) where
  -- An update of a stream.
  pub stream-Lost :
      (d : ℕ) (a : Stream)
      → (d ≡ c → Goes n a)
      → Lost c n (record w { streams = set d a w.streams })
  stream-Lost d a own =
      let goes = set-elim (Goes n) d c a w.streams own (h.used, h.bounded) in
      record {
        used = goes.0;
        unlisted = h.unlisted;
        unsent = h.unsent;
        unreplayed = h.unreplayed;
        bounded = goes.1;
      }

  -- An update of what a thread has to send.
  pub thread-Lost :
      (t : ℕ) (o : Option (List (ℕ × Event)))
      → ((p : List (ℕ × Event)) → o ≡ some p → All (λ q. q.0 ≢ c) p)
      → Lost c n (record w { publishing = set t o w.publishing })
  thread-Lost t o apart = record {
    used = h.used;
    unlisted = h.unlisted;
    unsent = λ j p.
        set-elim (λ r. r ≡ some p → All (λ q. q.0 ≢ c) p) t j o w.publishing (λ e. apart p)
          (h.unsent j p);
    unreplayed = h.unreplayed;
    bounded = h.bounded;
  }

  -- A stream that takes an event from its channel is given no other.
  pub own_stream-Lost :
      (d : ℕ) (a : Stream)
      → is_used a.phase ≡ true
      → given a ≤ given (w.streams d)
      → Lost c n (record w { streams = set d a w.streams })
  own_stream-Lost d a used less = stream-Lost d a (λ e. (
    used,
    (let at_c : given a ≤ given (w.streams c) = subst (λ i. given a ≤ given (w.streams i)) e less in
        omega (arith, h.bounded)),
  ))
