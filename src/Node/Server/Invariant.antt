-- ===== src/Node/Server/Invariant.antt =====
-- What holds of the channels, the watchers and the threads of a node, and the updates that keep it.
use multi_raft_storage.Prelude.{
  ℕ, ◌≤◌, ◌≡◌, ◌≢◌, refl, subst, true, false, List, [], ◌∷◌, All, length, Option, none, some, arith,
  inl, inr, Bool-cases, nat_eq, nat_Eq,
}
use multi_raft_storage.Prelude.Assoc.{insert, delete}
use multi_raft_storage.Node.Events.{Event}
use multi_raft_storage.Node.Server.Channels.{
  capacity, is_used, Stream, World, set, set-elim, to_send, idle,
}

pub All-mono :
    {A : Type 0} (P Q : A → Type 0) (xs : List A) → ((x : A) → P x → Q x) → All P xs → All Q xs
All-mono P Q [] f h = tt
All-mono P Q (x ∷ xs) f h = (f x h.0, All-mono P Q xs f h.1)

-- A registered stream: its handler was called, under its own identifier, and its channel is open.
abbrev pub Registered : ℕ → Stream → Type 0
Registered id s = (s.id ≡ id) × (s.is_closed ≡ false) × (is_used s.phase ≡ true)

-- An update of a stream that keeps it registered.
abbrev pub Kept : Stream → Stream → Type 0
Kept s r = (id : ℕ) → Registered id s → Registered id r

abbrev pub IsOpen : Stream → Type 0
IsOpen s = (s.is_closed ≡ false) × (is_used s.phase ≡ true)

pub record IsWell (w : World) : Type 0 where
  pub bounded : (c : ℕ) → length (w.streams c).buffer ≤ capacity
  pub registered : All (λ p. Registered p.0 (w.streams p.1)) w.watchers
  pub sending :
      (t : ℕ) (p : List (ℕ × Event)) → w.publishing t ≡ some p → All (λ q. IsOpen (w.streams q.0)) p
  pub replaying :
      (c : ℕ) (es : List Event)
      → w.replaying ≡ some (c, es)
      → IsOpen (w.streams c) × ((t : ℕ) → w.publishing t ≡ none)

pub idle-IsWell : IsWell idle
idle-IsWell = record {
  bounded = λ c. omega arith;
  registered = tt;
  sending = λ t p h. absurd (ground arith);
  replaying = λ c es h. absurd (ground arith);
}

pub set-Kept :
    (f : ℕ → Stream) (c : ℕ) (a : Stream) (d : ℕ) → Kept (f c) a → Kept (f d) (set c a f d)
set-Kept f c a d k =
    set-elim (λ r. Kept (f d) r) c d a f (λ e. subst (λ i. Kept (f i) a) e k) (λ id h. h)

pub Kept-IsOpen : (s r : Stream) → Kept s r → IsOpen s → IsOpen r
Kept-IsOpen s r k o = let h = k s.id (refl, o.0, o.1) in (h.1, h.2)

-- One stream is updated, within its bounds.
pub updated-IsWell :
    (w : World) (c : ℕ) (a : Stream)
    → IsWell w
    → Kept (w.streams c) a
    → length a.buffer ≤ capacity
    → IsWell (record w { streams = set c a w.streams })
updated-IsWell w c a h k small =
    let kept = λ (d : ℕ). set-Kept w.streams c a d k in
    record {
      bounded = λ d.
          set-elim (λ r. length r.buffer ≤ capacity) c d a w.streams (λ e. small) (h.bounded d);
      registered = All-mono _ _ w.watchers (λ p r. kept p.1 p.0 r) h.registered;
      sending = λ t p e.
          All-mono _ _ p (λ q o. Kept-IsOpen (w.streams q.0) (set c a w.streams q.0) (kept q.0) o)
            (h.sending t p e);
      replaying = λ d es e. (
        Kept-IsOpen (w.streams d) (set c a w.streams d) (kept d) (h.replaying d es e).0,
        (h.replaying d es e).1,
      );
    }

-- What a thread has to send is replaced.
pub thread-IsWell :
    (w : World) (t : ℕ) (o : Option (List (ℕ × Event)))
    → IsWell w
    → ((c : ℕ) (es : List Event) → w.replaying ≢ some (c, es))
    → ((p : List (ℕ × Event)) → o ≡ some p → All (λ q. IsOpen (w.streams q.0)) p)
    → IsWell (record w { publishing = set t o w.publishing })
thread-IsWell w t o h calm all_open = record {
  bounded = h.bounded;
  registered = h.registered;
  sending = λ j p.
      set-elim (λ r. r ≡ some p → All (λ q. IsOpen (w.streams q.0)) p) t j o w.publishing
        (λ e. all_open p) (h.sending j p);
  replaying = λ c es e. absurd (calm c es e);
}

-- While a thread publishes nobody replays.
pub calm_while :
    (w : World) (t : ℕ) (p : List (ℕ × Event))
    → IsWell w
    → w.publishing t ≡ some p
    → (c : ℕ) (es : List Event) → w.replaying ≢ some (c, es)
calm_while w t p h e c es r = let free = (h.replaying c es r).1 t in absurd (ground arith)

pub All-to_send :
    (f : ℕ → Stream) (e : Event) (ws : List (ℕ × ℕ))
    → All (λ p. Registered p.0 (f p.1)) ws
    → All (λ q. IsOpen (f q.0)) (to_send e ws)
All-to_send f e [] h = tt
All-to_send f e (p ∷ ws) h = ((h.0.1, h.0.2), All-to_send f e ws h.1)

pub All-insert :
    (P : ℕ × ℕ → Type 0) (k v : ℕ) (ws : List (ℕ × ℕ)) → P (k, v) → All P ws → All P (insert k v ws)
unfolding insert
All-insert P k v [] h a = (h, tt)
All-insert P k v ((j, u) ∷ ws) h a = elim (Bool-cases (nat_eq j k)) [
  | inl e ↦ rw e (h, a.1)
  | inr e ↦ rw e (a.0, All-insert P k v ws h a.1)
]

pub All-delete :
    (P : ℕ × ℕ → Type 0) (k : ℕ) (ws : List (ℕ × ℕ))
    → All P ws
    → All (λ p. P p × (nat_eq p.0 k ≡ false)) (delete k ws)
unfolding delete
All-delete P k [] a = tt
All-delete P k ((j, u) ∷ ws) a = elim (Bool-cases (nat_eq j k)) [
  | inl e ↦ rw e (All-delete P k ws a.1)
  | inr e ↦ rw e ((a.0, e), All-delete P k ws a.1)
]
