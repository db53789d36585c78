-- ===== src/Node/Server/Safety.antt =====
-- Every step keeps the invariant, so no send is on a closed channel.
use multi_raft_storage.Prelude.{
  ℕ, ◌≤◌, ◌≡◌, ◌≢◌, refl, sym, subst, true, false, List, [], ◌∷◌, All, length, length-append, none,
  some, arith, nat_eq, nat_eq_iff, nat_Eq,
}
use multi_raft_storage.Prelude.Assoc.{insert, delete}
use multi_raft_storage.Node.Events.{Event}
use multi_raft_storage.Node.Protocol.{observe}
use multi_raft_storage.Node.Server.Channels.{
  capacity, unused, is_used, opened, World, set, set-elim, set-same, put, to_send, IsFree, Step,
  begins, sends, ends, registers, replays, releases, closes, creates, delivers, fails, finishes,
  Run, stay, onward, idle,
}
use multi_raft_storage.Node.Server.Invariant.{
  All-mono, Registered, IsOpen, idle-IsWell, set-Kept, Kept-IsOpen, updated-IsWell, thread-IsWell,
  calm_while, All-to_send, All-insert, All-delete, IsWell,
}

used_before :
    (w : World) (c id d : ℕ) → (w.streams c).phase ≡ unused → Registered id (w.streams d) → c ≢ d
used_before w c id d new r e =
    let used = subst (λ i. is_used (w.streams i).phase ≡ true) (sym e) r.2 in
    let unused_is_used : is_used unused ≡ true = subst (λ ph. is_used ph ≡ true) new used in
    absurd (ground arith)

registers-IsWell :
    (w : World) (c id : ℕ) (es : List Event)
    → IsWell w
    → IsFree w
    → (w.streams c).phase ≡ unused
    → IsWell (record w {
      watchers = insert id c w.watchers;
      streams = set c (opened id) w.streams;
      replaying = some (c, es);
    })
registers-IsWell w c id es h free new = record {
  bounded = λ d.
      set-elim (λ r. length r.buffer ≤ capacity) c d (opened id) w.streams (λ e. omega arith)
        (h.bounded d);
  registered =
      All-insert (λ p. Registered p.0 (set c (opened id) w.streams p.1)) id c w.watchers
        (set-same (Registered id) c (opened id) w.streams (refl, refl, refl))
        (All-mono _ _ w.watchers
          (λ p r.
            set-elim (Registered p.0) c p.1 (opened id) w.streams
              (λ e. absurd (used_before w c p.0 p.1 new r e)) r)
          h.registered);
  sending = λ t p e. (let none_there = free.1 t in absurd (ground arith));
  replaying = λ d es' e. (
    let same : c ≡ d = ground arith in
        subst (λ i. IsOpen (set c (opened id) w.streams i)) same
          (set-same IsOpen c (opened id) w.streams (refl, refl)),
    free.1,
  );
}

closed_before :
    (w : World) (c id d : ℕ)
    → Registered id (w.streams d) × (nat_eq id (w.streams c).id ≡ false)
    → c ≢ d
closed_before w c id d r e =
    let same = subst (λ i. (w.streams i).id ≡ id) (sym e) r.0.0 in
    absurd (ground (arith, nat_eq_iff id (w.streams c).id, r.1))

closes-IsWell :
    (w : World) (c : ℕ)
    → IsWell w
    → IsFree w
    → IsWell (record w {
      watchers = delete (w.streams c).id w.watchers;
      streams = set c (record (w.streams c) { is_closed = true }) w.streams;
    })
closes-IsWell w c h free = record {
  bounded = λ d.
      set-elim (λ r. length r.buffer ≤ capacity) c d (record (w.streams c) { is_closed = true })
        w.streams (λ e. h.bounded c) (h.bounded d);
  registered =
      All-mono _ _ (delete (w.streams c).id w.watchers)
        (λ p r.
          set-elim (Registered p.0) c p.1 (record (w.streams c) { is_closed = true }) w.streams
            (λ e. absurd (closed_before w c p.0 p.1 r e)) r.0)
        (All-delete _ (w.streams c).id w.watchers h.registered);
  sending = λ t p e. (let none_there = free.1 t in absurd (ground arith));
  replaying = λ d es e. (let calm = free.0 in absurd (ground arith));
}

shorter :
    {e : Event} {xs rest : List Event}
    → length xs ≤ capacity
    → xs ≡ e ∷ rest
    → length rest ≤ capacity
shorter {e} {xs} {rest} h now =
    let whole : length (e ∷ rest) ≤ capacity = subst (λ l. length l ≤ capacity) now h in omega arith

Step-IsWell : {w v : World} → Step w v → IsWell w → IsWell v
Step-IsWell {w} {v} (begins t e calm idle_thread m) h = rw m (
    thread-IsWell (record w { partitions = observe e.event w.partitions }) t
      (some (to_send e w.watchers))
      (record {
        bounded = h.bounded;
        registered = h.registered;
        sending = h.sending;
        replaying = h.replaying;
      })
      (λ c es r. absurd (ground arith))
      (λ p same.
        subst (All (λ q. IsOpen (w.streams q.0))) (ground arith)
          (All-to_send w.streams e w.watchers h.registered)))
Step-IsWell {w} {v} (sends t c e rest now room m) h =
    let (first, others) = h.sending t ((c, e) ∷ rest) now in
    let g =
      updated-IsWell w c (put e (w.streams c)) h (λ id r. r)
        (omega (arith, length-append (w.streams c).buffer (e ∷ []))) in
    rw m (
      thread-IsWell _ t (some rest) g (calm_while w t _ h now) (λ p same.
        subst (All (λ q. IsOpen (set c (put e (w.streams c)) w.streams q.0))) (ground arith) (
          All-mono _ _ rest
            (λ q o.
              Kept-IsOpen (w.streams q.0) (set c (put e (w.streams c)) w.streams q.0)
                (set-Kept w.streams c (put e (w.streams c)) q.0 (λ id r. r)) o)
            others)))
Step-IsWell {w} {v} (ends t now m) h =
    rw m (thread-IsWell w t none h (calm_while w t [] h now) (λ p e. absurd (ground arith)))
Step-IsWell {w} {v} (registers c id free new m) h = rw m (registers-IsWell w c id _ h free new)
Step-IsWell {w} {v} (replays c e rest now room m) h =
    let (first, nobody) = h.replaying c (e ∷ rest) now in
    let g =
      updated-IsWell w c (put e (w.streams c)) h (λ id r. r)
        (omega (arith, length-append (w.streams c).buffer (e ∷ []))) in
    rw m (record {
      bounded = g.bounded;
      registered = g.registered;
      sending = g.sending;
      replaying = λ d es same. (
        subst (λ i. IsOpen (set c (put e (w.streams c)) w.streams i)) (ground arith)
            (g.replaying c _ now).0,
        nobody,
      );
    })
Step-IsWell {w} {v} (releases c now m) h = rw m (record {
  bounded = h.bounded;
  registered = h.registered;
  sending = h.sending;
  replaying = λ d es same. absurd (ground arith);
})
Step-IsWell {w} {v} (closes c free used is_open m) h = rw m (closes-IsWell w c h free)
Step-IsWell {w} {v} (creates i p free m) h = rw m (record {
  bounded = h.bounded;
  registered = h.registered;
  sending = h.sending;
  replaying = h.replaying;
})
Step-IsWell {w} {v} (delivers c e rest on now m) h =
    rw m (updated-IsWell w c _ h (λ id r. r) (shorter (h.bounded c) now))
Step-IsWell {w} {v} (fails c e rest on now m) h =
    rw m (updated-IsWell w c _ h (λ id r. (r.0, r.1, refl)) (shorter (h.bounded c) now))
Step-IsWell {w} {v} (finishes c on now closed m) h =
    rw m (updated-IsWell w c _ h (λ id r. (r.0, r.1, refl)) (h.bounded c))

pub Run-IsWell : {w v : World} → Run w v → IsWell w → IsWell v
Run-IsWell stay h = h
Run-IsWell (onward s r) h = Run-IsWell r (Step-IsWell s h)

-- In every order in which a node's publications, watches and streams take their steps, whatever numbers the
-- watches are given: a thread that is to send, from `publish` or from `Watch`, sends on an open channel,
-- so no send panics, and no channel holds more than its capacity.
pub sends_on_open :
    (w : World)
    → Run idle w
    → ((t c : ℕ) (e : Event) (rest : List (ℕ × Event))
        → w.publishing t ≡ some ((c, e) ∷ rest)
        → (w.streams c).is_closed ≡ false)
      × ((c : ℕ) (e : Event) (rest : List Event)
          → w.replaying ≡ some (c, e ∷ rest)
          → (w.streams c).is_closed ≡ false)
      × ((c : ℕ) → length (w.streams c).buffer ≤ capacity)
sends_on_open w r =
    let h = Run-IsWell r idle-IsWell in
    (
      λ t c e rest now. (h.sending t ((c, e) ∷ rest) now).0.0,
      λ c e rest now. (h.replaying c (e ∷ rest) now).0.0,
      h.bounded,
    )
