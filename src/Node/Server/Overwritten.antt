-- ===== src/Node/Server/Overwritten.antt =====
-- A stream that has lost its entry among the watchers, in every order of steps.
use multi_raft_storage.Prelude.{
  ℕ, ◌≤◌, ◌≡◌, ◌≢◌, refl, sym, ap, subst, true, List, [], ◌∷◌, All, length, length-append, none,
  some, arith, nat_Eq,
}
use multi_raft_storage.Prelude.Assoc.{insert, delete}
use multi_raft_storage.Node.Events.{Event}
use multi_raft_storage.Node.Protocol.{observe, replay_all}
use multi_raft_storage.Node.Server.Channels.{
  unused, serving, to_send, is_used, opened, Stream, World, set, set-elim, put, pass, IsFree, Step,
  begins, sends, ends, registers, replays, releases, closes, creates, delivers, fails, finishes,
  Run, stay, onward, idle,
}
use multi_raft_storage.Node.Server.Invariant.{All-mono, idle-IsWell, All-insert, All-delete}
use multi_raft_storage.Node.Server.Safety.{Run-IsWell}
use multi_raft_storage.Node.Server.Lost.{
  Goes, Run-Unique, replaced, given, Lost, All-to_send_apart, stream-Lost, thread-Lost,
  own_stream-Lost,
}

is_serving : (s : Stream) → s.phase ≡ serving → is_used s.phase ≡ true
is_serving s on = rw on

not_new :
    (w : World) (c d : ℕ)
    → is_used (w.streams c).phase ≡ true
    → (w.streams d).phase ≡ unused
    → d ≢ c
not_new w c d used new same =
    let at_c : (w.streams c).phase ≡ unused = subst (λ i. (w.streams i).phase ≡ unused) same new in
    absurd (ground arith)

begins-Lost :
    (c n : ℕ) (w : World) (t : ℕ) (e : Event)
    → Lost c n w
    → Lost c n (record w {
      partitions = observe e.event w.partitions;
      publishing = set t (some (to_send e w.watchers)) w.publishing;
    })
begins-Lost c n w t e h =
    thread-Lost c n (record w { partitions = observe e.event w.partitions })
      (record {
        used = h.used;
        unlisted = h.unlisted;
        unsent = h.unsent;
        unreplayed = h.unreplayed;
        bounded = h.bounded;
      })
      t _
      (λ p same.
        subst (All (λ q. q.0 ≢ c)) (some_inj same) (All-to_send_apart c e w.watchers h.unlisted))
  where
    some_inj : {p q : List (ℕ × Event)} → some p ≡ some q → p ≡ q
    some_inj same = ground arith

-- The world after `Watch` has registered channel `d` under the number `id`.
abbrev pub watch_begun : ℕ → ℕ → World → World
watch_begun d id w = record w {
  watchers = insert id d w.watchers;
  streams = set d (opened id) w.streams;
  replaying = some (d, replay_all w.partitions);
}

registers-Lost :
    (c n : ℕ) (w : World) (d id : ℕ)
    → is_used (w.streams c).phase ≡ true
    → given (w.streams c) ≤ n
    → IsFree w
    → d ≢ c
    → All (λ p. p.1 ≢ c) (insert id d w.watchers)
    → Lost c n (watch_begun d id w)
registers-Lost c n w d id used bounded free apart unlisted =
    let goes =
      set-elim (Goes n) d c (opened id) w.streams (λ same. absurd (apart same)) (used, bounded) in
    record {
      used = goes.0;
      unlisted = unlisted;
      unsent = λ t p same. (let none_there = free.1 t in absurd (ground arith));
      unreplayed = λ e es same. (let at_d : d ≡ e = ground arith in subst (λ i. i ≢ c) at_d apart);
      bounded = goes.1;
    }

module _ (c n : ℕ) where
  Step-Lost : {w v : World} → Step w v → Lost c n w → Lost c n v
  Step-Lost {w} (begins t e calm now m) h = rw m (begins-Lost c n w t e h)
  Step-Lost {w} (sends t d e rest now room m) h =
      let pending = h.unsent t ((d, e) ∷ rest) now in
      rw m (
        thread-Lost c n _
          (stream-Lost c n w h d (put e (w.streams d)) (λ same. absurd (pending.0 same))) t
          (some rest) (λ p same. subst (All (λ q. q.0 ≢ c)) (ground arith) pending.1))
  Step-Lost {w} (ends t now m) h =
      rw m (thread-Lost c n w h t none (λ p same. absurd (ground arith)))
  Step-Lost {w} (registers d id free new m) h =
      let apart = not_new w c d h.used new in
      rw m (
        registers-Lost c n w d id h.used h.bounded free apart
          (All-insert (λ p. p.1 ≢ c) id d w.watchers apart h.unlisted))
  Step-Lost {w} (replays d e rest now room m) h =
      let apart = h.unreplayed d (e ∷ rest) now in
      let k = stream-Lost c n w h d (put e (w.streams d)) (λ same. absurd (apart same)) in
      rw m (record {
        used = k.used;
        unlisted = k.unlisted;
        unsent = k.unsent;
        unreplayed =
            λ i es same. (let at_d : i ≡ d = ground arith in subst (λ j. j ≢ c) (sym at_d) apart);
        bounded = k.bounded;
      })
  Step-Lost {w} (releases d now m) h = rw m (record {
    used = h.used;
    unlisted = h.unlisted;
    unsent = h.unsent;
    unreplayed = λ i es same. absurd (ground arith);
    bounded = h.bounded;
  })
  Step-Lost {w} (closes d free used is_open m) h =
      let k =
        own_stream-Lost c n w h d (record (w.streams d) { is_closed = true }) used (omega arith) in
      rw m (record {
        used = k.used;
        unlisted =
            All-mono _ _ (delete (w.streams d).id w.watchers) (λ p q. q.0)
              (All-delete (λ p. p.1 ≢ c) (w.streams d).id w.watchers h.unlisted);
        unsent = h.unsent;
        unreplayed = h.unreplayed;
        bounded = k.bounded;
      })
  Step-Lost {w} (creates i p free m) h = rw m (record {
    used = h.used;
    unlisted = h.unlisted;
    unsent = h.unsent;
    unreplayed = h.unreplayed;
    bounded = h.bounded;
  })
  Step-Lost {w} (delivers d e rest on now m) h = rw m (
      own_stream-Lost c n w h d (pass e rest (w.streams d)) (is_serving (w.streams d) on)
        (omega (arith, ap length now, length-append (w.streams d).delivered (e ∷ []))))
  Step-Lost {w} (fails d e rest on now m) h =
      rw m (own_stream-Lost c n w h d _ refl (omega (arith, ap length now)))
  Step-Lost {w} (finishes d on now closed m) h =
      rw m (own_stream-Lost c n w h d _ refl (omega arith))

  Run-Lost : {w v : World} → Run w v → Lost c n w → Lost c n v
  Run-Lost stay h = h
  Run-Lost (onward s r) h = Run-Lost r (Step-Lost s h)

-- On a reachable node without a publication or a watch under way, let the handler of an open stream
-- be in use. Once another `Watch` registers its channel under the stream's number, the stream is given no
-- further event, whatever any thread does from then on.
pub watch_overwritten :
    {w u : World} (c d : ℕ)
    → Run idle w
    → IsFree w
    → is_used (w.streams c).phase ≡ true
    → (w.streams d).phase ≡ unused
    → Run (watch_begun d (w.streams c).id w) u
    → given (u.streams c) ≤ given (w.streams c)
watch_overwritten {w} {u} c d reached free used new r =
    let apart = not_new w c d used new in
    let well = Run-IsWell reached idle-IsWell in
    let unlisted =
      replaced w.streams c d w.watchers apart (Run-Unique reached tt) well.registered in
    (Run-Lost c (given (w.streams c)) r (
      registers-Lost c (given (w.streams c)) w d (w.streams c).id used (omega arith) free apart
        unlisted)).bounded
