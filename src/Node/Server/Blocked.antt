-- ===== src/Node/Server/Blocked.antt =====
-- A stream whose `Send` has failed while its channel fills up.
use multi_raft_storage.Prelude.{
  ℕ, ◌<◌, ◌≡◌, ◌≢◌, refl, sym, ap, subst, ◌∙◌, List, [], ◌∷◌, length, Option, none, some, arith,
}
use multi_raft_storage.Node.Events.{Event}
use multi_raft_storage.Node.Protocol.{observe}
use multi_raft_storage.Node.Server.Channels.{
  capacity, serving, failed, Stream, World, set, set-elim, put, IsFree, Step, begins, sends, ends,
  registers, replays, releases, closes, creates, delivers, fails, finishes, Run, stay, onward,
}

-- The stream has returned, its channel is full, and thread `t` is to send on it.
abbrev pub IsStuck : Stream → Type 0
IsStuck s = (s.phase ≡ failed) × (length s.buffer ≡ capacity)

pub record Blocked (t c : ℕ) (e : Event) (rest : List (ℕ × Event)) (w : World) : Type 0 where
  pub stuck : IsStuck (w.streams c)
  pub thread : w.publishing t ≡ some ((c, e) ∷ rest)
  pub calm : w.replaying ≡ none

module _ (t c : ℕ) (e : Event) (rest : List (ℕ × Event)) where
  -- Another stream, or another thread, is no help.
  other_stream :
      (w : World) (d : ℕ) (a : Stream)
      → Blocked t c e rest w
      → d ≢ c
      → Blocked t c e rest (record w { streams = set d a w.streams })
  other_stream w d a h apart = record {
    stuck = set-elim IsStuck d c a w.streams (λ same. absurd (apart same)) h.stuck;
    thread = h.thread;
    calm = h.calm;
  }

  other_thread :
      (w : World) (j : ℕ) (o : Option (List (ℕ × Event)))
      → Blocked t c e rest w
      → j ≢ t
      → Blocked t c e rest (record w { publishing = set j o w.publishing })
  other_thread w j o h apart = record {
    stuck = h.stuck;
    thread =
        set-elim (λ r. r ≡ some ((c, e) ∷ rest)) j t o w.publishing (λ same. absurd (apart same))
          h.thread;
    calm = h.calm;
  }

  -- The thread holds the lock, and the stream takes nothing.
  not_free : (w : World) → Blocked t c e rest w → IsFree w → ⊥
  not_free w h free = let unlocked = free.1 t in let locked = h.thread in absurd (ground arith)

  not_serving : (w : World) (d : ℕ) → Blocked t c e rest w → (w.streams d).phase ≡ serving → d ≢ c
  not_serving w d h on same =
      let on_c = subst (λ i. (w.streams i).phase ≡ serving) same on in
      let off = h.stuck.0 in absurd (ground arith)

  no_room :
      (w : World) (d : ℕ) → Blocked t c e rest w → length (w.streams d).buffer < capacity → d ≢ c
  no_room w d h room same =
      let room_c = subst (λ i. length (w.streams i).buffer < capacity) same room in
      omega (arith, h.stuck.1)

  -- A thread in another place is another thread.
  differs :
      (w : World) (j : ℕ) (o : Option (List (ℕ × Event)))
      → Blocked t c e rest w
      → w.publishing j ≡ o
      → o ≢ some ((c, e) ∷ rest)
      → j ≢ t
  differs w j o h now other same = other (sym now ∙ ap w.publishing same ∙ h.thread)

  Step-Blocked :
      {w v : World}
      → Step w v
      → Blocked t c e rest w
      → Blocked t c e rest v × (v.watchers ≡ w.watchers)
  Step-Blocked {w} {v} (begins j x calm idle_thread m) h = rw m (
    other_thread (record w { partitions = observe x.event w.partitions }) j _
        (record { stuck = h.stuck; thread = h.thread; calm = h.calm })
        (differs w j none h idle_thread (λ same. absurd (ground arith))),
    refl,
  )
  Step-Blocked {w} {v} (sends j d x more now room m) h =
      let elsewhere = no_room w d h room in
      let other_one = differs w j _ h now (λ same. elsewhere (ground arith)) in
      rw m (
        other_thread _ j (some more) (other_stream w d (put x (w.streams d)) h elsewhere) other_one,
        refl,
      )
  Step-Blocked {w} {v} (ends j now m) h =
      rw m (
        other_thread w j none h (differs w j (some []) h now (λ same. absurd (ground arith))),
        refl,
      )
  Step-Blocked {w} {v} (registers d id free new m) h = absurd (not_free w h free)
  Step-Blocked {w} {v} (replays d x more now room m) h = let calm = h.calm in absurd (ground arith)
  Step-Blocked {w} {v} (releases d now m) h = let calm = h.calm in absurd (ground arith)
  Step-Blocked {w} {v} (closes d free used is_open m) h = absurd (not_free w h free)
  Step-Blocked {w} {v} (creates i p free m) h = absurd (not_free w h free)
  Step-Blocked {w} {v} (delivers d x more on now m) h =
      rw m (other_stream w d _ h (not_serving w d h on), refl)
  Step-Blocked {w} {v} (fails d x more on now m) h =
      rw m (other_stream w d _ h (not_serving w d h on), refl)
  Step-Blocked {w} {v} (finishes d on now closed m) h =
      rw m (other_stream w d _ h (not_serving w d h on), refl)

  -- Once a stream has returned with an error of its `Send`, its channel is full and a publication is to send on
  -- it, whatever any thread does from then on: the publication stays where it is, and no watch is ever
  -- registered or ended again, the returned stream's own included.
  pub Run-Blocked :
      {w v : World}
      → Run w v
      → Blocked t c e rest w
      → Blocked t c e rest v × (v.watchers ≡ w.watchers)
  Run-Blocked stay h = (h, refl)
  Run-Blocked (onward s r) h =
      let (blocked, same) = Step-Blocked s h in
      let (still, kept) = Run-Blocked r blocked in (still, kept ∙ same)
