-- ===== src/Node/Server/Progress.antt =====
-- A publication ends while the streams are served, and hands each watcher the event.
use mathlib.Core.List.{append_assoc}
use multi_raft_storage.Prelude.{
  ℕ, suc, ◌≤◌, ◌<◌, ◌≡◌, refl, sym, ap, subst, ◌∙◌, List, [], ◌∷◌, ◌++◌, All, length, length-append,
  none, some, arith, nat_eq, nat_eq_iff, if◌then◌else◌, inl, inr, ◌⊎◌, Bool-cases,
}
use multi_raft_storage.Node.Events.{Event}
use multi_raft_storage.Node.Protocol.{send, broadcast, observe}
use multi_raft_storage.Node.Server.Channels.{
  capacity, serving, Stream, World, set, set-elim, set-same, put, pass, to_send, begins, sends,
  ends, delivers, Run, stay, onward,
}

-- All that was sent on a channel so far.
abbrev pub handed : (ℕ → Stream) → ℕ → List Event
handed f d = (f d).delivered ++ (f d).buffer

-- What follows on the channels when all is sent.
abbrev pub hand : List (ℕ × Event) → (ℕ → List Event) → ℕ → List Event
hand [] f = f
hand ((c, e) ∷ rest) f = hand rest (send c e f)

hand-to_send :
    (e : Event) (ws : List (ℕ × ℕ)) (f : ℕ → List Event) → hand (to_send e ws) f ≡ broadcast ws e f
unfolding broadcast
hand-to_send e [] f = refl
hand-to_send e ((i, c) ∷ ws) f = hand-to_send e ws (send c e f)

hand-ext :
    (p : List (ℕ × Event)) (f g : ℕ → List Event)
    → ((d : ℕ) → f d ≡ g d)
    → (d : ℕ) → hand p f d ≡ hand p g d
unfolding send
hand-ext [] f g h d = h d
hand-ext ((c, e) ∷ rest) f g h d =
    hand-ext rest _ _ (λ j. ap (λ (l : List Event). if nat_eq c j then l ++ e ∷ [] else l) (h j)) d

-- A thread with something to send, on served streams within their bounds.
record Sending (t : ℕ) (p : List (ℕ × Event)) (w : World) : Type 0 where
  thread : w.publishing t ≡ some p
  bounded : (d : ℕ) → length (w.streams d).buffer ≤ capacity
  served : All (λ q. (w.streams q.0).phase ≡ serving) p

-- The thread can come to its end.
record Ends (t : ℕ) (p : List (ℕ × Event)) (w : World) : Type 0 where
  world : World
  run : Run w world
  over : world.publishing t ≡ none
  all_handed : (d : ℕ) → handed world.streams d ≡ hand p (handed w.streams) d

served-set :
    (f : ℕ → Stream) (c : ℕ) (a : Stream) (p : List (ℕ × Event))
    → a.phase ≡ (f c).phase
    → All (λ q. (f q.0).phase ≡ serving) p
    → All (λ q. (set c a f q.0).phase ≡ serving) p
served-set f c a [] same h = tt
served-set f c a ((d, e) ∷ p) same h = (
  set-elim (λ r. r.phase ≡ serving) c d a f (λ at. same ∙ ap (λ i. (f i).phase) at ∙ h.0) h.0,
  served-set f c a p same h.1,
)

handed-put :
    (f : ℕ → Stream) (c : ℕ) (e : Event) (d : ℕ)
    → handed (set c (put e (f c)) f) d ≡ send c e (handed f) d
unfolding send
handed-put f c e d = elim (Bool-cases (nat_eq c d)) [
  | inr other ↦ rw other refl
  | inl same ↦ rw same (
      subst
        (λ i.
          (f c).delivered ++ ((f c).buffer ++ e ∷ []) ≡ ((f i).delivered ++ (f i).buffer) ++ e ∷ [])
        ((nat_eq_iff c d).0 same) (sym (append_assoc (f c).delivered (f c).buffer (e ∷ []))))
]

handed-pass :
    (f : ℕ → Stream) (c : ℕ) (e : Event) (rest : List Event) (d : ℕ)
    → (f c).buffer ≡ e ∷ rest
    → handed (set c (pass e rest (f c)) f) d ≡ handed f d
handed-pass f c e rest d now =
    set-elim (λ s. s.delivered ++ s.buffer ≡ handed f d) c d (pass e rest (f c)) f
      (λ same.
        append_assoc (f c).delivered (e ∷ []) rest
        ∙ ap (λ l. (f c).delivered ++ l) (sym now)
        ∙ ap (handed f) same)
      refl

-- With room in the channel the send goes through.
sent-Sending :
    (t c : ℕ) (e : Event) (rest : List (ℕ × Event)) (w : World)
    → Sending t ((c, e) ∷ rest) w
    → length (w.streams c).buffer < capacity
    → Sending t rest (record w {
      streams = set c (put e (w.streams c)) w.streams;
      publishing = set t (some rest) w.publishing;
    })
sent-Sending t c e rest w h room = record {
  thread = set-same (λ o. o ≡ some rest) t (some rest) w.publishing refl;
  bounded = λ d.
      set-elim (λ (s : Stream). length s.buffer ≤ capacity) c d (put e (w.streams c)) w.streams
        (λ same. omega (arith, length-append (w.streams c).buffer (e ∷ []))) (h.bounded d);
  served = served-set w.streams c (put e (w.streams c)) rest refl h.served.1;
}

module _ (t c : ℕ) (e : Event) (rest : List (ℕ × Event))
    (finish_rest : (v : World) → Sending t rest v → Ends t rest v) where
  send_now :
      (w : World)
      → Sending t ((c, e) ∷ rest) w
      → length (w.streams c).buffer < capacity
      → Ends t ((c, e) ∷ rest) w
  send_now w h room =
      let after = finish_rest _ (sent-Sending t c e rest w h room) in
      record {
        world = after.world;
        run = onward (sends t c e rest h.thread room refl) after.run;
        over = after.over;
        all_handed = λ d. after.all_handed d ∙ hand-ext rest _ _ (handed-put w.streams c e) d;
      }

  -- A full channel of a served stream gives room first.
  make_room :
      (w : World) (x : Event) (xs : List Event)
      → Sending t ((c, e) ∷ rest) w
      → (w.streams c).buffer ≡ x ∷ xs
      → Ends t ((c, e) ∷ rest) w
  make_room w x xs h now =
      let kept = pass x xs (w.streams c) in
      let short : suc (length xs) ≤ capacity = subst (λ l. length l ≤ capacity) now (h.bounded c) in
      let after =
        send_now (record w { streams = set c kept w.streams })
          (record {
            thread = h.thread;
            bounded = λ d.
                set-elim (λ (s : Stream). length s.buffer ≤ capacity) c d kept w.streams
                  (λ same. omega arith) (h.bounded d);
            served = served-set w.streams c kept ((c, e) ∷ rest) refl h.served;
          })
          (set-same (λ (s : Stream). length s.buffer < capacity) c kept w.streams (omega arith)) in
      record {
        world = after.world;
        run = onward (delivers c x xs h.served.0 now refl) after.run;
        over = after.over;
        all_handed = λ d.
            after.all_handed d
            ∙ hand-ext ((c, e) ∷ rest) _ _ (λ j. handed-pass w.streams c x xs j now) d;
      }

List-cases : (xs : List Event) → (xs ≡ []) ⊎ ((x : Event) × (r : List Event) × (xs ≡ x ∷ r))
List-cases [] = inl refl
List-cases (x ∷ r) = inr (x, r, refl)

finish : (t : ℕ) (p : List (ℕ × Event)) (w : World) → Sending t p w → Ends t p w
finish t [] w h = record {
  world = record w { publishing = set t none w.publishing };
  run = onward (ends t h.thread refl) stay;
  over = set-same (λ o. o ≡ none) t none w.publishing refl;
  all_handed = λ d. refl;
}
finish t ((c, e) ∷ rest) w h = elim (List-cases (w.streams c).buffer) [
  | inl empty ↦ send_now t c e rest (finish t rest) w h (rw empty (omega arith))
  | inr (x, xs, now) ↦ make_room t c e rest (finish t rest) w x xs h now
]

to_send-served :
    (f : ℕ → Stream) (e : Event) (ws : List (ℕ × ℕ))
    → All (λ p. (f p.1).phase ≡ serving) ws
    → All (λ q. (f q.0).phase ≡ serving) (to_send e ws)
to_send-served f e [] h = tt
to_send-served f e (p ∷ ws) h = (h.0, to_send-served f e ws h.1)

-- While no `Watch` is under way, on a node of bounded channels whose watchers' streams are all in their loops, a
-- thread that publishes an event can come to its end, full channels or not; when it does, each channel was handed what the
-- sequential `publish` sends on it, and nothing else.
pub publish_ends :
    (w : World) (t : ℕ) (e : Event)
    → w.replaying ≡ none
    → w.publishing t ≡ none
    → ((d : ℕ) → length (w.streams d).buffer ≤ capacity)
    → All (λ p. (w.streams p.1).phase ≡ serving) w.watchers
    → (v : World) × Run w v
      × (v.publishing t ≡ none)
      × ((d : ℕ) → handed v.streams d ≡ broadcast w.watchers e (handed w.streams) d)
publish_ends w t e calm idle_thread bounded served =
    let after =
      finish t (to_send e w.watchers)
        (record w {
          partitions = observe e.event w.partitions;
          publishing = set t (some (to_send e w.watchers)) w.publishing;
        })
        (record {
          thread = set-same (λ o. o ≡ some (to_send e w.watchers)) t _ w.publishing refl;
          bounded = bounded;
          served = to_send-served w.streams e w.watchers served;
        }) in
    (
      after.world,
      onward (begins t e calm idle_thread refl) after.run,
      after.over,
      λ d. after.all_handed d ∙ ap (λ f. f d) (hand-to_send e w.watchers (handed w.streams)),
    )
