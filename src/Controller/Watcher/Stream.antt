-- ===== src/Controller/Watcher/Stream.antt =====
-- When the loop of a watch returns.
use multi_raft_storage.Prelude.{
  ℕ, zero, suc, ◌+◌, ◌≤◌, ◌<◌, ◌≡◌, refl, subst, String, Bool, true, false, arith, Exec,
}
use multi_raft_storage.Controller.Client.{KubeError, Client}
use multi_raft_storage.Controller.Watcher.Records.{
  Received, received, eof, canceled, failed, watch_loop,
}

-- The end of the stream, or of the call.
abbrev pub is_end : Received → Bool
is_end (received e) = false
is_end eof = true
is_end canceled = true
is_end failed = false

module _ {S : Type 0} (client : Client S) (retry : Exec S KubeError (Unit {0}) → S → S)
    (ns store : String) (stream : ℕ → Received) where
  go_on :
      (n k : ℕ) (s : S) (r : Received)
      → ((s' : S) → (watch_loop client retry ns store stream n (suc k) s').0 ≡ true)
      → stream k ≡ r
      → (watch_loop client retry ns store stream (suc n) k s).0 ≡ true
  unfolding watch_loop
  go_on n k s (received e) rest now = rw (now, watch_loop) (rest _)
  go_on n k s eof rest now = rw (now, watch_loop) refl
  go_on n k s canceled rest now = rw (now, watch_loop) refl
  go_on n k s failed rest now = rw (now, watch_loop) (rest s)

  at_end :
      (n k : ℕ) (s : S) (r : Received)
      → stream k ≡ r
      → is_end r ≡ true
      → (watch_loop client retry ns store stream (suc n) k s).0 ≡ true
  unfolding watch_loop
  at_end n k s (received e) now h = absurd (ground arith)
  at_end n k s eof now h = rw (now, watch_loop) refl
  at_end n k s canceled now h = rw (now, watch_loop) refl
  at_end n k s failed now h = absurd (ground arith)

  -- A watch whose stream ends, or is canceled, in `d` calls of `Recv` from now returns within one more
  -- round than that, whatever comes before and whatever the writes do.
  pub watch_loop_ends :
      (d n k : ℕ) (s : S)
      → is_end (stream (k + d)) ≡ true
      → d < n
      → (watch_loop client retry ns store stream n k s).0 ≡ true
  watch_loop_ends d zero k s ends lt = absurd (omega arith)
  watch_loop_ends zero (suc n) k s ends lt =
      at_end n k s (stream k) refl
        (subst (λ j. is_end (stream j) ≡ true) (let e : k + 0 ≡ k = omega arith in e) ends)
  watch_loop_ends (suc d) (suc n) k s ends lt =
      go_on n k s (stream k)
        (λ s'.
          watch_loop_ends d n (suc k) s'
            (subst (λ j. is_end (stream j) ≡ true)
              (let e : k + suc d ≡ suc k + d = omega arith in e) ends)
            (omega arith))
        refl

  -- A stream whose `Recv` only returns errors from some call on, other than its end and a cancellation,
  -- keeps its watch in the loop for ever: in no number of rounds does it return, or change anything.
  pub watch_loop_stays :
      (n k : ℕ) (s : S)
      → ((j : ℕ) → k ≤ j → stream j ≡ failed)
      → watch_loop client retry ns store stream n k s ≡ (false, s)
  unfolding watch_loop
  watch_loop_stays zero k s broken = refl
  watch_loop_stays (suc n) k s broken =
      rw (broken k (omega arith), watch_loop)
        (watch_loop_stays n (suc k) s (λ j le. broken j (omega arith)))
