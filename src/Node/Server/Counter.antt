-- ===== src/Node/Server/Counter.antt =====
-- node/pkg/consensus/protocol.go: `n.watcherID++; id := n.watcherID` of `Watch`, which no lock guards, as
-- accesses of threads: the counter is loaded, stored one higher, and loaded again.
use multi_raft_storage.Prelude.{ℕ, ◌+◌, ◌≡◌, ◌≢◌, refl, sym}
use multi_raft_storage.Node.Server.Channels.{set, set-elim, set-same}

-- What a `Watch` has done so far: nothing, with the value that it loaded, the store, and with its number.
pub data Access : Type 0 where
  called : Access
  loaded : ℕ → Access
  stored : Access
  numbered : ℕ → Access

pub record Counter : Type 0 where
  pub watcher_id : ℕ
  pub threads : ℕ → Access

pub data Next (w v : Counter) : Type 0 where
  loads :
      (t : ℕ)
      → w.threads t ≡ called
      → v ≡ record w { threads = set t (loaded w.watcher_id) w.threads }
      → Next w v
  stores :
      (t k : ℕ)
      → w.threads t ≡ loaded k
      → v ≡ record { watcher_id = k + 1; threads = set t stored w.threads }
      → Next w v
  reads :
      (t : ℕ)
      → w.threads t ≡ stored
      → v ≡ record w { threads = set t (numbered w.watcher_id) w.threads }
      → Next w v

pub data Accesses : Counter → Counter → Type 0 where
  stop : {w : Counter} → Accesses w w
  go_on : {w v u : Counter} → Next w v → Accesses v u → Accesses w u

set_here : (i : ℕ) (a : Access) (f : ℕ → Access) → set i a f i ≡ a
set_here i a f = set-same (λ b. b ≡ a) i a f refl

-- What a thread holds, behind another thread's access.
set_there : (i j : ℕ) (a b : Access) (f : ℕ → Access) → i ≢ j → f j ≡ b → set i a f j ≡ b
set_there i j a b f apart h = set-elim (λ c. c ≡ b) i j a f (λ e. absurd (apart e)) h

-- Two watches that are called at once can get one number: both load the counter before either stores
-- it.
pub numbers_collide :
    (w : Counter) (s t : ℕ)
    → s ≢ t
    → w.threads s ≡ called
    → w.threads t ≡ called
    → (v : Counter) × Accesses w v
      × (v.threads s ≡ numbered (w.watcher_id + 1))
      × (v.threads t ≡ numbered (w.watcher_id + 1))
numbers_collide w s t apart first second =
    let n = w.watcher_id in
    let back = λ (e : t ≡ s). apart (sym e) in
    let f1 = set s (loaded n) w.threads in
    let f2 = set t (loaded n) f1 in
    let f3 = set s stored f2 in
    let f4 = set t stored f3 in
    let f5 = set s (numbered (n + 1)) f4 in
    (
      record { watcher_id = n + 1; threads = set t (numbered (n + 1)) f5 },
      go_on (loads s first refl) (
          go_on (loads t (set_there s t (loaded n) called w.threads apart second) refl) (
            go_on
              (stores s n
                (set_there t s (loaded n) (loaded n) f1 back (set_here s (loaded n) w.threads))
                refl)
              (go_on
                (stores t n (set_there s t stored (loaded n) f2 apart (set_here t (loaded n) f1))
                  refl)
                (go_on (reads s (set_there t s stored stored f3 back (set_here s stored f2)) refl) (
                  go_on
                    (reads t
                      (set_there s t (numbered (n + 1)) stored f4 apart (set_here t stored f3))
                      refl)
                    stop))))),
      set_there t s (numbered (n + 1)) (numbered (n + 1)) f5 back
          (set_here s (numbered (n + 1)) f4),
      set_here t (numbered (n + 1)) f5,
    )
