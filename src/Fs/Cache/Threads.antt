-- ===== src/Fs/Cache/Threads.antt =====
-- src/fs/read.rs: threads that fetch blocks from one cache, interleaved between the points where they hold
-- its lock.
--
-- A decode that succeeds takes the lock twice, to mark a whole block and to publish it. Between the two
-- the block has its marker, and only a thread that starts to decode the block reads the mark, so both are
-- one step here. A decode that fails or panics drops its marker and wakes the sleepers too.
pub mod Agrees
pub mod Awake
use rdwarfs.Prelude.{ℕ, ◌+◌, ◌<◌, ◌≡◌, List, length, ◌==◌, if◌then◌else◌, u64_mod}
use rdwarfs.Result.{ok}
use rdwarfs.Fs.Cache.{Inner, empty, Outcome, hit, wait, load, enter, publish, abandon, clear}

-- Where a thread is: outside, before the lock with a block to fetch and the bytes needed, asleep on the
-- block, decoding it, or behind it with the sleepers to wake.
pub data Thread : Type 0 where
  idle : Thread
  asking : ℕ → ℕ → Thread
  asleep : ℕ → ℕ → Thread
  decoding : ℕ → Thread
  notifying : Thread

pub record System : Type 0 where
  pub inner : Inner
  pub threads : ℕ → Thread

unfoldable pub start : System
start = record { inner = empty; threads = λ i. idle }

abbrev pub set_thread : (ℕ → Thread) → ℕ → Thread → ℕ → Thread
set_thread threads i t j = if j == i then t else threads j

-- Where the loop of `fetch` leads.
abbrev pub behind : Outcome → ℕ → ℕ → Thread
behind (hit bytes) block needed = idle
behind wait block needed = asleep block needed
behind (load retry_in_full) block needed = decoding block

-- `notify_all`: every sleeper looks again.
abbrev pub woken : Thread → Thread
woken idle = idle
woken (asking block needed) = asking block needed
woken (asleep block needed) = asking block needed
woken (decoding block) = decoding block
woken notifying = notifying

-- A step of one thread, over a budget. The bytes in memory stay below 2^64.
pub data Step (budget : ℕ) : System → System → Type 0 where
  ask :
      (s : System) (i block needed : ℕ)
      → s.threads i ≡ idle
      → Step budget s (record s { threads = set_thread s.threads i (asking block needed) })
  look :
      (s : System) (i block needed : ℕ) (outcome : Outcome) (inner : Inner)
      → s.threads i ≡ asking block needed
      → enter block needed s.inner ≡ ok (outcome, inner)
      → Step budget s
          (record { inner = inner; threads = set_thread s.threads i (behind outcome block needed) })
  succeed :
      (s : System) (i block whole : ℕ) (bytes : List ℕ) (inner : Inner)
      → s.threads i ≡ decoding block
      → s.inner.resident + length bytes < u64_mod
      → publish block bytes whole budget s.inner ≡ ok inner
      → Step budget s (record { inner = inner; threads = set_thread s.threads i notifying })
  give_up :
      (s : System) (i block : ℕ)
      → s.threads i ≡ decoding block
      → Step budget s
          (record { inner = abandon block s.inner; threads = set_thread s.threads i notifying })
  notify :
      (s : System) (i : ℕ)
      → s.threads i ≡ notifying
      → Step budget s (record s { threads = λ j. woken (set_thread s.threads i idle j) })
  wake :
      (s : System) (i block needed : ℕ)
      → s.threads i ≡ asleep block needed
      → Step budget s (record s { threads = set_thread s.threads i (asking block needed) })
  forget : (s : System) → Step budget s (record s { inner = clear s.inner })

pub data Reachable (budget : ℕ) : System → Type 0 where
  begin : Reachable budget start
  after : (s t : System) → Reachable budget s → Step budget s t → Reachable budget t
