-- ===== src/Fs/Cache/Runs.antt =====
-- A block published into an empty cache, and two threads that ask for the same block.
use rdwarfs.Prelude.{ℕ, ◌≡◌, ◌≢◌, refl, false, [], ◌∷◌, arith}
use rdwarfs.Result.{ok}
use rdwarfs.Fs.Cache.{Inner, empty, insert, loading, enter, admit, wait, load}
use rdwarfs.Fs.Cache.Admission.{IsAdmitted, admit-IsAdmitted}
use rdwarfs.Fs.Cache.Methods.{empty-IsCache}
use rdwarfs.Fs.Cache.Threads.{
  idle, asking, asleep, decoding, System, start, set_thread, Reachable, begin, after, ask, look,
}
use rdwarfs.Fs.Cache.Threads.Awake.{Rouses, Reachable-alone, Reachable-awaited}

admit-IsAdmitted_example :
    (next : Inner) × (admit 4 (1 ∷ 2 ∷ []) 1 empty ≡ ok next)
    × IsAdmitted 4 (1 ∷ 2 ∷ []) 1 empty next
admit-IsAdmitted_example =
    admit-IsAdmitted 4 (1 ∷ 2 ∷ []) 1 empty empty-IsCache (unfold empty in omega arith)

-- Threads 0 and 1 ask for block 7; 0 looks first and decodes, and 1 looks and sleeps.
abbrev both_ask : System
both_ask = record {
  inner = empty;
  threads = set_thread (set_thread (λ i. idle) 0 (asking 7 1)) 1 (asking 7 1);
}

abbrev marked : Inner
marked = record empty { blocks = insert empty.blocks 7 loading }

abbrev first_decodes : System
first_decodes = record { inner = marked; threads = set_thread both_ask.threads 0 (decoding 7) }

abbrev second_sleeps : System
second_sleeps = record { inner = marked; threads = set_thread first_decodes.threads 1 (asleep 7 1) }

reached : Reachable 100 second_sleeps
unfolding start empty enter
reached =
    after first_decodes second_sleeps
      (after both_ask first_decodes
        (after _ both_ask (after start _ begin (ask start 0 7 1 refl)) (ask _ 1 7 1 refl))
        (look both_ask 0 7 1 (load false) marked refl refl))
      (look first_decodes 1 7 1 wait marked refl refl)

Reachable-alone_example : ◌≡◌ {A = ℕ} 0 0
Reachable-alone_example = Reachable-alone 100 second_sleeps 0 0 7 reached refl refl

Reachable-awaited_example : (j : ℕ) × (1 ≢ j) × Rouses 100 second_sleeps 7 1 1 j
Reachable-awaited_example = Reachable-awaited 100 second_sleeps 1 7 1 reached refl
