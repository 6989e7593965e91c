-- ===== src/Fs/Chunks/Runs.antt =====
-- The ends of three chunks in two files.
use rdwarfs.Prelude.{ℕ, ◌≡◌, List, [], ◌∷◌, length, some}
use rdwarfs.Result.{Ensures}
use rdwarfs.Fs.Chunks.{Chunk, build_chunk_ends}
use rdwarfs.Fs.Chunks.Ends.{AreFiles, build_chunk_ends-AreFiles}

-- Two chunks of data, and a hole in block 9 of two blocks and 5 bytes.
abbrev three : List Chunk
three =
    record { block = 0; offset = 0; size = 10 }
    ∷ record { block = 9; offset = 5; size = 2 }
    ∷ record { block = 1; offset = 3; size = 7 }
    ∷ []

build_chunk_ends-AreFiles_example :
    Ensures
      (λ (ends : List ℕ). (length ends ≡ 3) × AreFiles three (some 9) 64 [] (0 ∷ 2 ∷ 3 ∷ []) ends)
      (build_chunk_ends three (some 9) 64 [] (0 ∷ 2 ∷ 3 ∷ []))
build_chunk_ends-AreFiles_example = build_chunk_ends-AreFiles three (some 9) 64 [] (0 ∷ 2 ∷ 3 ∷ [])
