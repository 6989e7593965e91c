-- ===== src/Compression/Capped/Runs.antt =====
-- The sinks, fed two pieces.
use rdwarfs.Prelude.{ℕ, ◌≡◌, List, [], ◌∷◌, arith, none, some}
use rdwarfs.Compression.Capped.{new, write, prefix_new, prefix_write, cap_exceeded, prefix_complete}
use rdwarfs.Compression.Capped.Pieces.{feed, joined, feed-within, feed-beyond, feed-prefix_new}

abbrev pieces : List (List ℕ)
pieces = (1 ∷ 2 ∷ []) ∷ (3 ∷ []) ∷ []

feed-within_example : feed write (new 4) pieces ≡ (record { buf = 1 ∷ 2 ∷ 3 ∷ []; cap = 4 }, none)
unfolding joined
feed-within_example = feed-within 4 pieces (omega arith) (omega arith)

feed-beyond_example : (feed write (new 2) pieces).1 ≡ some cap_exceeded
unfolding joined
feed-beyond_example = feed-beyond 2 pieces (omega arith) (omega arith)

feed-prefix_new_example :
    feed prefix_write (prefix_new 2) pieces
    ≡ (record { buf = 1 ∷ 2 ∷ []; needed = 2 }, some prefix_complete)
unfolding joined
feed-prefix_new_example = feed-prefix_new 2 pieces (omega arith)
