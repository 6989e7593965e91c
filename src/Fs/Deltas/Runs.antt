-- ===== src/Fs/Deltas/Runs.antt =====
-- Columns of two rows, one of them descending.
use rdwarfs.Prelude.{◌≡◌, [], ◌∷◌, arith}
use rdwarfs.Fs.Deltas.{Directory, unpack_directory_first_entries}
use rdwarfs.Fs.Deltas.Undone.{packed, unpack_directory_first_entries-packed}

abbrev root : Directory
root = record { parent_entry = 0; first_entry = 1; self_entry = 0 }

abbrev sub : Directory
sub = record { parent_entry = 0; first_entry = 4; self_entry = 2 }

unpack_directory_first_entries-packed_example :
    unpack_directory_first_entries (root ∷ record sub { first_entry = 3 } ∷ []) ≡ root ∷ sub ∷ []
unfolding packed
unpack_directory_first_entries-packed_example =
    unpack_directory_first_entries-packed (root ∷ sub ∷ []) (omega arith, (omega arith, tt))
