-- ===== src/Format/Source/Runs.antt =====
-- The sources' theorems over a vector of four bytes.
use rdwarfs.Prelude.{ℕ, ◌≡◌, List, [], ◌∷◌, arith}
use rdwarfs.Result.{ok, err, source_out_of_bounds}
use rdwarfs.Format.Source.{vec_source, windowed, window, read_range, Backs}
use rdwarfs.Format.Source.Backing.{
  shown, vec_source-Backs, windowed-Backs, window-refused, read_range-Backs,
}

abbrev four : List ℕ
four = 10 ∷ 20 ∷ 30 ∷ 40 ∷ []

four-Backs : Backs (vec_source four) four
four-Backs = vec_source-Backs four (omega arith)

windowed-Backs_example : Backs (windowed (vec_source four) 1 2) (shown four 1 2)
windowed-Backs_example = windowed-Backs (vec_source four) four 1 2 four-Backs (omega arith)

window-refused_example : window (vec_source four) 3 2 ≡ err (source_out_of_bounds 3 2 4)
window-refused_example = window-refused (vec_source four) four 3 2 four-Backs (omega arith)

read_range-Backs_example : read_range (vec_source four) 1 2 ≡ ok (20 ∷ 30 ∷ [])
read_range-Backs_example = read_range-Backs (vec_source four) four 1 2 four-Backs
