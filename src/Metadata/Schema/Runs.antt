-- ===== src/Metadata/Schema/Runs.antt =====
-- The parser on a short input that is no schema.
use rdwarfs.Prelude.{true, [], ◌∷◌}
use rdwarfs.Result.{Returns}
use rdwarfs.Metadata.Schema.{parse}
use rdwarfs.Metadata.Schema.Ends.{parse-Returns}

parse-Returns_example : Returns (parse (λ bytes. true) (22 ∷ 2 ∷ 0 ∷ []))
parse-Returns_example = parse-Returns (λ bytes. true) (22 ∷ 2 ∷ 0 ∷ [])
