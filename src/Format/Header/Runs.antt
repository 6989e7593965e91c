-- ===== src/Format/Header/Runs.antt =====
-- The header's theorems at a sample header.
use rdwarfs.Prelude.{◌≡◌, ◌++◌}
use rdwarfs.Result.{ok, Ensures}
use rdwarfs.Format.Samples.{
  sample, sample_payload, sample_image, sample_image-IsByte, sample-IsValid,
}
use rdwarfs.Format.Header.{parse, write, IsValid}
use rdwarfs.Format.Header.Parse.{parse-IsValid}
use rdwarfs.Format.Header.RoundTrip.{parse-write}

parse-write_example : parse (write sample ++ sample_payload) 100 ≡ ok sample
parse-write_example = parse-write sample sample_payload 100 sample-IsValid

parse-IsValid_example : Ensures IsValid (parse sample_image 0)
parse-IsValid_example = parse-IsValid sample_image 0 sample_image-IsByte
