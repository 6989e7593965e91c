-- ===== src/Format/Detect.antt =====
-- src/format/detect.rs: the search for the first section behind a prefix.
--
-- The scan of a source without contiguous bytes reads windows of 64 KiB that overlap by five bytes. Its
-- error for an unsupported version is the first that a candidate gave, as in the scan of a slice.
pub mod Start
pub mod Least
pub mod Scan
mod Runs
use rdwarfs.Prelude.{
  ℕ, zero, suc, ◌+◌, ◌-◌, ◌<◌, ◌≡◌, Bool, true, false, Option, none, some, List, [], ◌∷◌, length,
  take, drop, leb, ltb, ◌==◌, min, if◌then◌else◌, checked_add,
}
use rdwarfs.Result.{
  Result, Error, ok, err, fault, out_of_fuel, ◌>>=◌, slice, plain_add, not_a_dwarfs_image,
  unsupported_version,
}
use rdwarfs.Bytes.{bytes_eq}
use rdwarfs.Format.Header.{SectionHeader, header_len, magic, parse, section_len}
use rdwarfs.Format.Source.{ImageSource}

-- An index behind one more element.
unfoldable pub shifted : Option ℕ → Option ℕ
shifted none = none
shifted (some rel) = some (suc rel)

-- `slice.windows(6).position(|window| window == MAGIC)`; a window shorter than the magic is not equal to it.
unfoldable pub find_magic : List ℕ → Option ℕ
find_magic [] = none
find_magic (b ∷ bs) =
    let rest = find_magic bs in if bytes_eq (take 6 (b ∷ bs)) magic then some 0 else shifted rest

-- Whether the magic stands at `next`, with its checked end.
unfoldable pub magic_up_to : List ℕ → ℕ → Option ℕ → Result Bool
magic_up_to image next none = ok false
magic_up_to image next (some magic_end) =
    if ltb (length image) magic_end
    then ok false
    else do bytes ← slice image next magic_end; ok (bytes_eq bytes magic)

-- The test behind the checked addition of the section's length.
unfoldable pub is_boundary : List ℕ → Option ℕ → Result Bool
is_boundary image none = ok false
is_boundary image (some next) =
    if next == length image then ok true else magic_up_to image next (checked_add next 6)

unfoldable pub follows_a_section_boundary : List ℕ → ℕ → SectionHeader → Result Bool
follows_a_section_boundary image at header = is_boundary image (checked_add at (section_len header))

-- What a candidate leads to: the answer, the end of the scan, or the next probe with the error to report.
pub data Verdict : Type 0 where
  found : ℕ → Verdict
  finished : Verdict
  onward : ℕ → Option Error → Verdict

-- `version_error.get_or_insert(err)`.
unfoldable pub get_or_insert : Option Error → Error → Option Error
get_or_insert none e = some e
get_or_insert (some e') e = some e'

-- Only an error for an unsupported version is kept.
unfoldable pub remembered : Option Error → Error → Option Error
remembered version_error (unsupported_version major minor) =
    get_or_insert version_error (unsupported_version major minor)
remembered version_error _ = version_error

unfoldable pub confirmed : ℕ → Option Error → Bool → Verdict
confirmed candidate version_error true = found candidate
confirmed candidate version_error false = onward (candidate + 1) version_error

-- The `match` on the parsed header, with the test of the boundary as a function of the header.
unfoldable pub judge :
    (SectionHeader → Result Bool) → ℕ → Option Error → Result SectionHeader → Result Verdict
judge follows candidate version_error (ok header) = do
  b ← follows header
  ok (confirmed candidate version_error b)
judge follows candidate version_error (err e) =
    ok (onward (candidate + 1) (remembered version_error e))
judge follows candidate version_error (fault x) = fault x

unfoldable pub judge_magic : List ℕ → ℕ → Option Error → Option ℕ → Result Verdict
judge_magic image probe version_error none = ok finished
judge_magic image probe version_error (some rel) =
    let candidate = probe + rel in
    if ltb (length image - header_len) candidate then ok finished else do
      bytes ← slice image candidate (candidate + header_len)
      judge (follows_a_section_boundary image candidate) candidate version_error
          (parse bytes candidate)

-- `Err(version_error.unwrap_or(Error::NotADwarfsImage))`.
unfoldable pub give_up : Option Error → Error
give_up none = not_a_dwarfs_image
give_up (some e) = e

-- The rest of the scan behind a verdict.
unfoldable pub resume : (ℕ → Option Error → Result ℕ) → Option Error → Verdict → Result ℕ
resume scan version_error (found candidate) = ok candidate
resume scan version_error finished = err (give_up version_error)
resume scan version_error (onward probe version_error') = scan probe version_error'

unfoldable pub detect_loop : ℕ → List ℕ → ℕ → Option Error → Result ℕ
detect_loop zero image probe version_error = fault out_of_fuel
detect_loop (suc fuel) image probe version_error =
    if leb probe (length image - header_len)
    then (do
      ahead ← slice image probe (length image)
      verdict ← judge_magic image probe version_error (find_magic ahead)
      resume (detect_loop fuel image) version_error verdict)
    else err (give_up version_error)

-- Every round moves the probe on.
unfoldable pub detect_base_offset : List ℕ → Result ℕ
detect_base_offset image =
    if ltb (length image) header_len
    then err not_a_dwarfs_image
    else detect_loop (length image + 1) image 0 none
