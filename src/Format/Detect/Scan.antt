-- ===== src/Format/Detect/Scan.antt =====
-- src/format/detect.rs: the search in a source, in place or through overlapping windows.
use rdwarfs.Prelude.{
  ℕ, zero, suc, ◌+◌, ◌-◌, ◌*◌, Bool, true, false, Option, none, some, List, leb, ltb, ◌==◌, min,
  if◌then◌else◌, checked_add,
}
use rdwarfs.Result.{
  Result, Error, ok, err, fault, out_of_fuel, ◌>>=◌, plain_add, not_a_dwarfs_image,
}
use rdwarfs.Bytes.{bytes_eq}
use rdwarfs.Format.Header.{SectionHeader, header_len, magic, parse, section_len}
use rdwarfs.Format.Source.{ImageSource}
use rdwarfs.Format.Detect.{
  length, slice, find_magic, Verdict, found, finished, onward, judge, give_up, detect_base_offset,
}

abbrev pub scan_chunk : ℕ
scan_chunk = 64 * 1024

unfoldable pub read_header : ImageSource → ℕ → Result SectionHeader
read_header source at = do buf ← source.read_exact_at at header_len; parse buf at

-- The test behind the checked addition of the section's length.
unfoldable pub source_boundary : ImageSource → Option ℕ → Result Bool
source_boundary source none = ok false
source_boundary source (some next) = if next == source.len then ok true else do
  magic_end ← plain_add next 6
  if ltb source.len magic_end
      then ok false
      else do bytes ← source.read_exact_at next 6; ok (bytes_eq bytes magic)

unfoldable pub source_follows_a_section_boundary : ImageSource → ℕ → SectionHeader → Result Bool
source_follows_a_section_boundary source at header =
    source_boundary source (checked_add at (section_len header))

-- How the search of a window ends: with an answer, or with the error to report so far.
pub data Scanned : Type 0 where
  answered : Result ℕ → Scanned
  exhausted : Option Error → Scanned

unfoldable pub rescan : (Option Error → Result Scanned) → Option Error → Verdict → Result Scanned
rescan scan version_error (found candidate) = ok (answered (ok candidate))
rescan scan version_error finished = ok (answered (err (give_up version_error)))
rescan scan version_error (onward next version_error') = scan version_error'

-- The inner loop over the magics of a window that starts at `probe`, from `at` on; `after_magic` is its
-- body, with the rest of the loop from a place on.
unfoldable pub after_magic :
    (ℕ → Option Error → Result Scanned)
    → ImageSource
    → ℕ
    → ℕ
    → Option Error
    → Option ℕ
    → Result Scanned
after_magic scan source probe at version_error none = ok (exhausted version_error)
after_magic scan source probe at version_error (some rel) =
    let candidate = probe + (at + rel) in
    if ltb (source.len - header_len) candidate
    then ok (answered (err (give_up version_error)))
    else do
      verdict ←
          judge (source_follows_a_section_boundary source candidate) candidate version_error
            (read_header source candidate)
      rescan (scan (at + rel + 1)) version_error verdict

unfoldable pub scan_window : ℕ → ImageSource → ℕ → List ℕ → ℕ → Option Error → Result Scanned
scan_window zero source probe window at version_error = fault out_of_fuel
scan_window (suc fuel) source probe window at version_error = do
  ahead ← slice window at (length window)
  after_magic (scan_window fuel source probe window) source probe at version_error
      (find_magic ahead)

-- Behind a window: its answer, the end at a short window, or the next window.
unfoldable pub next_window : (Option Error → Result ℕ) → Bool → Scanned → Result ℕ
next_window scan short (answered result) = result
next_window scan true (exhausted version_error) = err (give_up version_error)
next_window scan false (exhausted version_error) = scan version_error

unfoldable pub scan_loop : ℕ → ImageSource → ℕ → Option Error → Result ℕ
scan_loop zero source probe version_error = fault out_of_fuel
scan_loop (suc fuel) source probe version_error =
    if leb probe (source.len - header_len)
    then (do
      let want = min scan_chunk (source.len - probe)
      window ← source.read_exact_at probe want
      scanned ← scan_window (want + 1) source probe window 0 version_error
      next_window (scan_loop fuel source (probe + (scan_chunk - 5))) (ltb want scan_chunk) scanned)
    else err (give_up version_error)

-- Every window takes the probe on, so the length bounds their number.
unfoldable pub detect_base_offset_in : ImageSource → Result ℕ
detect_base_offset_in source = elim source.as_slice [
  | some bytes ↦ detect_base_offset bytes
  | none ↦
      if ltb source.len header_len
      then err not_a_dwarfs_image
      else scan_loop (source.len + 1) source 0 none
]
