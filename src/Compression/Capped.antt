-- ===== src/Compression/Capped.antt =====
-- src/compression/capped.rs: the sinks that a decoder writes into, one that refuses to outgrow a cap and
-- one that stops the decoder once it holds enough.
--
-- A `write` returns the writer beside its answer, since an error leaves the writer in a state that the
-- caller reads. An I/O error keeps no message, so the two writers' errors have a type of their own.
pub mod Pieces
mod Runs
use rdwarfs.Prelude.{
  ℕ, ◌-◌, ◌≡◌, Bool, true, false, Option, none, some, List, [], ◌∷◌, ◌++◌, length, take, min, ltb,
  leb, if◌then◌else◌, saturating_add, ◌==◌,
}

-- The errors of the two sinks.
pub data WriteError : Type 0 where
  cap_exceeded prefix_complete : WriteError

pub data Written : Type 0 where
  accepted : ℕ → Written
  refused : WriteError → Written

pub record CappedWriter : Type 0 where
  pub buf : List ℕ
  pub cap : ℕ

unfoldable pub new : ℕ → CappedWriter
new cap = record { buf = []; cap = cap }

unfoldable pub into_inner : CappedWriter → List ℕ
into_inner w = w.buf

unfoldable pub is_empty : CappedWriter → Bool
is_empty w = length w.buf == 0

unfoldable pub write : CappedWriter → List ℕ → CappedWriter × Written
write w data_ =
    if ltb w.cap (saturating_add (length w.buf) (length data_))
    then (w, refused cap_exceeded)
    else (record w { buf = w.buf ++ data_ }, accepted (length data_))

pub record PrefixWriter : Type 0 where
  pub buf : List ℕ
  pub needed : ℕ

unfoldable pub prefix_new : ℕ → PrefixWriter
prefix_new needed = record { buf = []; needed = needed }

unfoldable pub prefix_write : PrefixWriter → List ℕ → PrefixWriter × Written
prefix_write w data_ =
    let taken = min (w.needed - length w.buf) (length data_) in
    let buf = w.buf ++ take taken data_ in
    (
      record w { buf = buf },
      if leb w.needed (length buf) then refused prefix_complete else accepted taken,
    )

-- `PrefixWriter::is_complete`.
unfoldable pub is_complete : WriteError → Bool
is_complete prefix_complete = true
is_complete cap_exceeded = false
