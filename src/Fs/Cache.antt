-- ===== src/Fs/Cache.antt =====
-- src/fs/read.rs: the cache of decoded blocks.
--
-- The map of blocks and the set of blocks that were decoded in full are functions of the block. A method
-- runs under the lock of the cache, and takes and returns what the lock guards. `fetch` gives the lock up
-- twice: while it sleeps on a block that another thread decodes, and while it decodes; its three parts
-- between are here, and Fs/Cache/Threads runs them interleaved.
pub mod Order
pub mod Kept
pub mod Admission
pub mod Methods
pub mod Threads
mod Runs
use rdwarfs.Prelude.{
  ◌&&◌, ℕ, zero, suc, ◌+◌, ◌-◌, Bool, true, false, ◌||◌, Option, none, some, List, [], ◌∷◌, ◌++◌,
  length, ltb, leb, ◌==◌, if◌then◌else◌,
}
use rdwarfs.Result.{Result, ok, err, fault, out_of_fuel, ◌>>=◌, plain_add, plain_sub, Error}

pub data Entry : Type 0 where
  loading : Entry
  ready : List ℕ → Entry

pub record Inner : Type 0 where
  pub decoded_whole : ℕ → Bool
  pub resident : ℕ
  pub blocks : ℕ → Option Entry
  pub order : List ℕ

unfoldable pub empty : Inner
empty = record { decoded_whole = λ b. false; resident = 0; blocks = λ b. none; order = [] }

abbrev pub remove : (ℕ → Option Entry) → ℕ → ℕ → Option Entry
remove blocks block b = if b == block then none else blocks b

abbrev pub insert : (ℕ → Option Entry) → ℕ → Entry → ℕ → Option Entry
insert blocks block entry b = if b == block then some entry else blocks b

-- `order.iter().position(|b| *b == block)`, and the list without that position.
abbrev pub contains : ℕ → List ℕ → Bool
contains block [] = false
contains block (b ∷ order) = (b == block) || contains block order

abbrev pub remove_first : ℕ → List ℕ → List ℕ
remove_first block [] = []
remove_first block (b ∷ order) =
    let rest = remove_first block order in if b == block then order else b ∷ rest

unfoldable pub touch : ℕ → Inner → Inner
touch block inner =
    if contains block inner.order
    then record inner { order = remove_first block inner.order ++ (block ∷ []) }
    else inner

-- `self.resident -= bytes.len()` for an entry that was removed, where it held bytes.
abbrev pub uncount : Option Entry → ℕ → Result ℕ
uncount none resident = ok resident
uncount (some loading) resident = ok resident
uncount (some (ready bytes)) resident = plain_sub resident (length bytes)

unfoldable pub evict : ℕ → Inner → Result Inner
evict block inner = do
  resident ← uncount (inner.blocks block) inner.resident
  ok (record inner {
    resident = resident;
    blocks = remove inner.blocks block;
    order = remove_first block inner.order;
  })

abbrev pub evict_front : List ℕ → Inner → Result (Bool × Inner)
evict_front [] inner = ok (false, inner)
evict_front (key ∷ order) inner = do
  resident ← uncount (inner.blocks key) inner.resident
  ok (true, record inner { resident = resident; blocks = remove inner.blocks key; order = order })

unfoldable pub evict_one : Inner → Result (Bool × Inner)
evict_one inner = evict_front inner.order inner

abbrev pub displace_entry : Option Entry → ℕ → Inner → Result Inner
displace_entry none block inner = ok (record inner { blocks = remove inner.blocks block })
displace_entry (some loading) block inner = ok (record inner { blocks = remove inner.blocks block })
displace_entry (some (ready old)) block inner = do
  resident ← plain_sub inner.resident (length old)
  ok (record inner {
    resident = resident;
    blocks = remove inner.blocks block;
    order = remove_first block inner.order;
  })

-- The first statement of `admit`.
unfoldable pub displace : ℕ → Inner → Result Inner
displace block inner = displace_entry (inner.blocks block) block inner

-- Whether `evict_one` found something to evict decides if the loop goes on.
abbrev pub again : (Inner → Result Inner) → Bool × Inner → Result Inner
again rest (true, inner) = rest inner
again rest (false, inner) = ok inner

-- `while self.resident + bytes.len() > budget && self.evict_one() {}`
unfoldable pub make_room : ℕ → ℕ → ℕ → Inner → Result Inner
make_room zero len budget inner = fault out_of_fuel
make_room (suc fuel) len budget inner = do
  total ← plain_add inner.resident len
  if ltb budget total
      then (do evicted ← evict_one inner; again (make_room fuel len budget) evicted)
      else ok inner

-- Every round but the last evicts a block, so a round for each and one more are enough.
unfoldable pub admit : ℕ → List ℕ → ℕ → Inner → Result Inner
admit block bytes budget inner = do
  displaced ← displace block inner
  roomy ← make_room (length displaced.order + 1) (length bytes) budget displaced
  resident ← plain_add roomy.resident (length bytes)
  ok (record roomy {
    resident = resident;
    order = roomy.order ++ (block ∷ []);
    blocks = insert roomy.blocks block (ready bytes);
  })

-- `retain`: only the blocks that are being decoded stay.
abbrev pub keep_loading : Option Entry → Option Entry
keep_loading none = none
keep_loading (some loading) = some loading
keep_loading (some (ready bytes)) = none

unfoldable pub clear : Inner → Inner
clear inner = record inner { blocks = λ b. keep_loading (inner.blocks b); order = []; resident = 0 }

-- How `fetch` goes on after its loop has looked at the block: with the bytes, asleep, or by decoding.
pub data Outcome : Type 0 where
  hit : List ℕ → Outcome
  wait : Outcome
  load : Bool → Outcome

abbrev pub start_load : Bool → ℕ → Inner → Outcome × Inner
start_load retry_in_full block inner = (
  load (retry_in_full || inner.decoded_whole block),
  record inner { blocks = insert inner.blocks block loading },
)

abbrev pub look_at : Option Entry → ℕ → ℕ → Inner → Result (Outcome × Inner)
look_at none block needed inner = ok (start_load false block inner)
look_at (some loading) block needed inner = ok (wait, inner)
look_at (some (ready bytes)) block needed inner =
    if leb needed (length bytes)
    then ok (hit bytes, touch block inner)
    else do evicted ← evict block inner; ok (start_load true block evicted)

-- `fetch` up to where it gives the lock up.
unfoldable pub enter : ℕ → ℕ → Inner → Result (Outcome × Inner)
enter block needed inner = look_at (inner.blocks block) block needed inner

abbrev pub mark_whole : Bool → ℕ → (ℕ → Bool) → ℕ → Bool
mark_whole is_whole block decoded b = (is_whole && (b == block)) || decoded b

-- A decode that succeeds: the block is marked if it is whole, and published.
unfoldable pub publish : ℕ → List ℕ → ℕ → ℕ → Inner → Result Inner
publish block bytes whole budget inner = admit block bytes budget (record inner {
  decoded_whole = mark_whole (leb whole (length bytes)) block inner.decoded_whole;
})

-- `InFlight::drop`, on a decode that fails: the marker goes.
unfoldable pub abandon : ℕ → Inner → Inner
abandon block inner = record inner { blocks = remove inner.blocks block }

-- `fetch` when no other thread uses the cache: there is nobody to sleep for.
abbrev pub finish : (Bool → Result (List ℕ)) → ℕ → ℕ → ℕ → Outcome × Inner → Result (List ℕ × Inner)
finish decode block whole budget (hit bytes, inner) = ok (bytes, inner)
finish decode block whole budget (wait, inner) = fault out_of_fuel
finish decode block whole budget (load retry_in_full, inner) = do
  bytes ← decode retry_in_full
  inner' ← publish block bytes whole budget inner
  ok (bytes, inner')

unfoldable pub fetch : ℕ → ℕ → ℕ → ℕ → (Bool → Result (List ℕ)) → Inner → Result (List ℕ × Inner)
fetch budget block needed whole decode inner = do
  outcome ← enter block needed inner
  finish decode block whole budget outcome

-- `resident`: the block is touched, and its bytes are lent.
abbrev pub bytes_of : Option Entry → Option (List ℕ)
bytes_of none = none
bytes_of (some loading) = none
bytes_of (some (ready bytes)) = some bytes

unfoldable pub borrow_resident : ℕ → Inner → Option (List ℕ) × Inner
borrow_resident block inner = (bytes_of ((touch block inner).blocks block), touch block inner)
