-- ===== src/Fpga/Extmap.antt =====
-- mtl_extmap.cpp: the extent list of a file on the FPGA, and its translation of logical blocks.
pub mod Seek
use metal_fs.Base.{
  ℕ, zero, suc, ◌+◌, ◌*◌, ◌/◌, ◌%◌, ◌^◌, Bool, true, false, ◌&&◌, Option, none, some, List, [], ◌∷◌,
  ltb, leb, ◌==◌, if◌then◌else◌, get_or,
}
use metal_fs.Fs.Types.{add64, sub64}

-- One index of the arrays `extents_begin`, `extents_count` and `extents_nextlblock`.
pub record Slot : Type 0 where
  pub begin : ℕ
  pub count : ℕ
  pub next_lblock : ℕ

pub record Extmap : Type 0 where
  pub current_extent : ℕ
  pub current_pblock : ℕ
  pub slots : List Slot

abbrev pub no_slot : Slot
no_slot = record { begin = 0; count = 0; next_lblock = 0 }

-- The loop of `mtl_extmap_seek` from slot `i` on; `first` is `mtl_extmap_firstlblock` of it.
unfoldable pub seek_slots : List Slot → (i first lblock : ℕ) → Option (ℕ × ℕ)
seek_slots [] i first lblock = none
seek_slots (s ∷ ss) i first lblock =
    if leb first lblock && ltb lblock s.next_lblock
    then some (i, add64 s.begin (sub64 lblock first))
    else seek_slots ss (i + 1) s.next_lblock lblock

unfoldable pub extmap_seek : Extmap → ℕ → Extmap × Bool
unfolding seek_slots
extmap_seek m lblock = elim (seek_slots m.slots 0 0 lblock) [
  | none ↦ (m, false)
  | some (i, p) ↦ (record m { current_extent = i; current_pblock = p }, true)
]

-- "No bounds checking performed"; the number of an extent has 9 bits.
unfoldable pub extmap_next : Extmap → Extmap
extmap_next m =
    let current = get_or m.slots m.current_extent no_slot in
    let following = (m.current_extent + 1) % 512 in
    if ltb (sub64 m.current_pblock current.begin) current.count
    then record m { current_pblock = add64 m.current_pblock 1 }
    else record m {
      current_extent = following;
      current_pblock = (get_or m.slots following no_slot).begin;
    }

-- A big-endian 64-bit word in a memory line of bytes.
unfoldable pub get64be : List ℕ → ℕ
get64be line =
    let b = λ (i : ℕ). get_or line i 0 in
    b 0 * 2 ^ 56
    + b 1 * 2 ^ 48
    + b 2 * 2 ^ 40
    + b 3 * 2 ^ 32
    + b 4 * 2 ^ 24
    + b 5 * 2 ^ 16
    + b 6 * 2 ^ 8
    + b 7

abbrev pub drop : ℕ → List ℕ → List ℕ
drop zero xs = xs
drop (suc n) [] = []
drop (suc n) (x ∷ xs) = drop n xs

-- The loop of `mtl_extmap_load`: four extents to a line of 64 bytes, shifted down by 16 each.
unfoldable pub load_slots :
    (memory : ℕ → List ℕ) (rest i line_address : ℕ) → List ℕ → (last_block : ℕ) → List Slot
unfolding get64be
load_slots memory zero i line_address line last_block = []
load_slots memory (suc rest) i line_address line last_block =
    let fetch = (i % 4) == 0 in
    let here = if fetch then memory (line_address / 64) else line in
    let address = if fetch then add64 line_address 64 else line_address in
    let begin = get64be here in
    let count = get64be (drop 8 here) in
    let total = add64 last_block count in
    record { begin = begin; count = count; next_lblock = total }
    ∷ load_slots memory rest (i + 1) address (drop 16 here) total

unfoldable pub extmap_load : (memory : ℕ → List ℕ) → ℕ → Extmap
unfolding load_slots
extmap_load memory extent_address =
    let slots = load_slots memory 512 0 extent_address [] 0 in
    record { current_extent = 0; current_pblock = (get_or slots 0 no_slot).begin; slots = slots }
