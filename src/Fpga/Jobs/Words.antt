-- ===== src/Fpga/Jobs/Words.antt =====
-- The words of a job's extents, as `mtl_extmap_load` reads them from memory lines.
use metal_fs.Base.{
  ℕ, zero, suc, ◌+◌, ◌*◌, ◌/◌, ◌%◌, ◌^◌, ◌<◌, ◌≡◌, refl, sym, ap, ◌∙◌, true, false, List, [], ◌∷◌,
  ◌++◌, arith, ◌==◌, length,
}
use metal_fs.Fpga.Extmap.{Slot, get64be, drop, load_slots}
use metal_fs.Pipeline.MapJob.{be64, extent_words, line_at}
use metal_fs.Fs.Types.{add64, FileExtent}

pub get64be-be64 : (w : ℕ) (rest : List ℕ) → w < 2 ^ 64 → get64be (be64 w ++ rest) ≡ w
unfolding get64be be64
get64be-be64 w rest h = omega arith

second-be64 :
    (v w : ℕ) (rest : List ℕ) → w < 2 ^ 64 → get64be (drop 8 (be64 v ++ (be64 w ++ rest))) ≡ w
unfolding get64be be64
second-be64 v w rest h = omega arith

drop-be64 : (v w : ℕ) (rest : List ℕ) → drop 16 (be64 v ++ (be64 w ++ rest)) ≡ rest
unfolding be64
drop-be64 v w rest = refl

-- Both words of an extent fit into 64 bits.
abbrev pub IsWord : FileExtent → Type 0
IsWord x = (x.offset < 2 ^ 64) × (x.length < 2 ^ 64)

unfoldable pub AreWords : List FileExtent → Type 0
AreWords [] = Unit {0}
AreWords (x ∷ xs) = IsWord x × AreWords xs

-- The slot of an extent behind `last` blocks.
abbrev pub slot_after : ℕ → FileExtent → Slot
slot_after last x = record { begin = x.offset; count = x.length; next_lblock = add64 last x.length }

unfoldable pub slots_of : ℕ → List FileExtent → List Slot
slots_of last [] = []
slots_of last (x ∷ xs) = slot_after last x ∷ slots_of (add64 last x.length) xs

module _ (memory : ℕ → List ℕ) (rest i a last : ℕ) (x : FileExtent) (bytes : List ℕ)
    (word : IsWord x) where
  load_later :
      ((i % 4) == 0) ≡ false
      → load_slots memory (suc rest) i a (be64 x.offset ++ (be64 x.length ++ bytes)) last
        ≡ slot_after last x ∷ load_slots memory rest (i + 1) a bytes (add64 last x.length)
  unfolding load_slots
  load_later e = rw e (
      rw (
        get64be-be64 x.offset (be64 x.length ++ bytes) word.0,
        second-be64 x.offset x.length bytes word.1,
        drop-be64 x.offset x.length bytes,
      ))

  load_first :
      (line : List ℕ)
      → ((i % 4) == 0) ≡ true
      → memory (a / 64) ≡ be64 x.offset ++ (be64 x.length ++ bytes)
      → load_slots memory (suc rest) i a line last
        ≡ slot_after last x
          ∷ load_slots memory rest (i + 1) (add64 a 64) bytes (add64 last x.length)
  unfolding load_slots
  load_first line e m =
      rw (e, m)
        (rw (
          get64be-be64 x.offset (be64 x.length ++ bytes) word.0,
          second-be64 x.offset x.length bytes word.1,
          drop-be64 x.offset x.length bytes,
        ))

-- The words of extents, one after the other.
unfoldable pub flat : List FileExtent → List ℕ
flat [] = []
flat (x ∷ xs) = x.offset ∷ x.length ∷ flat xs

-- Four extents of a memory line.
load_line :
    (memory : ℕ → List ℕ) (rest i a last : ℕ) (line : List ℕ) (x y z w : FileExtent)
    → (i % 4 ≡ 0)
    → IsWord x × IsWord y × IsWord z × IsWord w
    → memory (a / 64) ≡ line_at 0 (flat (x ∷ y ∷ z ∷ w ∷ []))
    → load_slots memory (suc (suc (suc (suc rest)))) i a line last
      ≡ slot_after last x
        ∷ slot_after (add64 last x.length) y
        ∷ slot_after (add64 (add64 last x.length) y.length) z
        ∷ slot_after (add64 (add64 (add64 last x.length) y.length) z.length) w
        ∷ load_slots memory rest
            (i + 1 + 1 + 1 + 1)
            (add64 a 64)
            []
            (add64 (add64 (add64 (add64 last x.length) y.length) z.length) w.length)
unfolding line_at flat be64
load_line memory rest i a last line x y z w at (hx, hy, hz, hw) m =
    let b2 = add64 last x.length in
    let b3 = add64 b2 y.length in
    let b4 = add64 b3 z.length in
    let tail3 = be64 w.offset ++ (be64 w.length ++ []) in
    let tail2 = be64 z.offset ++ (be64 z.length ++ tail3) in
    let tail1 = be64 y.offset ++ (be64 y.length ++ tail2) in
    load_first memory (suc (suc (suc rest))) i a last x tail1 hx line (ground arith) m
    ∙ ap (◌∷◌ (slot_after last x)) (
        load_later memory (suc (suc rest)) (i + 1) (add64 a 64) b2 y tail2 hy (ground arith)
        ∙ ap (◌∷◌ (slot_after b2 y)) (
            load_later memory (suc rest) (i + 1 + 1) (add64 a 64) b3 z tail3 hz (ground arith)
            ∙ ap (◌∷◌ (slot_after b3 z))
                (load_later memory rest (i + 1 + 1 + 1) (add64 a 64) b4 w [] hw (ground arith))))

-- The extents as the array of `MaxExtentsPerFile` that the job holds.
unfoldable pub padded : ℕ → List FileExtent → List FileExtent
padded zero xs = []
padded (suc n) [] = record { offset = 0; length = 0 } ∷ padded n []
padded (suc n) (x ∷ xs) = x ∷ padded n xs

pub extent_words-flat : (n : ℕ) (xs : List FileExtent) → extent_words n xs ≡ flat (padded n xs)
unfolding extent_words flat padded
extent_words-flat zero xs = refl
extent_words-flat (suc n) [] = rw (extent_words-flat n [])
extent_words-flat (suc n) (x ∷ xs) = rw (extent_words-flat n xs)

pub padded-AreWords : (n : ℕ) (xs : List FileExtent) → AreWords xs → AreWords (padded n xs)
unfolding padded AreWords
padded-AreWords zero xs h = tt
padded-AreWords (suc n) [] h = ((omega arith, omega arith), padded-AreWords n [] tt)
padded-AreWords (suc n) (x ∷ xs) h = (h.0, padded-AreWords n xs h.1)

pub length-padded : (n : ℕ) (xs : List FileExtent) → length (padded n xs) ≡ n
unfolding padded
length-padded zero xs = refl
length-padded (suc n) [] = omega (arith, length-padded n [])
length-padded (suc n) (x ∷ xs) = omega (arith, length-padded n xs)

pub load_slots-slots_of :
    (memory : ℕ → List ℕ) (n i a last : ℕ) (line : List ℕ) (xs : List FileExtent)
    → length xs ≡ 4 * n
    → i % 4 ≡ 0
    → a % 64 ≡ 0
    → a + 64 * n < 2 ^ 64
    → AreWords xs
    → ((k : ℕ) → k < n → memory (a / 64 + k) ≡ line_at k (flat xs))
    → load_slots memory (length xs) i a line last ≡ slots_of last xs
unfolding load_slots slots_of AreWords line_at flat
load_slots-slots_of memory n i a last line [] len at aligned room words m = refl
load_slots-slots_of memory n i a last line (x ∷ []) len at aligned room words m =
    absurd (omega (arith, len))
load_slots-slots_of memory n i a last line (x ∷ y ∷ []) len at aligned room words m =
    absurd (omega (arith, len))
load_slots-slots_of memory n i a last line (x ∷ y ∷ z ∷ []) len at aligned room words m =
    absurd (omega (arith, len))
load_slots-slots_of memory zero i a last line (x ∷ y ∷ z ∷ w ∷ xs) len at aligned room words m =
    absurd (omega (arith, len))
load_slots-slots_of memory (suc n) i a last line (x ∷ y ∷ z ∷ w ∷ xs) len at aligned room words m =
    let low : a / 64 + 0 ≡ a / 64 = omega arith in
    let first : memory (a / 64) ≡ line_at 0 (flat (x ∷ y ∷ z ∷ w ∷ [])) =
      ap memory (sym low) ∙ m 0 (omega arith) in
    let (hx, hyzw) = words in
    let (hy, hzw) = hyzw in
    let (hz, hws) = hzw in
    let (hw, more) = hws in
    let sum : add64 a 64 ≡ a + 64 = omega (arith, room) in
    rw (load_line memory (length xs) i a last line x y z w at (hx, hy, hz, hw) first) (
      rw (
        load_slots-slots_of memory n (i + 1 + 1 + 1 + 1) (add64 a 64) _ [] xs (omega (arith, len))
          (omega (arith, at)) (omega (arith, aligned, room)) (omega (arith, room)) more
          (λ k lt.
            let up : add64 a 64 / 64 + k ≡ a / 64 + suc k = omega (arith, room) in
            ap memory up ∙ m (suc k) (omega (arith, lt)))))
