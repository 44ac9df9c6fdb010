-- ===== src/Fpga/Peripherals/Options.antt =====
-- `configure_operators` against the words of the job.
use metal_fs.Base.{
  ℕ, zero, suc, ◌+◌, ◌-◌, ◌*◌, ◌/◌, ◌%◌, ◌^◌, ◌≤◌, ◌<◌, ◌≡◌, refl, ap, ◌∙◌, false, List, [], ◌∷◌,
  arith, ◌==◌, length, get_or,
}
use metal_fs.Fpga.Extmap.{drop}
use metal_fs.Fpga.Peripherals.{
  Writes, operator_base, operator_offset, get32be, get32le, configure_loop, configure_operators,
}

get_or-drop : (n i : ℕ) (xs : List ℕ) → get_or (drop n xs) i 0 ≡ get_or xs (n + i) 0
get_or-drop zero i xs = let sum : i ≡ 0 + i = omega arith in ap (λ k. get_or xs k 0) sum
get_or-drop (suc n) i [] = refl
get_or-drop (suc n) i (x ∷ xs) =
    let sum : suc (n + i) ≡ suc n + i = omega arith in
    get_or-drop n i xs ∙ ap (λ k. get_or (x ∷ xs) k 0) sum

get32le-drop : (n : ℕ) (xs : List ℕ) → get32le 0 (drop n xs) ≡ get32le n xs
unfolding get32le
get32le-drop n xs =
    omega (arith, get_or-drop n 0 xs, get_or-drop n 1 xs, get_or-drop n 2 xs, get_or-drop n 3 xs)

drop-none : (m : ℕ) → drop m [] ≡ []
drop-none zero = refl
drop-none (suc m) = refl

drop-drop : (m n : ℕ) (xs : List ℕ) → drop m (drop n xs) ≡ drop (n + m) xs
drop-drop m zero xs = let sum : m ≡ 0 + m = omega arith in ap (λ k. drop k xs) sum
drop-drop m (suc n) [] =
    let sum : suc (n + m) ≡ suc n + m = omega arith in drop-none m ∙ ap (λ k. drop k []) sum
drop-drop m (suc n) (x ∷ xs) =
    let sum : suc (n + m) ≡ suc n + m = omega arith in
    drop-drop m n xs ∙ ap (λ k. drop k (x ∷ xs)) sum

-- The words of the job's first line behind its header, written to a register each, from the word
-- `i` on; behind the end of the line they are 0.
unfoldable pub line_writes : (line : List ℕ) (register offset rest i : ℕ) → Writes → Writes
line_writes line register offset zero i ws = ws
line_writes line register offset (suc rest) i ws =
    line_writes line register offset rest (i + 1)
      ((register + (offset + i), get32le (16 + 4 * i) line) ∷ ws)

configure_loop-line_writes :
    (memory : ℕ → List ℕ) (first_line register offset : ℕ) (line : List ℕ) (rest i : ℕ)
    (ws : Writes)
    → i + rest ≤ 15
    → offset + 15 < 2 ^ 32
    → configure_loop memory first_line register rest
        (offset + i)
        (4 + 4 * i)
        (drop (16 + 4 * i) line)
        ws
      ≡ line_writes line register offset rest i ws
unfolding configure_loop line_writes
configure_loop-line_writes memory first_line register offset line zero i ws few small = refl
configure_loop-line_writes memory first_line register offset line (suc rest) i ws few small =
    let no_fetch : ((4 + 4 * i) % 64) == 0 ≡ false = ground arith in
    let next_offset : (offset + i + 1) % 2 ^ 32 ≡ offset + (i + 1) = omega arith in
    let next_line : (4 + 4 * i + 4) % 2 ^ 8 ≡ 4 + 4 * (i + 1) = omega arith in
    let further : 16 + 4 * i + 4 ≡ 16 + 4 * (i + 1) = omega arith in
    rw no_fetch (
      rw (next_offset, next_line, drop-drop 4 (16 + 4 * i) line, get32le-drop (16 + 4 * i) line)
        (rw further (
          configure_loop-line_writes memory first_line register offset line rest (i + 1) _
            (omega arith) small)))

get_or-beyond : (xs : List ℕ) (i : ℕ) → length xs ≤ i → get_or xs i 0 ≡ 0
get_or-beyond [] i h = refl
get_or-beyond (x ∷ xs) zero h = absurd (omega arith)
get_or-beyond (x ∷ xs) (suc i) h = get_or-beyond xs i (omega arith)

get32le-beyond : (line : List ℕ) (i : ℕ) → length line ≤ i → get32le i line ≡ 0
unfolding get32le
get32le-beyond line i h = omega (
  arith,
  get_or-beyond line (i + 0) (omega arith),
  get_or-beyond line (i + 1) (omega arith),
  get_or-beyond line (i + 2) (omega arith),
  get_or-beyond line (i + 3) (omega arith),
)

-- Where the registers of a stream's operator start; streams of operators start at 1.
abbrev pub registers_of : ℕ → ℕ
registers_of stream = operator_base + (stream - 1) * operator_offset

-- For at most 15 words, in registers that do not wrap, `configure_operators` writes the words that
-- stand behind the header in the job's first line, one register after the other, and the register
-- for preparation last. A line holds 12 such words: for a line of 64 bytes it writes 0 for the
-- words 12 to 14, whatever the memory behind the line holds.
pub configure_operators-line_writes :
    (memory : ℕ → List ℕ) (address : ℕ) (line : List ℕ) (ws : Writes)
    → memory (address / 64) ≡ line
    → length line ≡ 64
    → get32be 4 line ≤ 15
    → get32be 0 line + 15 < 2 ^ 32
    → (1 ≤ get32be 8 line) × (get32be 8 line < 2 ^ 32)
    → (configure_operators memory address ws
        ≡ (registers_of (get32be 8 line) + 4, get32be 12 line)
          ∷ line_writes line (registers_of (get32be 8 line)) (get32be 0 line) (get32be 4 line) 0 ws)
      × ((i : ℕ) → 12 ≤ i → get32le (16 + 4 * i) line ≡ 0)
unfolding configure_operators
configure_operators-line_writes memory address line ws m whole few room (pos, small) =
    let stream = get32be 8 line in
    let op : (stream + 2 ^ 32 - 1) % 2 ^ 32 ≡ stream - 1 = omega (arith, pos, small) in
    let start : get32be 0 line ≡ get32be 0 line + 0 = omega arith in
    let from = λ (k : ℕ).
      configure_loop memory (address / 64) (registers_of stream) (get32be 4 line) k 4 (drop 16 line)
        ws in
    let loop =
      configure_loop-line_writes memory (address / 64) (registers_of stream) (get32be 0 line) line
        (get32be 4 line) 0 ws (omega (arith, few)) room in
    (
      rw m (
          rw op (
            ap (λ rest. (registers_of stream + 4, get32be 12 line) ∷ rest) (ap from start ∙ loop))),
      λ i h. get32le-beyond line (16 + 4 * i) (omega (arith, whole, h)),
    )
