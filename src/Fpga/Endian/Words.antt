-- ===== src/Fpga/Endian/Words.antt =====
-- What is written into a memory line is read back.
use metal_fs.Base.{
  ℕ, zero, suc, ◌+◌, ◌-◌, ◌^◌, ◌≤◌, ◌<◌, ◌≡◌, refl, ap, ◌∙◌, subst, ◌⊎◌, inl, inr, List, [], ◌∷◌,
  arith, length,
}
use metal_fs.Fpga.Endian.{
  Line, offset_of, get_bits, set_bits, pattern64le, pattern64be, pattern32le, pattern32be,
  pattern16le, pattern16be, sum_shifted, shifts64le, shifts64be, shifts32le, shifts32be, shifts16le,
  shifts16be, set64le, set64be, set32le, set32be, set16le, set16be, read64le, read64be, read32le,
  read32be, read16le, read16be, swap_membus_endianness,
}

set_bits_same :
    (o : ℕ) (bs : List ℕ) (line : Line) (i : ℕ)
    → (i < o) ⊎ (o + length bs ≤ i)
    → set_bits o bs line i ≡ line i
unfolding set_bits
set_bits_same o [] line i h = refl
set_bits_same o (b ∷ bs) line i (inl h) =
    ground (arith, set_bits_same (o + 1) bs line i (inl (omega arith)))
set_bits_same o (b ∷ bs) line i (inr h) =
    ground (arith, set_bits_same (o + 1) bs line i (inr (omega arith)))

get_bits_same :
    (n o : ℕ) (line line' : Line)
    → ((i : ℕ) → o ≤ i → line i ≡ line' i)
    → get_bits o n line ≡ get_bits o n line'
unfolding get_bits
get_bits_same zero o line line' h = refl
get_bits_same (suc n) o line line' h =
    ap (λ b. b ∷ get_bits (o + 1) n line) (h o (omega arith))
    ∙ ap (λ bs. line' o ∷ bs) (get_bits_same n (o + 1) line line' (λ i g. h i (omega arith)))

set_bits_head : (o b : ℕ) (bs : List ℕ) (line : Line) → set_bits o (b ∷ bs) line o ≡ b
unfolding set_bits
set_bits_head o b bs line = ground arith

set_bits_tail :
    (o b : ℕ) (bs : List ℕ) (line : Line) (i : ℕ)
    → o + 1 ≤ i
    → set_bits o (b ∷ bs) line i ≡ set_bits (o + 1) bs line i
unfolding set_bits
set_bits_tail o b bs line i h = ground arith

get_bits-set_bits :
    (o : ℕ) (bs : List ℕ) (line : Line) → get_bits o (length bs) (set_bits o bs line) ≡ bs
unfolding get_bits
get_bits-set_bits o [] line = refl
get_bits-set_bits o (b ∷ bs) line =
    ap (λ x. x ∷ get_bits (o + 1) (length bs) (set_bits o (b ∷ bs) line))
      (set_bits_head o b bs line)
    ∙ ap (λ xs. b ∷ xs)
        (get_bits_same (length bs) (o + 1) (set_bits o (b ∷ bs) line) (set_bits (o + 1) bs line)
            (set_bits_tail o b bs line)
          ∙ get_bits-set_bits (o + 1) bs line)

sum_64 :
    (v : ℕ)
    → v < 2 ^ 64
    → (sum_shifted shifts64le (pattern64le v) ≡ v) × (sum_shifted shifts64be (pattern64be v) ≡ v)
unfolding sum_shifted pattern64le pattern64be
sum_64 v h = omega arith

sum_32 :
    (v : ℕ)
    → v < 2 ^ 32
    → (sum_shifted shifts32le (pattern32le v) ≡ v) × (sum_shifted shifts32be (pattern32be v) ≡ v)
unfolding sum_shifted pattern32le pattern32be
sum_32 v h = omega arith

sum_16 :
    (v : ℕ)
    → v < 2 ^ 16
    → (sum_shifted shifts16le (pattern16le v) ≡ v) × (sum_shifted shifts16be (pattern16be v) ≡ v)
unfolding sum_shifted pattern16le pattern16be
sum_16 v h = omega arith

-- A pattern of the right length is read back as the number that it is the pattern of.
read_back :
    (o n : ℕ) (shifts bs : List ℕ) (line : Line) (v : ℕ)
    → length bs ≡ n
    → sum_shifted shifts bs ≡ v
    → sum_shifted shifts (get_bits (offset_of o) n (set_bits (offset_of o) bs line)) ≡ v
read_back o n shifts bs line v len e = rw (← len) (rw (get_bits-set_bits (offset_of o) bs line) e)

set_bits_within :
    (o : ℕ) (bs : List ℕ) (line : Line) (i : ℕ)
    → o < 64
    → (i < o) ⊎ (o + length bs ≤ i)
    → set_bits (offset_of o) bs line i ≡ line i
set_bits_within o bs line i small apart =
    let same : o ≡ offset_of o = omega arith in
    subst (λ k. set_bits k bs line i ≡ line i) same (set_bits_same o bs line i apart)

-- The line `line'` holds a number of `n` bytes at `o`, which reading gives, and is otherwise `line`.
abbrev pub HoldsWord : (n o : ℕ) → (line line' : Line) → (read : Line → ℕ → ℕ) → ℕ → Type 0
HoldsWord n o line line' read v =
    (read line' o ≡ v) × ((i : ℕ) → (i < o) ⊎ (o + n ≤ i) → line' i ≡ line i)

-- A number of 64, 32 or 16 bits that is written into a line at a byte from 0 to 56, in either order
-- of its bytes, is what is read there, and the other bytes of the line stay.
pub read-set :
    (line : Line) (o v w x : ℕ)
    → o ≤ 56
    → v < 2 ^ 64
    → w < 2 ^ 32
    → x < 2 ^ 16
    → HoldsWord 8 o line (set64le line o v) read64le v
      × HoldsWord 8 o line (set64be line o v) read64be v
      × HoldsWord 4 o line (set32le line o w) read32le w
      × HoldsWord 4 o line (set32be line o w) read32be w
      × HoldsWord 2 o line (set16le line o x) read16le x
      × HoldsWord 2 o line (set16be line o x) read16be x
unfolding pattern64le pattern64be pattern32le pattern32be pattern16le pattern16be
read-set line o v w x small hv hw hx = (
  (
    read_back o 8 shifts64le (pattern64le v) line v refl (sum_64 v hv).0,
    (λ i apart. set_bits_within o (pattern64le v) line i (omega arith) apart),
  ),
  (
    read_back o 8 shifts64be (pattern64be v) line v refl (sum_64 v hv).1,
    (λ i apart. set_bits_within o (pattern64be v) line i (omega arith) apart),
  ),
  (
    read_back o 4 shifts32le (pattern32le w) line w refl (sum_32 w hw).0,
    (λ i apart. set_bits_within o (pattern32le w) line i (omega arith) apart),
  ),
  (
    read_back o 4 shifts32be (pattern32be w) line w refl (sum_32 w hw).1,
    (λ i apart. set_bits_within o (pattern32be w) line i (omega arith) apart),
  ),
  (
    read_back o 2 shifts16le (pattern16le x) line x refl (sum_16 x hx).0,
    (λ i apart. set_bits_within o (pattern16le x) line i (omega arith) apart),
  ),
  (
    read_back o 2 shifts16be (pattern16be x) line x refl (sum_16 x hx).1,
    (λ i apart. set_bits_within o (pattern16be x) line i (omega arith) apart),
  ),
)

-- The line with its bytes in the other order, read big-endian, is the line read little-endian from
-- the other end.
pub read-swap :
    (line : Line) (o : ℕ)
    → o ≤ 56
    → read64be (swap_membus_endianness line) o ≡ read64le line (56 - o)
unfolding get_bits sum_shifted
read-swap line o h =
    let here : offset_of o ≡ o = omega arith in
    let there : offset_of (56 - o) ≡ 56 - o = omega arith in
    let mirrored : (i j : ℕ) → offset_of (63 - i) ≡ j → line (offset_of (63 - i)) ≡ line j =
      λ i j e. ap line e in
    rw (here, there)
      (omega (
        arith,
        mirrored (o) (56 - o + 1 + 1 + 1 + 1 + 1 + 1 + 1) (omega arith),
        mirrored (o + 1) (56 - o + 1 + 1 + 1 + 1 + 1 + 1) (omega arith),
        mirrored (o + 1 + 1) (56 - o + 1 + 1 + 1 + 1 + 1) (omega arith),
        mirrored (o + 1 + 1 + 1) (56 - o + 1 + 1 + 1 + 1) (omega arith),
        mirrored (o + 1 + 1 + 1 + 1) (56 - o + 1 + 1 + 1) (omega arith),
        mirrored (o + 1 + 1 + 1 + 1 + 1) (56 - o + 1 + 1) (omega arith),
        mirrored (o + 1 + 1 + 1 + 1 + 1 + 1) (56 - o + 1) (omega arith),
        mirrored (o + 1 + 1 + 1 + 1 + 1 + 1 + 1) (56 - o) (omega arith),
      ))
