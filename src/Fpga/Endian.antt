-- ===== src/Fpga/Endian.antt =====
-- mtl_endian.h: numbers in a memory line of the FPGA, `snap_membus_t`. A line is its bytes: byte `i`
-- is the bits `8 * i + 7` to `8 * i`, for the bytes 0 to 63; a range of bits that does not end in
-- the line has no meaning in the source. The jobs that read a line from its start use `get64be` and
-- `get32be` on a list of bytes (Fpga/Extmap and Fpga/Peripherals).
pub mod Words
use metal_fs.Base.{ℕ, zero, suc, ◌+◌, ◌-◌, ◌*◌, ◌/◌, ◌%◌, ◌^◌, List, [], ◌∷◌, ◌==◌, if◌then◌else◌}

abbrev pub Line : Type 0
Line = ℕ → ℕ

-- `busline(o_bit + 8 * n - 1, o_bit)`, lowest byte first.
unfoldable pub get_bits : (lowest_byte n : ℕ) → Line → List ℕ
get_bits o zero line = []
get_bits o (suc n) line = line o ∷ get_bits (o + 1) n line

-- `busline(o_bit + 8 * n - 1, o_bit) = pattern`, lowest byte first.
unfoldable pub set_bits : (lowest_byte : ℕ) → List ℕ → Line → Line
set_bits o [] line i = line i
set_bits o (b ∷ bs) line i = if i == o then b else set_bits (o + 1) bs line i

-- A byte offset, `mfb_byteoffset_t`, has 6 bits.
abbrev pub offset_of : ℕ → ℕ
offset_of o = o % 64

-- `(snapu8_t)(value >> k)`
abbrev pub byte : ℕ → ℕ → ℕ
byte k value = value / 2 ^ k % 256

-- The patterns that the functions put together, lowest byte first.
unfoldable pub pattern64le : ℕ → List ℕ
pattern64le v =
    byte 0 v ∷ byte 8 v ∷ byte 16 v ∷ byte 24 v ∷ byte 32 v ∷ byte 40 v ∷ byte 48 v ∷ byte 56 v ∷ []

unfoldable pub pattern64be : ℕ → List ℕ
pattern64be v =
    byte 56 v ∷ byte 48 v ∷ byte 40 v ∷ byte 32 v ∷ byte 24 v ∷ byte 16 v ∷ byte 8 v ∷ byte 0 v ∷ []

unfoldable pub pattern32le : ℕ → List ℕ
pattern32le v = byte 0 v ∷ byte 8 v ∷ byte 16 v ∷ byte 24 v ∷ []

unfoldable pub pattern32be : ℕ → List ℕ
pattern32be v = byte 24 v ∷ byte 16 v ∷ byte 8 v ∷ byte 0 v ∷ []

unfoldable pub pattern16le : ℕ → List ℕ
pattern16le v = byte 0 v ∷ byte 8 v ∷ []

unfoldable pub pattern16be : ℕ → List ℕ
pattern16be v = byte 8 v ∷ byte 0 v ∷ []

-- `(pattern(7, 0) << k) + …`, with the shifts in order.
unfoldable pub sum_shifted : (shifts bytes : List ℕ) → ℕ
sum_shifted [] bytes = 0
sum_shifted (k ∷ ks) [] = 0
sum_shifted (k ∷ ks) (b ∷ bs) = b * 2 ^ k + sum_shifted ks bs

abbrev pub shifts64le : List ℕ
shifts64le = 0 ∷ 8 ∷ 16 ∷ 24 ∷ 32 ∷ 40 ∷ 48 ∷ 56 ∷ []

abbrev pub shifts64be : List ℕ
shifts64be = 56 ∷ 48 ∷ 40 ∷ 32 ∷ 24 ∷ 16 ∷ 8 ∷ 0 ∷ []

abbrev pub shifts32le : List ℕ
shifts32le = 0 ∷ 8 ∷ 16 ∷ 24 ∷ []

abbrev pub shifts32be : List ℕ
shifts32be = 24 ∷ 16 ∷ 8 ∷ 0 ∷ []

abbrev pub shifts16le : List ℕ
shifts16le = 0 ∷ 8 ∷ []

abbrev pub shifts16be : List ℕ
shifts16be = 8 ∷ 0 ∷ []

abbrev pub set64le : Line → (lowest_byte value : ℕ) → Line
set64le line o value = set_bits (offset_of o) (pattern64le value) line

abbrev pub set64be : Line → (lowest_byte value : ℕ) → Line
set64be line o value = set_bits (offset_of o) (pattern64be value) line

abbrev pub set32le : Line → (lowest_byte value : ℕ) → Line
set32le line o value = set_bits (offset_of o) (pattern32le value) line

abbrev pub set32be : Line → (lowest_byte value : ℕ) → Line
set32be line o value = set_bits (offset_of o) (pattern32be value) line

abbrev pub set16le : Line → (lowest_byte value : ℕ) → Line
set16le line o value = set_bits (offset_of o) (pattern16le value) line

abbrev pub set16be : Line → (lowest_byte value : ℕ) → Line
set16be line o value = set_bits (offset_of o) (pattern16be value) line

abbrev pub set8 : Line → (lowest_byte value : ℕ) → Line
set8 line o value = set_bits (offset_of o) (value ∷ []) line

abbrev pub read64le : Line → (lowest_byte : ℕ) → ℕ
read64le line o = sum_shifted shifts64le (get_bits (offset_of o) 8 line)

abbrev pub read64be : Line → (lowest_byte : ℕ) → ℕ
read64be line o = sum_shifted shifts64be (get_bits (offset_of o) 8 line)

abbrev pub read32le : Line → (lowest_byte : ℕ) → ℕ
read32le line o = sum_shifted shifts32le (get_bits (offset_of o) 4 line)

abbrev pub read32be : Line → (lowest_byte : ℕ) → ℕ
read32be line o = sum_shifted shifts32be (get_bits (offset_of o) 4 line)

abbrev pub read16le : Line → (lowest_byte : ℕ) → ℕ
read16le line o = sum_shifted shifts16le (get_bits (offset_of o) 2 line)

abbrev pub read16be : Line → (lowest_byte : ℕ) → ℕ
read16be line o = sum_shifted shifts16be (get_bits (offset_of o) 2 line)

abbrev pub get8 : Line → (lowest_byte : ℕ) → ℕ
get8 line o = line (offset_of o)

-- The concatenation starts with the highest byte of the result, which is byte 0 of the line.
abbrev pub swap_membus_endianness : Line → Line
swap_membus_endianness line i = get8 line (63 - i)
