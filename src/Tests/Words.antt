-- ===== src/Tests/Words.antt =====
-- Words in a memory line at concrete inputs.
use metal_fs.Base.{◌+◌, ◌^◌, arith}
use metal_fs.Fpga.Endian.{
  Line, set64le, set64be, set32le, set32be, set16le, set16be, read64le, read64be, read32le,
  read32be, read16le, read16be,
}
use metal_fs.Fpga.Endian.Words.{HoldsWord, read-set}

abbrev blank : Line
blank = λ i. 255

read-set_example :
    HoldsWord 8 16 blank (set64le blank 16 (2 ^ 63 + 3)) read64le (2 ^ 63 + 3)
    × HoldsWord 8 16 blank (set64be blank 16 (2 ^ 63 + 3)) read64be (2 ^ 63 + 3)
    × HoldsWord 4 16 blank (set32le blank 16 258) read32le 258
    × HoldsWord 4 16 blank (set32be blank 16 258) read32be 258
    × HoldsWord 2 16 blank (set16le blank 16 513) read16le 513
    × HoldsWord 2 16 blank (set16be blank 16 513) read16be 513
read-set_example =
    read-set blank 16 (2 ^ 63 + 3) 258 513 (omega arith) (omega arith) (omega arith) (omega arith)
