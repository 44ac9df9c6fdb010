-- ===== src/Fpga/Process/Enabled.antt =====
-- The operators that a run of a pipeline enables.
use metal_fs.Base.{
  ℕ, zero, suc, ◌+◌, ◌-◌, ◌^◌, ◌≤◌, ◌<◌, ◌≡◌, refl, sym, ap, ◌∙◌, inl, inr, Bool, true, false, not,
  ◌&&◌, ◌||◌, subst, Option, none, some, Option-cases, List, [], ◌∷◌, arith, ltb, leb, ◌==◌,
  if◌then◌else◌, Bool-cases,
}
use metal_fs.Fpga.Types.{Address}
use metal_fs.Fpga.Transfer.{Maps}
use metal_fs.Fpga.Streams.{Status, Stored, ReadRun, op_mem_read, op_mem_write}
use metal_fs.Fpga.Action.{bit, register_of, start_operators, Mover, run_mover}
use metal_fs.Fpga.Peripherals.{Writes, last_written}
use metal_fs.Fpga.Peripherals.Switch.{AreStreams}
use metal_fs.Pipeline.Run.{enable_streams}
use Prim.Native.Nat.{bit_or}

both : (a b : Bool) → (a && b) ≡ true → (a ≡ true) × (b ≡ true)
both true b h = (refl, h)
both false b h = cc

-- Whether a test of masks, operators or streams succeeds for each number under a bound.
tested : (ℕ → Bool) → ℕ → Bool
tested p zero = true
tested p (suc k) = tested p k && p k

tested_at : (p : ℕ → Bool) (k x : ℕ) → x < k → tested p k ≡ true → p x ≡ true
unfolding tested
tested_at p zero x lt h = absurd (omega arith)
tested_at p (suc k) x lt h =
    let (earlier, here) = both (tested p k) (p k) h in
    elim (Bool-cases (ltb x k)) [
      | inl b ↦ tested_at p k x (ground arith) earlier
      | inr b ↦ let same : k ≡ x = ground arith in ap p (sym same) ∙ here
    ]

abbrev same_bit : Bool → Bool → Bool
same_bit true b = b
same_bit false b = not b

abbrev right_bit : (s i m : ℕ) → Bool
right_bit s i m =
    same_bit (bit (bit_or m (2 ^ s)) i) ((i == s) || bit m i) && ltb (bit_or m (2 ^ s)) 256

table : tested (λ s. tested (λ i. tested (right_bit s i) 256) 8) 8 ≡ true
unfolding tested
table = refl

right_bits : (s i m : ℕ) → s < 8 → i < 8 → m < 256 → right_bit s i m ≡ true
right_bits s i m hs hi hm = tested_at (right_bit s i) 256 m hm (
    tested_at (λ i. tested (right_bit s i) 256) 8 i hi
      (tested_at (λ s. tested (λ i. tested (right_bit s i) 256) 8) 8 s hs table))

same_bit_equal : (a b : Bool) → same_bit a b ≡ true → a ≡ b
same_bit_equal true b h = sym h
same_bit_equal false true h = cc
same_bit_equal false false h = refl

-- Whether a stream is among others.
pub is_among : ℕ → List ℕ → Bool
is_among i [] = false
is_among i (s ∷ ss) = (i == s) || is_among i ss

or_swap : (a b c : Bool) → (a || (b || c)) ≡ (b || (a || c))
or_swap true true c = refl
or_swap true false c = refl
or_swap false b c = refl

or_assoc : (a b c : Bool) → (a || (b || c)) ≡ ((a || b) || c)
or_assoc true b c = refl
or_assoc false b c = refl

ltb_lt : (a b : ℕ) → ltb a b ≡ true → a < b
ltb_lt a b h = ground arith

enable_streams-bit :
    (mask : ℕ) (streams : List ℕ) (i : ℕ)
    → mask < 256
    → AreStreams streams
    → i < 8
    → bit (enable_streams mask streams) i ≡ (is_among i streams || bit mask i)
unfolding enable_streams is_among AreStreams
enable_streams-bit mask [] i small ports h = refl
enable_streams-bit mask (s ∷ ss) i small (pos, port, fresh, ports) h =
    let (same, below) =
      both (same_bit (bit (bit_or mask (2 ^ s)) i) ((i == s) || bit mask i))
        (ltb (bit_or mask (2 ^ s)) 256) (right_bits s i mask port h small) in
    let next : bit_or mask (2 ^ s) < 256 = ltb_lt _ _ below in
    enable_streams-bit (bit_or mask (2 ^ s)) ss i next ports h
    ∙ ap (λ b. is_among i ss || b) (same_bit_equal _ _ same)
    ∙ or_swap (is_among i ss) (i == s) (bit mask i)
    ∙ or_assoc (i == s) (is_among i ss) (bit mask i)

-- A write to a register of an operator, seen from the same register of another.
pub one_operator :
    {A : Type 0} (earlier e now bits : Bool) (x y : A)
    → now ≡ (e || earlier)
    → (if earlier && bits then x else if e && bits then x else y) ≡ (if now && bits then x else y)
one_operator true true now true x y h = rw h refl
one_operator true true now false x y h = rw h refl
one_operator true false now true x y h = rw h refl
one_operator true false now false x y h = rw h refl
one_operator false true now true x y h = rw h refl
one_operator false true now false x y h = rw h refl
one_operator false false now true x y h = rw h refl
one_operator false false now false x y h = rw h refl

start_front :
    (mask j i : ℕ) (ws : Writes)
    → last_written
        (if bit mask (j + 1)
          then (register_of j 2, 1) ∷ (register_of j 1, 1) ∷ (register_of j 0, 1) ∷ ws
          else ws)
        (register_of i 0)
      ≡ (if (j == i) && bit mask (i + 1) then some 1 else last_written ws (register_of i 0))
unfolding last_written
start_front mask j i ws = elim (Bool-cases (j == i)) [
  | inl e ↦
      let same : j ≡ i = ground arith in
      rw same (elim (Bool-cases (bit mask (i + 1))) [
        | inl b ↦ rw b (ground arith)
        | inr b ↦ rw b (ground arith)
      ])
  | inr e ↦ elim (Bool-cases (bit mask (j + 1))) [
    | inl b ↦ rw b (ground (arith, e))
    | inr b ↦ rw b (ground (arith, e))
  ]
]

start_operators-started :
    (mask n i : ℕ) (ws : Writes)
    → n ≤ 8
    → i < 8
    → last_written (start_operators mask n ws) (register_of i 0)
      ≡ (if leb (8 - n) i && bit mask (i + 1) then some 1 else last_written ws (register_of i 0))
unfolding start_operators last_written
start_operators-started mask zero i ws le h =
    let out : leb (8 - 0) i ≡ false = ground arith in rw out refl
start_operators-started mask (suc n) i ws le h =
    let now : leb (8 - suc n) i ≡ (((7 - n) == i) || leb (8 - n) i) = ground arith in
    start_operators-started mask n i _ (omega arith) h
    ∙ rw (start_front mask (7 - n) i ws) (
        one_operator (leb (8 - n) i) ((7 - n) == i) (leb (8 - suc n) i) (bit mask (i + 1)) (some 1)
          (last_written ws (register_of i 0)) now)

io_bit : (i : ℕ) → i < 7 → not (bit 1 (i + 1)) ≡ true
unfolding tested
io_bit i h = tested_at (λ i. not (bit 1 (i + 1))) 7 i h refl

and_true : (i : ℕ) (b : Bool) → (leb 0 i && b) ≡ b
and_true i b = let all : leb 0 i ≡ true = ground arith in rw all refl

or_true : (a : Bool) → (a || true) ≡ true
or_true true = refl
or_true false = refl

or_false : (a b : Bool) → not b ≡ true → (a || b) ≡ a
or_false true b h = refl
or_false false true h = sym h
or_false false false h = refl

-- No mask of streams under 8 has a bit for the last operator.
enable_streams_small :
    (mask : ℕ) (streams : List ℕ)
    → mask < 256
    → AreStreams streams
    → enable_streams mask streams < 256
unfolding enable_streams AreStreams
enable_streams_small mask [] small ports = small
enable_streams_small mask (s ∷ ss) small (pos, port, fresh, ports) =
    let (same, below) =
      both (same_bit (bit (bit_or mask (2 ^ s)) 0) ((0 == s) || bit mask 0))
        (ltb (bit_or mask (2 ^ s)) 256) (right_bits s 0 mask port (omega arith) small) in
    enable_streams_small (bit_or mask (2 ^ s)) ss (ltb_lt _ _ below) ports

is_among_small : (streams : List ℕ) → AreStreams streams → is_among 8 streams ≡ false
unfolding is_among AreStreams
is_among_small [] ports = refl
is_among_small (s ∷ ss) (pos, port, fresh, ports) = rw (is_among_small ss ports) (ground arith)

bit_high : (mask : ℕ) → mask < 256 → bit mask 8 ≡ false
bit_high mask small = ground arith

enabled :
    (streams : List ℕ) (i : ℕ)
    → AreStreams streams
    → i < 8
    → bit (enable_streams 1 streams) (i + 1) ≡ is_among (i + 1) streams
enabled streams i ports h = elim (Bool-cases (ltb i 7)) [
  | inl b ↦
      let low : i < 7 = ground arith in
      enable_streams-bit 1 streams (i + 1) (omega arith) ports (omega arith)
      ∙ or_false (is_among (i + 1) streams) (bit 1 (i + 1)) (io_bit i low)
  | inr b ↦
      let last : 7 ≡ i = ground arith in
      subst (λ k. bit (enable_streams 1 streams) (k + 1) ≡ is_among (k + 1) streams) last
        (bit_high (enable_streams 1 streams) (enable_streams_small 1 streams (omega arith) ports)
          ∙ sym (is_among_small streams ports))
]

-- The runs of the two directions of the data mover.
abbrev pub both_runs :
    Option ReadRun → Option (Option Stored) → Option (Option ReadRun × Option Stored)
both_runs none w = none
both_runs (some r) none = none
both_runs (some r) (some w) = some (some r, w)

abbrev pub runs_of : Option Mover → Option (Option ReadRun × Option Stored)
runs_of none = none
runs_of (some m) = some (m.read_run, m.write_run)

run_mover-enabled :
    (unset mask : ℕ) (read_config write_config : Address) (read_maps write_maps : Maps)
    (statuses : List Status) (ws : Writes)
    → bit mask 0 ≡ true
    → runs_of (run_mover unset mask read_config write_config read_maps write_maps statuses ws)
      ≡ both_runs
          (op_mem_read read_config read_maps ws)
          (op_mem_write write_config write_maps statuses)
unfolding run_mover
run_mover-enabled unset mask read_config write_config read_maps write_maps statuses ws on =
    rw on (elim (Option-cases (op_mem_read read_config read_maps ws)) [
      | inl e ↦ rw e refl
      | inr (r, e) ↦ elim (Option-cases (op_mem_write write_config write_maps statuses)) [
        | inl e' ↦ rw (e, e') refl
        | inr (w, e') ↦ rw (e, e') refl
      ]
    ])

-- For a pipeline of operators with different streams of 1 to 7, the mask that `Pipeline::run` gives
-- makes the FPGA start the operators of these streams and no other: of each of the eight operators
-- that the loop goes over, the control register is written 1 if its stream is among them, and else
-- is as it was. It makes the FPGA run both directions of the data mover as well.
pub start_operators-enable_streams :
    (streams : List ℕ) (i : ℕ) (ws : Writes)
    → AreStreams streams
    → i < 8
    → (last_written (start_operators (enable_streams 1 streams) 8 ws) (register_of i 0)
        ≡ (if is_among (i + 1) streams then some 1 else last_written ws (register_of i 0)))
      × ((unset : ℕ) (read_config write_config : Address) (read_maps write_maps : Maps)
            (statuses : List Status)
          → runs_of (
              run_mover unset
                (enable_streams 1 streams)
                read_config
                write_config
                read_maps
                write_maps
                statuses
                ws)
            ≡ both_runs
                (op_mem_read read_config read_maps ws)
                (op_mem_write write_config write_maps statuses))
start_operators-enable_streams streams i ws ports h =
    let mask = enable_streams 1 streams in
    let all : (leb (8 - 8) i && bit mask (i + 1)) ≡ bit mask (i + 1) =
      and_true i (bit mask (i + 1)) in
    (
      start_operators-started mask 8 i ws (omega arith) h
          ∙ ap (λ b. if b then some 1 else last_written ws (register_of i 0))
              (all ∙ enabled streams i ports h),
      λ unset read_config write_config read_maps write_maps statuses.
          run_mover-enabled unset mask read_config write_config read_maps write_maps statuses ws (
            enable_streams-bit 1 streams 0 (omega arith) ports (omega arith)
            ∙ or_true (is_among 0 streams)),
    )
