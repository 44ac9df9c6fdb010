-- ===== src/Pipeline/Stages.antt =====
-- pipeline.cpp: how a pipeline connects its operators, and the jobs of a run.
use metal_fs.Base.{
  ℕ, ◌/◌, ◌%◌, ◌^◌, Option, none, some, List, [], ◌∷◌, ◌++◌, ltb, ◌==◌, if◌then◌else◌,
}

-- The bytes of `htobe32` of a word, in memory.
unfoldable pub be32 : ℕ → List ℕ
be32 w = w / 2 ^ 24 % 256 ∷ w / 2 ^ 16 % 256 ∷ w / 2 ^ 8 % 256 ∷ w % 256 ∷ []

abbrev pub io_stream_id : ℕ
io_stream_id = 0

abbrev pub disable : ℕ
disable = 0x80000000

-- `job_struct` of `configureSwitch` as the word at each of its 8 indices; a store behind them is
-- out of bounds.
abbrev pub store_word : (index value : ℕ) → (ℕ → ℕ) → Option (ℕ → ℕ)
store_word index value words =
    if ltb index 8 then some (λ i. if i == index then value else words i) else none

-- The loop over the operators' streams, and the store behind it.
unfoldable pub connect : (previous : ℕ) → (streams : List ℕ) → (ℕ → ℕ) → Option (ℕ → ℕ)
connect previous [] words = store_word io_stream_id previous words
connect previous (current ∷ streams) words = elim (store_word current previous words) [
  | none ↦ none
  | some words' ↦ connect current streams words'
]

unfoldable pub switch_words : (streams : List ℕ) → Option (ℕ → ℕ)
unfolding connect
switch_words streams = connect io_stream_id streams (λ i. disable)

-- The memory line of the job; the bytes behind the 8 words are not the job's.
unfoldable pub switch_line : (ℕ → ℕ) → (behind : List ℕ) → List ℕ
unfolding be32
switch_line words behind =
    be32 (words 0)
    ++ be32 (words 1)
    ++ be32 (words 2)
    ++ be32 (words 3)
    ++ be32 (words 4)
    ++ be32 (words 5)
    ++ be32 (words 6)
    ++ be32 (words 7)
    ++ behind
