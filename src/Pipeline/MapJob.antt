-- ===== src/Pipeline/MapJob.antt =====
-- `mapExtents` of file_data_source_context.cpp: the memory of a job that loads an extent map.
use metal_fs.Base.{ℕ, zero, suc, ◌-◌, ◌/◌, ◌%◌, ◌^◌, List, [], ◌∷◌, ◌++◌, ◌==◌, if◌then◌else◌}
use metal_fs.Fs.Types.{FileExtent}

-- The bytes of `htobe64` of a word, in memory.
unfoldable pub be64 : ℕ → List ℕ
be64 w =
    w / 2 ^ 56 % 256
    ∷ w / 2 ^ 48 % 256
    ∷ w / 2 ^ 40 % 256
    ∷ w / 2 ^ 32 % 256
    ∷ w / 2 ^ 24 % 256
    ∷ w / 2 ^ 16 % 256
    ∷ w / 2 ^ 8 % 256
    ∷ w % 256
    ∷ []

-- The loop: two words for each of `rest` extents, zero behind the last.
unfoldable pub extent_words : (rest : ℕ) → List FileExtent → List ℕ
extent_words zero xs = []
extent_words (suc rest) [] = 0 ∷ 0 ∷ extent_words rest []
extent_words (suc rest) (x ∷ xs) = x.offset ∷ x.length ∷ extent_words rest xs

-- `job_struct`: the slot, seven words that are not written, and the extents.
pub record JobStruct : Type 0 where
  pub slot : ℕ
  pub unset : List ℕ
  pub words : List ℕ

unfoldable pub map_extents : (unset : List ℕ) → (slot : ℕ) → List FileExtent → JobStruct
unfolding extent_words
map_extents unset slot xs = record { slot = slot; unset = unset; words = extent_words 512 xs }

-- The 64 bytes of a line of words.
unfoldable pub line_at : ℕ → List ℕ → List ℕ
line_at zero (a ∷ b ∷ c ∷ d ∷ e ∷ f ∷ g ∷ h ∷ ws) =
    be64 a ++ be64 b ++ be64 c ++ be64 d ++ be64 e ++ be64 f ++ be64 g ++ be64 h
line_at zero ws = []
line_at (suc k) (a ∷ b ∷ c ∷ d ∷ e ∷ f ∷ g ∷ h ∷ ws) = line_at k ws
line_at (suc k) ws = []

-- The memory that holds the job at a line.
unfoldable pub job_memory : (first_line : ℕ) → JobStruct → ℕ → List ℕ
unfolding line_at
job_memory first_line j line =
    if line == first_line then be64 j.slot ++ j.unset else line_at (line - first_line - 1) j.words
