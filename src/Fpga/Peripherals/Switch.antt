-- ===== src/Fpga/Peripherals/Switch.antt =====
-- `configureSwitch` on the host and `action_configure_streams` on the FPGA together.
use metal_fs.Base.{
  ℕ, zero, suc, ◌+◌, ◌/◌, ◌^◌, ◌<◌, ◌≡◌, refl, ap, ◌∙◌, ◌≢◌, Option, some, List, [], ◌∷◌, arith,
  ◌==◌, ◌&&◌, if◌then◌else◌,
}
use metal_fs.Fpga.Peripherals.{Writes, last_written, switch_base, get32be, action_configure_streams}
use metal_fs.Pipeline.Stages.{be32, io_stream_id, disable, connect, switch_words, switch_line}

-- The writes before the last commit: the switch goes by what is in its mapping registers when 2 is
-- written to its control register.
unfoldable pub before_commit : Writes → Writes
before_commit [] = []
before_commit ((j, v) ∷ ws) = if (j == switch_base) && (v == 2) then ws else before_commit ws

-- The slave port that feeds a master port, by the mapping that is committed.
abbrev pub fed_by : Writes → ℕ → Option ℕ
fed_by ws port = last_written (before_commit ws) (switch_base + 0x40 / 4 + port)

fed_by-words :
    (words : ℕ → ℕ) (behind : List ℕ) (memory : ℕ → List ℕ) (address : ℕ) (ws : Writes) (port : ℕ)
    → ((i : ℕ) → words i < 2 ^ 32)
    → memory (address / 64) ≡ switch_line words behind
    → port < 8
    → fed_by (action_configure_streams memory address ws) port ≡ some (words port)
unfolding last_written before_commit action_configure_streams get32be switch_line be32
fed_by-words words behind memory address ws zero small m h = rw m (ground (arith, small 0))
fed_by-words words behind memory address ws (suc zero) small m h = rw m (ground (arith, small 1))
fed_by-words words behind memory address ws (suc (suc zero)) small m h =
    rw m (ground (arith, small 2))
fed_by-words words behind memory address ws (suc (suc (suc zero))) small m h =
    rw m (ground (arith, small 3))
fed_by-words words behind memory address ws (suc (suc (suc (suc zero)))) small m h =
    rw m (ground (arith, small 4))
fed_by-words words behind memory address ws (suc (suc (suc (suc (suc zero))))) small m h =
    rw m (ground (arith, small 5))
fed_by-words words behind memory address ws (suc (suc (suc (suc (suc (suc zero)))))) small m h =
    rw m (ground (arith, small 6))
fed_by-words words behind memory address ws (suc (suc (suc (suc (suc (suc (suc zero))))))) small m
      h =
    rw m (ground (arith, small 7))
fed_by-words words behind memory address ws (suc (suc (suc (suc (suc (suc (suc (suc i)))))))) small
      m h =
    absurd (omega arith)

unfoldable pub IsNotIn : ℕ → List ℕ → Type 0
IsNotIn i [] = Unit {0}
IsNotIn i (s ∷ ss) = (i ≢ s) × IsNotIn i ss

-- The streams of the operators of a pipeline: ports of the switch, not the one of the data source
-- and sink, and no port twice.
unfoldable pub AreStreams : List ℕ → Type 0
AreStreams [] = Unit {0}
AreStreams (s ∷ ss) = (0 < s) × (s < 8) × IsNotIn s ss × AreStreams ss

abbrev AreSmall : (ℕ → ℕ) → Type 0
AreSmall words = (i : ℕ) → words i < 2 ^ 32

-- From `previous` the data goes through the streams in their order and back to the sink.
Feeds : (ℕ → ℕ) → ℕ → List ℕ → Type 0
Feeds words previous [] = words 0 ≡ previous
Feeds words previous (s ∷ ss) = (words s ≡ previous) × Feeds words s ss

abbrev put_word : ℕ → ℕ → (ℕ → ℕ) → ℕ → ℕ
put_word index value words i = if i == index then value else words i

put_word-AreSmall :
    (index value : ℕ) (words : ℕ → ℕ)
    → value < 2 ^ 32
    → AreSmall words
    → AreSmall (put_word index value words)
put_word-AreSmall index value words lt small i = ground (arith, small i)

put_word_self : (index value : ℕ) (words : ℕ → ℕ) → put_word index value words index ≡ value
put_word_self index value words = ground arith

put_word_ne :
    (index value i : ℕ) (words : ℕ → ℕ) → i ≢ index → put_word index value words i ≡ words i
put_word_ne index value i words ne = ground arith

connect-next :
    (previous s : ℕ) (ss : List ℕ) (words : ℕ → ℕ)
    → s < 8
    → connect previous (s ∷ ss) words ≡ connect s ss (put_word s previous words)
unfolding connect
connect-next previous s ss words h = ground arith

connect-Feeds :
    (previous : ℕ) (streams : List ℕ) (words : ℕ → ℕ)
    → previous < 8
    → AreStreams streams
    → AreSmall words
    → (words' : ℕ → ℕ) × (connect previous streams words ≡ some words')
      × AreSmall words'
      × Feeds words' previous streams
      × ((i : ℕ) → i ≢ 0 → IsNotIn i streams → words' i ≡ words i)
unfolding connect Feeds AreStreams IsNotIn
connect-Feeds previous [] words lt streams small = (
  put_word 0 previous words,
  refl,
  put_word-AreSmall 0 previous words (omega arith) small,
  put_word_self 0 previous words,
  λ i ne fresh. put_word_ne 0 previous i words ne,
)
connect-Feeds previous (s ∷ ss) words lt (pos, port, fresh, streams) small =
    let (words', same, small', feeds, kept) =
      connect-Feeds s ss (put_word s previous words) port streams
        (put_word-AreSmall s previous words (omega arith) small) in
    (
      words',
      connect-next previous s ss words port ∙ same,
      small',
      (kept s (ground arith) fresh ∙ put_word_self s previous words, feeds),
      λ i ne fresh'. kept i ne fresh'.1 ∙ put_word_ne s previous i words fresh'.0,
    )

-- The switch sends the data from `previous` through the streams in their order and back to the sink.
pub IsRoute : Writes → (previous : ℕ) → List ℕ → Type 0
IsRoute ws previous [] = fed_by ws io_stream_id ≡ some previous
IsRoute ws previous (s ∷ ss) = (fed_by ws s ≡ some previous) × IsRoute ws s ss

Feeds-IsRoute :
    (words : ℕ → ℕ) (ws : Writes) (previous : ℕ) (streams : List ℕ)
    → ((i : ℕ) → i < 8 → fed_by ws i ≡ some (words i))
    → AreStreams streams
    → Feeds words previous streams
    → IsRoute ws previous streams
unfolding Feeds IsRoute AreStreams
Feeds-IsRoute words ws previous [] fed streams f = fed 0 (omega arith) ∙ ap some f
Feeds-IsRoute words ws previous (s ∷ ss) fed (pos, port, fresh, streams) (f, fs) =
    (fed s port ∙ ap some f, Feeds-IsRoute words ws s ss fed streams fs)

-- For operators with different streams of 1 to 7, `configureSwitch` lays out a job (no store is out
-- of bounds), and that job makes the FPGA's switch send the data of the source through the operators
-- in their order and then to the sink, disables every other port, and commits this mapping;
-- that commit is the last write to the switch's control register.
pub action_configure_streams-IsRoute :
    (streams behind : List ℕ) (memory : ℕ → List ℕ) (address : ℕ) (ws : Writes)
    → AreStreams streams
    → ((words : ℕ → ℕ)
        → switch_words streams ≡ some words
        → memory (address / 64) ≡ switch_line words behind)
    → IsRoute (action_configure_streams memory address ws) io_stream_id streams
      × ((i : ℕ)
          → i < 8
          → i ≢ 0
          → IsNotIn i streams
          → fed_by (action_configure_streams memory address ws) i ≡ some disable)
      × (last_written (action_configure_streams memory address ws) switch_base ≡ some 2)
unfolding switch_words last_written action_configure_streams
action_configure_streams-IsRoute streams behind memory address ws ports m =
    let (words, same, small, feeds, kept) =
      connect-Feeds io_stream_id streams (λ i. disable) (omega arith) ports (λ i. omega arith) in
    let fed =
      λ (i : ℕ) (h : i < 8). fed_by-words words behind memory address ws i small (m words same) h in
    (
      Feeds-IsRoute words (action_configure_streams memory address ws) io_stream_id streams fed
          ports feeds,
      λ i h ne fresh. fed i h ∙ ap some (kept i ne fresh),
      refl,
    )
