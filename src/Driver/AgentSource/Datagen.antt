-- ===== src/Driver/AgentSource/Datagen.antt =====
-- The loop over generated data.
use metal_fs.Base.{
  ℕ, suc, ◌-◌, ◌*◌, ◌^◌, ◌≤◌, ◌<◌, ◌≡◌, refl, sym, ap, ◌∙◌, subst, Bool, true, false, ◌||◌, Option,
  some, List, arith, ltb, ◌==◌, if◌then◌else◌,
}
use metal_fs.Fs.Types.{sub64}
use metal_fs.Fs.State.{Databases}
use metal_fs.Pipeline.Card.{Outcome, done, throws, aborts, ◌>>>◌, Job, Holds, >>>-Holds}
use metal_fs.Pipeline.FileSource.{configure_source, end_of_input}
use metal_fs.Driver.AgentSource.{
  buffer_size, Request, Peers, receive, AgentSource, SourceKind, buffered, generated, stored,
  no_source, source_kind, end_of_agent_input, set_range, is_buffered, no_request_yet,
  configure_agent_source, next_range, finalize_agent_source, agent_source,
}
use metal_fs.Pipeline.Runner.{SinkOps, PipelineOps, Ran, run_loop}
use metal_fs.Pipeline.Runner.Loop.{SourceLaws, run_loop-Leaves}

-- The agent is `datagen` with no input buffer and no input file, and so many buffers hold what is
-- still to be generated.
abbrev pub CanGenerate : (rounds : ℕ) → AgentSource → Type 0
CanGenerate rounds s =
    (source_kind s ≡ generated)
    × (s.file.inode_id ≡ 0)
    × (s.remaining < 2 ^ 64)
    × (0 < rounds)
    × (s.remaining ≤ rounds * buffer_size)

abbrev next_size : AgentSource → ℕ
next_size s = if ltb buffer_size s.remaining then buffer_size else s.remaining

-- After `configure`.
abbrev ranged : AgentSource → AgentSource
ranged s = record s { size = next_size s; eof = s.remaining == next_size s }

abbrev IsRanged : AgentSource → AgentSource → Type 0
IsRanged s s1 = source_kind s ≡ generated → s1 ≡ ranged s

no_rounds : (s : AgentSource) → CanGenerate 0 s → ⊥
no_rounds s can = omega (arith, can.3)

module _ (L : Databases) (card : List Job → Option ℕ) (unset : List ℕ) where
  set_range-IsRanged :
      (m : Outcome (Peers L × Request)) (s : AgentSource) (kind : SourceKind)
      → kind ≡ source_kind s
      → Holds
          (λ (r : Peers L × AgentSource). IsRanged s r.1)
          (m >>> λ (p, r). set_range L card unset p r s kind)
  set_range-IsRanged (throws x) s kind e = tt
  set_range-IsRanged aborts s kind e = tt
  set_range-IsRanged (done (p, r)) s generated e = λ g. refl
  set_range-IsRanged (done (p, r)) s (buffered b) e = λ g. cc
  set_range-IsRanged (done (p, r)) s no_source e = λ g. cc
  set_range-IsRanged (done (p, r)) s stored e =
      >>>-Holds (λ r. IsRanged s r.1) (configure_source L card unset p.world s.file) _ (λ w _ g. cc)

  configures-IsRanged :
      (initial : Bool) (p : Peers L) (s : AgentSource)
      → Holds (λ r. IsRanged s r.1) (configure_agent_source L card unset initial p s)
  unfolding configure_agent_source
  configures-IsRanged initial p s =
      set_range-IsRanged
        (if initial || is_buffered L card unset s.input_buffer
          then receive s.agent p
          else done (p, no_request_yet L card unset))
        s (source_kind s) refl

  finalizes-next :
      (p : Peers L) (s : AgentSource)
      → (finalize_agent_source L card unset p s).1 ≡ next_range L card unset s (source_kind s)
  unfolding finalize_agent_source
  finalizes-next p s = refl

  -- The range of a round, taken away.
  abbrev rest_of : AgentSource → AgentSource
  rest_of s = next_range L card unset (ranged s) generated

  after_round :
      (s s1 s2 : AgentSource)
      → source_kind s ≡ generated
      → IsRanged s s1
      → s2 ≡ next_range L card unset s1 (source_kind s1)
      → s2 ≡ rest_of s
  after_round s s1 s2 g set moved =
      moved
      ∙ ap (λ x. next_range L card unset x (source_kind x)) (set g)
      ∙ ap (λ k. next_range L card unset (ranged s) k) g

  -- Whether a round is the last one.
  ends_after :
      (s s1 : AgentSource) (b : Bool)
      → source_kind s ≡ generated
      → s.file.inode_id ≡ 0
      → IsRanged s s1
      → end_of_agent_input s1 ≡ b
      → (s.remaining == next_size s) ≡ b
  ends_after s s1 b g zero_id set e =
      let no_file : (s.file.inode_id == 0) ≡ true = ground arith in
      ap (λ c. if c then s.remaining == next_size s else end_of_input s.file) (sym no_file)
      ∙ sym (ap end_of_agent_input (set g))
      ∙ e

  rest_of-CanGenerate :
      (n : ℕ) (s : AgentSource)
      → CanGenerate (suc n) s
      → (s.remaining == next_size s) ≡ false
      → CanGenerate n (rest_of s)
  rest_of-CanGenerate n s (g, zero_id, small, any, enough) more =
      let above : buffer_size < s.remaining = ground arith in
      let taken : next_size s ≡ buffer_size = ground arith in
      let rest : sub64 s.remaining (next_size s) ≡ s.remaining - buffer_size =
        rw taken (omega arith) in
      (g, zero_id, rw rest (omega arith), omega arith, rw rest (omega arith))

  rest_of-done :
      (s : AgentSource)
      → s.remaining < 2 ^ 64
      → (s.remaining == next_size s) ≡ true
      → (rest_of s).remaining ≡ 0
  rest_of-done s small last =
      let all : s.remaining ≡ next_size s = ground arith in rw (← all) (omega arith)

  datagen_laws : SourceLaws (agent_source L card unset)
  datagen_laws = record {
    Configures = IsRanged;
    Finalizes = λ s1 s2. s2 ≡ next_range L card unset s1 (source_kind s1);
    IsEnough = CanGenerate;
    Leaves = λ s s2. s2.remaining ≡ 0;
    configures = configures-IsRanged;
    finalizes = finalizes-next;
    some_rounds = no_rounds;
    fewer_rounds = λ n s s1 s2 can set more moved.
        subst (CanGenerate n) (sym (after_round s s1 s2 can.0 set moved))
          (rest_of-CanGenerate n s can (ends_after s s1 false can.0 can.1 set more));
    last_round = λ n s s1 s2 can set last moved.
        ap (λ x. x.remaining) (after_round s s1 s2 can.0 set moved)
        ∙ rest_of-done s can.2 (ends_after s s1 true can.0 can.1 set last);
    other_round = λ n s s1 s2 s3 can set more moved h. h;
  }

module _ (L : Databases) (card : List Job → Option ℕ) (unset : List ℕ) {K : Type 0}
    (sink : SinkOps (Peers L) K) (configure_switch : Peers L → Outcome (Peers L))
    (pipeline : PipelineOps (Peers L) AgentSource K) where
  abbrev pub loop_agent :
      ℕ → Bool → Peers L → AgentSource → K → Option (Outcome (Ran (Peers L) AgentSource K))
  loop_agent = run_loop (agent_source L card unset) sink configure_switch pipeline

  abbrev pub AllGenerated : Ran (Peers L) AgentSource K → Type 0
  AllGenerated r = r.source.remaining ≡ 0

  -- For `datagen` without an input buffer and an input file, the loop ends after at most as many runs
  -- as buffers hold the length to be generated, one for a length of 0, whatever the card, the sink and
  -- the runner's hooks do: with an exception or an abort, or when nothing of the length remains.
  pub run_loop-AllGenerated :
      (rounds : ℕ) (initialized : Bool) (p : Peers L) (s : AgentSource) (k : K)
      → CanGenerate rounds s
      → (o : Outcome (Ran (Peers L) AgentSource K)) × (loop_agent rounds initialized p s k ≡ some o)
        × Holds AllGenerated o
  unfolding datagen_laws
  run_loop-AllGenerated rounds initialized p s k can =
      run_loop-Leaves (agent_source L card unset) (datagen_laws L card unset) sink configure_switch
        pipeline rounds initialized p s k can
