-- ===== src/Pipeline/Runner/Loop.antt =====
-- The loop of runs ends, for a source of which each range leaves fewer rounds.
use metal_fs.Base.{
  ℕ, zero, suc, ◌≡◌, refl, ◌∙◌, subst, inl, inr, Bool, true, false, not, Option, some, Bool-cases,
}
use metal_fs.Pipeline.Card.{
  Outcome, done, throws, aborts, to_address, Holds, >>>-Holds, Outcome-cases,
}
use metal_fs.Pipeline.Runner.{
  SourceOps, SinkOps, PipelineOps, Ran, first_run, process, run, next_round, run_loop,
}

module _ {W S K : Type 0} (source : SourceOps W S) (sink : SinkOps W K)
    (configure_switch : W → Outcome W) (pipeline : PipelineOps W S K) where
  stops :
      (r : Ran W S K) (f : Ran W S K → Option (Outcome (Ran W S K)))
      → r.ended ≡ true
      → next_round source sink configure_switch pipeline (done r) f ≡ some (done r)
  stops r f e = simp e

  goes_on :
      (r : Ran W S K) (f : Ran W S K → Option (Outcome (Ran W S K)))
      → r.ended ≡ false
      → next_round source sink configure_switch pipeline (done r) f ≡ f r
  goes_on r f e = simp e

  -- A run that comes to the end of the input is the last.
  pub run_loop-last :
      (n : ℕ) (initialized : Bool) (w : W) (s : S) (k : K) (r : Ran W S K)
      → run source sink configure_switch pipeline initialized w s k ≡ done r
      → r.ended ≡ true
      → run_loop source sink configure_switch pipeline (suc n) initialized w s k ≡ some (done r)
  unfolding run_loop
  run_loop-last n initialized w s k r e ended = rw e (
      stops r (λ x. run_loop source sink configure_switch pipeline n true x.world x.source x.sink)
        ended)

  pub run_loop-next :
      (n : ℕ) (initialized : Bool) (w : W) (s : S) (k : K) (r : Ran W S K)
      → run source sink configure_switch pipeline initialized w s k ≡ done r
      → r.ended ≡ false
      → run_loop source sink configure_switch pipeline (suc n) initialized w s k
        ≡ run_loop source sink configure_switch pipeline n true r.world r.source r.sink
  unfolding run_loop
  run_loop-next n initialized w s k r e ended = rw e (
      goes_on r (λ x. run_loop source sink configure_switch pipeline n true x.world x.source x.sink)
        ended)

-- What is known of a source: what its `configure` and its `finalize` do, when a number of rounds is
-- enough for it, and what the loop leaves of it.
pub record SourceLaws {W S : Type 0} (source : SourceOps W S) : Type 1 where
  pub Configures : S → S → Type 0
  pub Finalizes : S → S → Type 0
  pub IsEnough : (rounds : ℕ) → S → Type 0
  pub Leaves : S → S → Type 0
  pub configures :
      (initial : Bool) (w : W) (s : S)
      → Holds (λ r. Configures s r.1) (source.configure initial w s)
  pub finalizes : (w : W) (s : S) → Holds (λ r. Finalizes s r.1) (source.finalize w s)
  pub some_rounds : (s : S) → IsEnough 0 s → ⊥
  pub fewer_rounds :
      (n : ℕ) (s s1 s2 : S)
      → IsEnough (suc n) s
      → Configures s s1
      → source.at_end s1 ≡ false
      → Finalizes s1 s2
      → IsEnough n s2
  pub last_round :
      (n : ℕ) (s s1 s2 : S)
      → IsEnough (suc n) s
      → Configures s s1
      → source.at_end s1 ≡ true
      → Finalizes s1 s2
      → Leaves s s2
  pub other_round :
      (n : ℕ) (s s1 s2 s3 : S)
      → IsEnough (suc n) s
      → Configures s s1
      → source.at_end s1 ≡ false
      → Finalizes s1 s2
      → Leaves s2 s3
      → Leaves s s3

module _ {W S K : Type 0} (source : SourceOps W S) (laws : SourceLaws source) (sink : SinkOps W K)
    (configure_switch : W → Outcome W) (pipeline : PipelineOps W S K) where
  abbrev one_run : Bool → W → S → K → Outcome (Ran W S K)
  one_run = run source sink configure_switch pipeline

  abbrev all_runs : ℕ → Bool → W → S → K → Option (Outcome (Ran W S K))
  all_runs = run_loop source sink configure_switch pipeline

  -- What a run does to the source.
  abbrev IsMoved : S → Ran W S K → Type 0
  IsMoved s r =
      (s1 : S) × laws.Configures s s1 × (r.ended ≡ source.at_end s1) × laws.Finalizes s1 r.source

  run-IsMoved :
      (initialized : Bool) (w : W) (s : S) (k : K) → Holds (IsMoved s) (one_run initialized w s k)
  unfolding run
  run-IsMoved initialized w s k =
      >>>-Holds (IsMoved s) (first_run source sink configure_switch pipeline initialized w s k) _
        (λ (w1, k1) _.
          >>>-Holds (IsMoved s) (source.configure (not initialized) w1 s) _ (λ (w2, s2) e.
            let set : laws.Configures s s2 =
              subst (Holds (λ r. laws.Configures s r.1)) e
                (laws.configures (not initialized) w1 s) in
            >>>-Holds (IsMoved s) (source.data_source s2) _ (λ from _.
              >>>-Holds (IsMoved s) (sink.accept (not initialized) w2 k1 (to_address from).size) _
                (λ (w3, k3) _.
                  >>>-Holds (IsMoved s) (pipeline.pre_run (not initialized) w3 s2 k3) _ (λ w4 _.
                    >>>-Holds (IsMoved s)
                      (process source sink configure_switch pipeline w4 (to_address from).size from
                        k3)
                      _
                      (λ (w5, size) _.
                        >>>-Holds (IsMoved s) (pipeline.post_run (source.at_end s2) w5 s2 k3) _
                          (λ w6 _. >>>-Holds (IsMoved s) (source.finalize w6 s2) _ (λ (w7, s7) e7.
                            let moved : laws.Finalizes s2 s7 =
                              subst (Holds (λ r. laws.Finalizes s2 r.1)) e7
                                (laws.finalizes w6 s2) in
                            >>>-Holds (IsMoved s) (sink.close w7 k3 size (source.at_end s2)) _
                              (λ (w8, k8) _. (s2, set, refl, moved))))))))))

  abbrev pub Left : S → Ran W S K → Type 0
  Left s r = laws.Leaves s r.source

  before-Left :
      (n : ℕ) (s s1 s2 : S) (o : Outcome (Ran W S K))
      → laws.IsEnough (suc n) s
      → laws.Configures s s1
      → source.at_end s1 ≡ false
      → laws.Finalizes s1 s2
      → Holds (Left s2) o
      → Holds (Left s) o
  before-Left n s s1 s2 (throws x) enough c e f h = tt
  before-Left n s s1 s2 aborts enough c e f h = tt
  before-Left n s s1 s2 (done r) enough c e f h = laws.other_round n s s1 s2 r.source enough c e f h

  -- With enough rounds the loop ends: with an exception or an abort, or with what the laws say that
  -- it leaves of the source.
  pub run_loop-Leaves :
      (rounds : ℕ) (initialized : Bool) (w : W) (s : S) (k : K)
      → laws.IsEnough rounds s
      → (o : Outcome (Ran W S K)) × (all_runs rounds initialized w s k ≡ some o) × Holds (Left s) o
  unfolding run_loop
  run_loop-Leaves zero initialized w s k enough = absurd (laws.some_rounds s enough)
  run_loop-Leaves (suc n) initialized w s k enough =
      elim (Outcome-cases (one_run initialized w s k)) [
        | inr (inl (x, e)) ↦ (throws x, rw e refl, tt)
        | inr (inr e) ↦ (aborts, rw e refl, tt)
        | inl (r, e) ↦
            let (s1, set, ended, moved) =
              subst (Holds (IsMoved s)) e (run-IsMoved initialized w s k) in
            elim (Bool-cases (source.at_end s1)) [
              | inl b ↦ (
                done r,
                run_loop-last source sink configure_switch pipeline n initialized w s k r e
                    (ended ∙ b),
                laws.last_round n s s1 r.source enough set b moved,
              )
              | inr b ↦
                  let (o, same, rest) =
                    run_loop-Leaves n true r.world r.source r.sink
                      (laws.fewer_rounds n s s1 r.source enough set b moved) in
                  (
                    o,
                    run_loop-next source sink configure_switch pipeline n initialized w s k r e
                          (ended ∙ b)
                        ∙ same,
                    before-Left n s s1 r.source o enough set b moved rest,
                  )
            ]
      ]
