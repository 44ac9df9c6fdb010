-- ===== src/Driver/Placeholder/Talk.antt =====
-- The placeholder and the driver, each with the messages of the other.
use metal_fs.Base.{ℕ, ◌≤◌, ◌≡◌, ap, ◌∙◌, Bool, true, not, Option, some, List, [], ◌∷◌, ◌++◌, length}
use metal_fs.Fs.State.{Databases}
use metal_fs.Pipeline.Card.{Outcome, done, Job, World, DataPlace}
use metal_fs.Pipeline.FileSource.{FileSource}
use metal_fs.Pipeline.FileSink.{FileSink}
use metal_fs.Pipeline.Runner.{Ran}
use metal_fs.Driver.AgentSource.{Request, Response, Peers, AgentSource}
use metal_fs.Driver.AgentSink.{AgentSink}
use metal_fs.Driver.AgentSink.Exchange.{only_source, only_sink, asked}
use metal_fs.Driver.AgentSink.Exchange.Answers.{
  IsConversation, talk_after, agent_loop, started_by, AnswersTo, run_loop-AnswersTo,
}
use metal_fs.Driver.Placeholder.{Client, run_client}
use metal_fs.Driver.Placeholder.Rounds.{Echoes, IsServed, run_client-IsServed}

module _ (L : Databases) (block_size : ℕ) (card : List Job → Option ℕ) (unset : List ℕ)
    (switch : World L → World L) (compute : World L → DataPlace → DataPlace → World L × ℕ)
    (a in_buffer out_buffer remaining : ℕ) (f : FileSource) (g : FileSink) where
  abbrev started_here : Bool → World L → World L
  started_here =
      started_by L block_size card unset switch compute a in_buffer out_buffer remaining f g

  abbrev AnswersHere : World L → Bool → Bool → List Request → List Response → Type 0
  AnswersHere =
      AnswersTo L block_size card unset switch compute a in_buffer out_buffer remaining f g

  AnswersTo-Echoes :
      (rs : List Request) (xs : List Response) (w : World L) (here there : Bool)
      → AnswersHere w here there rs xs
      → Echoes rs xs
  unfolding AnswersTo
  AnswersTo-Echoes [] [] w here there h = tt
  AnswersTo-Echoes [] (x ∷ xs) w here there h = absurd h
  AnswersTo-Echoes (r ∷ rs) [] w here there h = absurd h
  AnswersTo-Echoes (r ∷ rs) (x ∷ xs) w here there (same, size, h) =
      (same, AnswersTo-Echoes rs xs _ (not here) (not there) h)

  -- Both come to their end: the driver has answered the requests `rs` with the responses `xs`, and the
  -- program, which has these responses, has seen the same messages in the same order, and has written
  -- what they say.
  abbrev pub Converse :
      Peers L
      → (initialized here there has_output : Bool) → (rs : List Request)
      → Option (Outcome (Ran (Peers L) AgentSource AgentSink))
      → (List Response → Option Client)
      → Type 0
  Converse p initialized here there has_output rs driver client =
      (ran : Ran (Peers L) AgentSource AgentSink) × (xs : List Response) × (driver
        ≡ some (done ran))
      × AnswersHere (started_here initialized p.world) here there rs xs
      × (ran.world.log a ≡ talk_after rs xs [])
      × IsServed has_output rs xs xs [] [] (client xs)

  -- Let the reads of a program with an input, up to the first at the end, be `r ∷ rs`, and let the driver
  -- have these as the requests of the program's agent, with both buffers and as the whole pipeline,
  -- and have sent nothing. With a round for each of them, whatever the pipeline does to the world,
  -- the driver's loop and the program come to their end with each other's messages: there is one
  -- response for each request, with the size that the pipeline gives, and on both sides the messages
  -- are the same, in the same order: each request and then its response, before the next. With an
  -- output, the program writes as much as each response says, if that is not 0.
  pub run_client-run_loop :
      (has_output initialized : Bool) (p : Peers L) (old r : Request) (rs more : List Request)
      (here there terminated : Bool) (rounds : ℕ)
      → IsConversation (r ∷ rs)
      → length (r ∷ rs) ≤ rounds
      → p.requests a ≡ r ∷ rs ++ []
      → p.log a ≡ []
      → Converse p initialized here there has_output
          (r ∷ rs)
          (agent_loop L block_size card unset switch compute a in_buffer out_buffer remaining f g
            rounds initialized p
            (only_source a in_buffer here f old remaining)
            (only_sink a out_buffer there terminated g))
          (run_client true has_output (r ∷ rs ++ more))
  run_client-run_loop has_output initialized p old r rs more here there terminated rounds talk
        enough asked silent =
      let (ran, ends, taken, (xs, answers, sent), ended) =
        run_loop-AnswersTo L block_size card unset switch compute a in_buffer out_buffer remaining f
          g rounds initialized p old (r ∷ rs) [] here there terminated talk enough asked in
      (
        ran,
        xs,
        ends,
        answers,
        sent ∙ ap (talk_after (r ∷ rs) xs) silent,
        run_client-IsServed has_output r rs more xs talk
            (AnswersTo-Echoes (r ∷ rs) xs (started_here initialized p.world) here there answers),
      )
