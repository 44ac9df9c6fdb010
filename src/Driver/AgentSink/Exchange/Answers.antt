-- ===== src/Driver/AgentSink/Exchange/Answers.antt =====
-- The loop answers the requests of an agent that is the whole pipeline.
use metal_fs.Base.{
  ℕ, zero, suc, ◌≤◌, ◌≡◌, refl, ap, ◌∙◌, Bool, true, false, not, ◌||◌, Option, some, List, [], ◌∷◌,
  ◌++◌, arith, ◌==◌, if◌then◌else◌, length,
}
use metal_fs.Fs.State.{Databases}
use metal_fs.Pipeline.Card.{Outcome, done, Job, World, DataPlace}
use metal_fs.Pipeline.FileSource.{FileSource}
use metal_fs.Pipeline.FileSink.{FileSink}
use metal_fs.Pipeline.Runner.Loop.{run_loop-last, run_loop-next}
use metal_fs.Pipeline.Runner.{Ran, run_loop}
use metal_fs.Driver.AgentSource.{
  Request, Response, Message, processing_request, processing_response, Peers, AgentSource,
  agent_source,
}
use metal_fs.Driver.AgentSink.{AgentSink, agent_sink}
use metal_fs.Driver.AgentSink.Exchange.{
  only_source, only_sink, switch_peers, compute_peers, started, worked, served, agent_run-served,
}

-- Just the last of the requests says that the input ends.
abbrev pub IsConversation : List Request → Type 0
IsConversation [] = ⊥
IsConversation (r ∷ []) = r.eof ≡ true
IsConversation (r ∷ q ∷ rs) = (r.eof ≡ false) × IsConversation (q ∷ rs)

-- Each request and then its response, one after the other, in front of the messages before them.
abbrev pub talk_after : List Request → List Response → List Message → List Message
talk_after [] xs before = before
talk_after (r ∷ rs) [] before = processing_request r ∷ before
talk_after (r ∷ rs) (x ∷ xs) before =
    talk_after rs xs (processing_response x ∷ processing_request r ∷ before)

self_test : (a : ℕ) → (a == a) ≡ true
self_test a = ground arith

module _ (L : Databases) (block_size : ℕ) (card : List Job → Option ℕ) (unset : List ℕ)
    (switch : World L → World L) (compute : World L → DataPlace → DataPlace → World L × ℕ)
    (a in_buffer out_buffer remaining : ℕ) (f : FileSource) (g : FileSink) where
  abbrev pub agent_loop :
      ℕ
      → Bool
      → Peers L
      → AgentSource
      → AgentSink
      → Option (Outcome (Ran (Peers L) AgentSource AgentSink))
  agent_loop =
      run_loop (agent_source L card unset) (agent_sink L block_size card unset)
        (switch_peers switch) (compute_peers compute)

  abbrev served_by :
      World L
      → Peers L
      → List Request
      → Request
      → ℕ
      → Bool
      → Bool
      → Bool
      → Ran (Peers L) AgentSource AgentSink
  served_by = served L block_size card unset switch compute a in_buffer out_buffer remaining f g

  abbrev pub started_by : Bool → World L → World L
  started_by = started L block_size card unset switch compute a in_buffer out_buffer remaining f g

  abbrev pub worked_by : World L → Bool → Bool → Request → World L × ℕ
  worked_by = worked L block_size card unset switch compute a in_buffer out_buffer remaining f g

  -- One response for each request, in order: with the size that the pipeline makes of the request's
  -- bytes, in the world that the earlier requests leave, and with the same word on the input's end.
  -- The halves of the two buffers take turns.
  unfoldable pub AnswersTo : World L → (here there : Bool) → List Request → List Response → Type 0
  AnswersTo w here there [] [] = Unit {0}
  AnswersTo w here there [] (x ∷ xs) = ⊥
  AnswersTo w here there (r ∷ rs) [] = ⊥
  AnswersTo w here there (r ∷ rs) (x ∷ xs) =
      (x.eof ≡ r.eof)
      × (x.size ≡ some (worked_by w here there r).1)
      × AnswersTo (worked_by w here there r).0 (not here) (not there) rs xs

  -- The messages after a request and its response.
  logged :
      (p : Peers L) (r : Request) (x : Response)
      → (if a == a
          then processing_response x ∷ (if a == a then processing_request r ∷ p.log a else p.log a)
          else (if a == a then processing_request r ∷ p.log a else p.log a))
        ≡ processing_response x ∷ processing_request r ∷ p.log a
  logged p r x = rw (self_test a) refl

  -- The end of the loop, for the requests `rs` and then `more`.
  abbrev pub Answered :
      Peers L
      → (initialized here there : Bool) → (rs more : List Request)
      → Option (Outcome (Ran (Peers L) AgentSource AgentSink))
      → Type 0
  Answered p initialized here there rs more result =
      (r : Ran (Peers L) AgentSource AgentSink) × (result ≡ some (done r))
      × (r.world.requests a ≡ more)
      × ((xs : List Response) × AnswersTo (started_by initialized p.world) here there rs xs
          × (r.world.log a ≡ talk_after rs xs (p.log a)))
      × (r.sink.terminated ≡ true)

  -- For an agent with both buffers that is the whole pipeline, whose next requests are such that just
  -- the last of them says that the input ends, and as many rounds, the loop comes to its end without
  -- an exception: it has taken exactly these requests, has sent one response for each, in order, with
  -- the size that the pipeline gives for the request's bytes in the half of the buffer whose turn it
  -- is (0 for no bytes), each response behind its request and in front of the next, and the same word on the end of the input, and the agent is terminated. What
  -- the pipeline does to the world is arbitrary, but does not fail and sends no messages.
  pub run_loop-AnswersTo :
      (rounds : ℕ) (initialized : Bool) (p : Peers L) (old : Request) (rs more : List Request)
      (here there terminated : Bool)
      → IsConversation rs
      → length rs ≤ rounds
      → p.requests a ≡ rs ++ more
      → Answered p initialized here there rs more (
          agent_loop rounds initialized p
            (only_source a in_buffer here f old remaining)
            (only_sink a out_buffer there terminated g))
  unfolding AnswersTo
  run_loop-AnswersTo rounds initialized p old [] more here there terminated talk enough e =
      absurd talk
  run_loop-AnswersTo zero initialized p old (r ∷ rs) more here there terminated talk enough e =
      absurd (omega arith)
  run_loop-AnswersTo (suc n) initialized p old (r ∷ []) more here there terminated talk enough e =
      let (w, out) = worked_by (started_by initialized p.world) here there r in
      let one =
        agent_run-served L block_size card unset switch compute a in_buffer out_buffer remaining f g
          initialized p r old more here there terminated e in
      let after = served_by w p more r out here there terminated in
      (
        after,
        run_loop-last (agent_source L card unset) (agent_sink L block_size card unset)
            (switch_peers switch) (compute_peers compute) n initialized p
            (only_source a in_buffer here f old remaining)
            (only_sink a out_buffer there terminated g) after one talk,
        rw (self_test a),
        (
          record { eof = r.eof; size = some out } ∷ [],
          (refl, refl, tt),
          logged p r (record { eof = r.eof; size = some out }),
        ),
        rw talk,
      )
  run_loop-AnswersTo (suc n) initialized p old (r ∷ q ∷ rs) more here there terminated (go, talk)
        enough e =
      let (w, out) = worked_by (started_by initialized p.world) here there r in
      let one =
        agent_run-served L block_size card unset switch compute a in_buffer out_buffer remaining f g
          initialized p r old (q ∷ rs ++ more) here there terminated e in
      let after = served_by w p (q ∷ rs ++ more) r out here there terminated in
      let (last, same, rest, (xs, answers, all), ended) =
        run_loop-AnswersTo n true after.world r (q ∷ rs) more (not here) (not there)
          (r.eof || terminated) talk (omega arith) (rw (self_test a) refl) in
      (
        last,
        run_loop-next (agent_source L card unset) (agent_sink L block_size card unset)
              (switch_peers switch) (compute_peers compute) n initialized p
              (only_source a in_buffer here f old remaining)
              (only_sink a out_buffer there terminated g) after one go
            ∙ same,
        rest,
        (
          record { eof = r.eof; size = some out } ∷ xs,
          (refl, refl, answers),
          all ∙ ap (talk_after (q ∷ rs) xs) (logged p r (record { eof = r.eof; size = some out })),
        ),
        ended,
      )
