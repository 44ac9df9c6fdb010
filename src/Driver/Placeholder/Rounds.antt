-- ===== src/Driver/Placeholder/Rounds.antt =====
-- The requests that the placeholder sends, for responses as the driver sends them.
use metal_fs.Base.{
  ℕ, ◌≡◌, refl, sym, ap, ◌∙◌, Bool, true, false, not, ◌&&◌, Option, none, some, List, [], ◌∷◌, ◌++◌,
  ◌==◌, if◌then◌else◌,
}
use metal_fs.Driver.AgentSource.{
  Request, Response, Message, processing_request, processing_response,
}
use metal_fs.Driver.AgentSink.Exchange.Answers.{IsConversation, talk_after}
use metal_fs.Driver.Placeholder.{
  Client, size_of, write_output, tell_server, hear, read_if, process_loop, run_client,
}

-- One response for each request, in order, with the same word on the end of the input.
abbrev pub Echoes : List Request → List Response → Type 0
Echoes [] [] = Unit {0}
Echoes [] (x ∷ xs) = ⊥
Echoes (r ∷ rs) [] = ⊥
Echoes (r ∷ rs) (x ∷ xs) = (x.eof ≡ r.eof) × Echoes rs xs

-- The sizes that are written for responses, put in front of those before.
abbrev pub written_after : (has_output : Bool) → List Response → List ℕ → List ℕ
written_after has_output [] before = before
written_after has_output (x ∷ xs) before =
    written_after has_output xs
      (if not (size_of x == 0) && has_output then size_of x ∷ before else before)

-- The variables before a round with a request to send.
abbrev before_round : Request → List Request → Response → List Message → List ℕ → Client
before_round r rs x log written = record {
  reads = rs;
  chunk = r;
  response = x;
  log = log;
  written = written;
}

-- The program ends: it has sent each of the requests and then received its response, and has written
-- what the responses `ws` say.
abbrev pub IsServed :
    (has_output : Bool)
    → List Request
    → (xs ws : List Response) → List Message
    → List ℕ
    → Option Client
    → Type 0
IsServed has_output rs xs ws log written result =
    (c : Client) × (result ≡ some c)
    × (c.log ≡ talk_after rs xs log)
    × (c.written ≡ written_after has_output ws written)

last_step :
    (has_output b b' : Bool) (size : Option ℕ) (c : Client)
    → b ≡ true
    → b' ≡ true
    → process_loop true has_output [] (hear (record { eof = b'; size = size }) (read_if (not b) c))
      ≡ some (write_output has_output (hear (record { eof = b'; size = size }) c))
unfolding process_loop
last_step has_output b b' size c e e' = rw (e, e') refl

next_step :
    (has_output b b' : Bool) (size : Option ℕ) (c : Client) (xs : List Response)
    → b ≡ false
    → b' ≡ false
    → process_loop true has_output xs (hear (record { eof = b'; size = size }) (read_if (not b) c))
      ≡ process_loop true has_output xs
          (hear (record { eof = false; size = size }) (read_if true c))
next_step has_output b b' size c xs e e' = rw (e, e') refl

process_loop-IsServed :
    (has_output : Bool) (r : Request) (rs more : List Request) (size : Option ℕ)
    (xs : List Response) (log : List Message) (written : List ℕ)
    → IsConversation (r ∷ rs)
    → Echoes (r ∷ rs) xs
    → IsServed has_output (r ∷ rs) xs (record { eof = false; size = size } ∷ xs) log written (
        process_loop true has_output xs
          (before_round r (rs ++ more) (record { eof = false; size = size }) log written))
unfolding process_loop
process_loop-IsServed has_output r rs more size [] log written talk answers = absurd answers
process_loop-IsServed has_output r [] more size (x ∷ []) log written talk (same, rest) =
    let c =
      write_output has_output
        (tell_server (before_round r more (record { eof = false; size = size }) log written)) in
    (
      write_output has_output (hear x c),
      last_step has_output r.eof x.eof x.size c talk (same ∙ talk),
      refl,
      refl,
    )
process_loop-IsServed has_output r [] more size (x ∷ y ∷ xs) log written talk (same, rest) =
    absurd rest
process_loop-IsServed has_output r (q ∷ rs) more size (x ∷ xs) log written (go, talk) (same, rest) =
    let c = write_output has_output (
      tell_server
        (before_round r (q ∷ rs ++ more) (record { eof = false; size = size }) log written)) in
    let (end, found, log', written') =
      process_loop-IsServed has_output q rs more x.size xs
        (processing_response (record { eof = false; size = x.size }) ∷ processing_request r ∷ log)
        c.written talk rest in
    (
      end,
      next_step has_output r.eof x.eof x.size c xs go (same ∙ go) ∙ found,
      log'
          ∙ ap
              (λ b. talk_after (q ∷ rs) xs (
                processing_response (record { eof = b; size = x.size })
                ∷ processing_request r
                ∷ log))
              (sym (same ∙ go)),
      written',
    )

-- For an input whose reads are the requests `r ∷ rs` up to the first that is at the end, and responses
-- that answer them, the program comes to its end without losing the connection: it has sent exactly
-- these requests, in order, each before it receives its response, and has written as much as each of
-- the responses says.
pub run_client-IsServed :
    (has_output : Bool) (r : Request) (rs more : List Request) (xs : List Response)
    → IsConversation (r ∷ rs)
    → Echoes (r ∷ rs) xs
    → IsServed has_output (r ∷ rs) xs xs [] [] (run_client true has_output (r ∷ rs ++ more) xs)
unfolding run_client
run_client-IsServed has_output r rs more xs talk answers =
    process_loop-IsServed has_output r rs more none xs [] [] talk answers
