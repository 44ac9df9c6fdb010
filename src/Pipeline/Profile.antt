-- ===== src/Pipeline/Profile.antt =====
-- src/metal-pipeline/src/profiling_pipeline_runner.cpp: which streams the monitor watches.
use mathlib.Core.Option.{some-injective}
use metal_fs.Base.{
  ℕ, ◌+◌, ◌<◌, ◌≡◌, refl, ap, ◌⊎◌, inl, inr, Bool, true, false, Option, none, some, List, [], ◌∷◌,
  ◌++◌, arith, ltb, if◌then◌else◌,
}
use metal_fs.Pipeline.Card.{one_for_profiling, Outcome, done, throws, aborts, ◌>>>◌}
use metal_fs.Pipeline.Stages.{io_stream_id}

-- An operator of the pipeline: its stream, and whether profiling is enabled for it.
pub record Profiled : Type 0 where
  pub stream_id : ℕ
  pub profiling : Bool

-- The loop over the operators. A position is the operators from it on.
unfoldable pub find_profiled :
    Option (List Profiled) → List Profiled → Outcome (Option (List Profiled))
find_profiled position [] = done position
find_profiled none (o ∷ os) =
    if o.profiling then find_profiled (some (o ∷ os)) os else find_profiled none os
find_profiled (some p) (o ∷ os) =
    if o.profiling then throws one_for_profiling else find_profiled (some p) os

abbrev pub stream_or_io : List Profiled → ℕ
stream_or_io [] = io_stream_id
stream_or_io (o ∷ os) = o.stream_id

-- The streams of an operator: its own, and that of the next one.
abbrev pub own_streams : List Profiled → ℕ × ℕ
own_streams [] = (io_stream_id, io_stream_id)
own_streams (o ∷ os) = (o.stream_id, stream_or_io os)

abbrev pub one_if : Bool → ℕ
one_if true = 1
one_if false = 0

abbrev pub is_there : Option (List Profiled) → Bool
is_there none = false
is_there (some p) = true

abbrev pub chosen : List Profiled → (source sink : Bool) → Option (List Profiled) → Option (ℕ × ℕ)
chosen os source true position = some (io_stream_id, io_stream_id)
chosen os true false position = some (stream_or_io os, stream_or_io os)
chosen os false false none = none
chosen os false false (some p) = some (own_streams p)

-- From the end of the loop on.
abbrev pub select_streams :
    List Profiled → (source sink : Bool) → Option (List Profiled) → Outcome (Option (ℕ × ℕ))
select_streams os source sink position =
    if ltb 1 (one_if (is_there position) + one_if source + one_if sink)
    then throws one_for_profiling
    else done (chosen os source sink position)

-- `_profileStreamIds`, for the operators and whether profiling is enabled for source and sink.
unfoldable pub profile_streams : List Profiled → (source sink : Bool) → Outcome (Option (ℕ × ℕ))
unfolding find_profiled
profile_streams os source sink =
    find_profiled none os >>> λ position. select_streams os source sink position

-- For how many operators profiling is enabled.
unfoldable pub profiled : List Profiled → ℕ
profiled [] = 0
profiled (o ∷ os) = (if o.profiling then profiled os + 1 else profiled os)

-- The operator at a position, among all.
abbrev IsAt : List Profiled → List Profiled → Type 0
IsAt os p =
    (before : List Profiled) × (o : Profiled) × (after : List Profiled) × (os ≡ before ++ o ∷ after)
    × (p ≡ o ∷ after)
    × (o.profiling ≡ true)

-- What the rest of the loop gives once an operator was found, and before.
abbrev Stays : List Profiled → List Profiled → Outcome (Option (List Profiled)) → Type 0
Stays p os (done position) = (position ≡ some p) × (profiled os ≡ 0)
Stays p os (throws x) = 0 < profiled os
Stays p os aborts = ⊥

abbrev Finds : List Profiled → Outcome (Option (List Profiled)) → Type 0
Finds os (done none) = profiled os ≡ 0
Finds os (done (some p)) = (profiled os ≡ 1) × IsAt os p
Finds os (throws x) = 1 < profiled os
Finds os aborts = ⊥

abbrev operator_of : ℕ → Bool → Profiled
operator_of i b = record { stream_id = i; profiling = b }

rest-Stays :
    (p : List Profiled) (i : ℕ) (b : Bool) (os : List Profiled)
    → Stays p os (find_profiled (some p) os)
    → Stays p (operator_of i b ∷ os) (find_profiled (some p) (operator_of i b ∷ os))
unfolding find_profiled profiled
rest-Stays p i true os h = omega arith
rest-Stays p i false os h = h

find_profiled-Stays : (p os : List Profiled) → Stays p os (find_profiled (some p) os)
unfolding find_profiled profiled
find_profiled-Stays p [] = (refl, refl)
find_profiled-Stays p (o ∷ os) = rest-Stays p o.stream_id o.profiling os (find_profiled-Stays p os)

-- The operator that was found is the only one.
found-Finds :
    (i : ℕ) (os : List Profiled) (m : Outcome (Option (List Profiled)))
    → Stays (operator_of i true ∷ os) os m
    → Finds (operator_of i true ∷ os) m
unfolding profiled
found-Finds i os (done none) h = absurd (ground (arith, h.0))
found-Finds i os (done (some p)) h = (
  omega (arith, h.1),
  ([], operator_of i true, os, refl, some-injective p (operator_of i true ∷ os) h.0, refl),
)
found-Finds i os (throws x) h = omega (arith, h)
found-Finds i os aborts h = h

skip-Finds :
    (i : ℕ) (os : List Profiled) (m : Outcome (Option (List Profiled)))
    → Finds os m
    → Finds (operator_of i false ∷ os) m
unfolding profiled
skip-Finds i os (done none) h = h
skip-Finds i os (done (some p)) (one, (before, o, after, same, at, on)) =
    (one, (operator_of i false ∷ before, o, after, ap (λ l. operator_of i false ∷ l) same, at, on))
skip-Finds i os (throws x) h = h
skip-Finds i os aborts h = h

rest-Finds :
    (i : ℕ) (b : Bool) (os : List Profiled)
    → Finds os (find_profiled none os)
    → Finds (operator_of i b ∷ os) (find_profiled none (operator_of i b ∷ os))
unfolding find_profiled
rest-Finds i true os h =
    found-Finds i os (find_profiled (some (operator_of i true ∷ os)) os)
      (find_profiled-Stays (operator_of i true ∷ os) os)
rest-Finds i false os h = skip-Finds i os (find_profiled none os) h

find_profiled-Finds : (os : List Profiled) → Finds os (find_profiled none os)
unfolding find_profiled profiled
find_profiled-Finds [] = refl
find_profiled-Finds (o ∷ os) = rest-Finds o.stream_id o.profiling os (find_profiled-Finds os)

-- For how many profiling is enabled in all.
abbrev pub enabled : List Profiled → (source sink : Bool) → ℕ
unfolding profiled
enabled os source sink = profiled os + one_if source + one_if sink

-- Whose streams are watched.
abbrev Watches : List Profiled → (source sink : Bool) → ℕ × ℕ → Type 0
Watches os source sink streams =
    ((sink ≡ true) × (streams ≡ (io_stream_id, io_stream_id)))
    ⊎ (((source ≡ true) × (streams ≡ (stream_or_io os, stream_or_io os)))
        ⊎ ((before : List Profiled) × (o : Profiled) × (after : List Profiled) × (os
              ≡ before ++ o ∷ after)
            × (o.profiling ≡ true)
            × (streams ≡ (o.stream_id, stream_or_io after))))

abbrev pub IsSelected : List Profiled → (source sink : Bool) → Outcome (Option (ℕ × ℕ)) → Type 0
IsSelected os source sink (done none) = enabled os source sink ≡ 0
IsSelected os source sink (done (some streams)) =
    (enabled os source sink ≡ 1) × Watches os source sink streams
IsSelected os source sink (throws x) = 1 < enabled os source sink
IsSelected os source sink aborts = ⊥

choose-IsSelected :
    (os : List Profiled) (source sink : Bool) (m : Outcome (Option (List Profiled)))
    → Finds os m
    → IsSelected os source sink (m >>> λ position. select_streams os source sink position)
unfolding profiled
choose-IsSelected os true true (done none) h = omega (arith, h)
choose-IsSelected os true false (done none) h = (omega (arith, h), inr (inl (refl, refl)))
choose-IsSelected os false true (done none) h = (omega (arith, h), inl (refl, refl))
choose-IsSelected os false false (done none) h = omega (arith, h)
choose-IsSelected os true true (done (some p)) h = omega (arith, h.0)
choose-IsSelected os true false (done (some p)) h = omega (arith, h.0)
choose-IsSelected os false true (done (some p)) h = omega (arith, h.0)
choose-IsSelected os false false (done (some p)) (one, (before, o, after, same, at, on)) =
    (omega (arith, one), inr (inr (before, o, after, same, on, ap (λ l. own_streams l) at)))
choose-IsSelected os source sink (throws x) h = omega (arith, h)
choose-IsSelected os source sink aborts h = h

-- The first run throws if profiling is enabled for more than one of the operators, the source and
-- the sink; for just one it watches the streams of the operator, its own and the next one's, or for
-- the source the stream of the first operator, or for the sink that of the I/O subsystem; for none
-- it watches none.
pub profile_streams-IsSelected :
    (os : List Profiled) (source sink : Bool)
    → IsSelected os source sink (profile_streams os source sink)
unfolding profile_streams
profile_streams-IsSelected os source sink =
    choose-IsSelected os source sink (find_profiled none os) (find_profiled-Finds os)
