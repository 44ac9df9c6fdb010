-- ===== src/Tests/Profile.antt =====
-- The choice of the streams to watch at concrete inputs.
use metal_fs.Base.{◌≡◌, refl, true, false, some, List, [], ◌∷◌}
use metal_fs.Pipeline.Card.{one_for_profiling, done, throws}
use metal_fs.Pipeline.Profile.{Profiled, profile_streams, IsSelected, profile_streams-IsSelected}

-- Three operators, with profiling enabled for the second one.
abbrev three : List Profiled
three =
    record { stream_id = 1; profiling = false }
    ∷ record { stream_id = 4; profiling = true }
    ∷ record { stream_id = 2; profiling = false }
    ∷ []

watch_second : profile_streams three false false ≡ done (some (4, 2))
unfolding profile_streams
watch_second = refl

watch_twice : profile_streams three true false ≡ throws one_for_profiling
unfolding profile_streams
watch_twice = refl

profile_streams-IsSelected_example :
    IsSelected three false false (profile_streams three false false)
profile_streams-IsSelected_example = profile_streams-IsSelected three false false
