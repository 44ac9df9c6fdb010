-- ===== src/Fs/Path.antt =====
-- POSIX `dirname` and `basename` on paths as bytes, as src/metal-filesystem/src/metal.c uses them.
pub mod Components
use mathlib.Core.List.{reverse}
use metal_fs.Base.{ℕ, List, [], ◌∷◌, ◌==◌, if◌then◌else◌}

-- `'/'`
abbrev pub slash : ℕ
slash = 47

-- On a reversed path: without slashes in front.
unfoldable pub strip : List ℕ → List ℕ
strip [] = []
strip (c ∷ cs) = if c == slash then strip cs else c ∷ cs

-- On a reversed path: up to the first slash, and from it on.
unfoldable pub until_slash : List ℕ → List ℕ
until_slash [] = []
until_slash (c ∷ cs) = if c == slash then [] else c ∷ until_slash cs

unfoldable pub from_slash : List ℕ → List ℕ
from_slash [] = []
from_slash (c ∷ cs) = if c == slash then c ∷ cs else from_slash cs

abbrev pub root : List ℕ
root = slash ∷ []

abbrev pub here : List ℕ
here = 46 ∷ []

abbrev pub or_root : List ℕ → List ℕ
or_root [] = root
or_root (c ∷ cs) = reverse (c ∷ cs)

unfoldable pub basename_of : List ℕ → List ℕ
unfolding until_slash
basename_of [] = root
basename_of (c ∷ cs) = reverse (until_slash (c ∷ cs))

unfoldable pub dirname_of : List ℕ → List ℕ
unfolding strip
dirname_of [] = here
dirname_of (c ∷ cs) = or_root (strip (c ∷ cs))

unfoldable pub basename : List ℕ → List ℕ
unfolding basename_of strip
basename [] = here
basename (c ∷ cs) = basename_of (strip (reverse (c ∷ cs)))

-- The last component goes, with the slashes in front of it.
unfoldable pub strip_last : List ℕ → List ℕ
unfolding from_slash dirname_of
strip_last [] = root
strip_last (c ∷ cs) = dirname_of (from_slash (c ∷ cs))

unfoldable pub dirname : List ℕ → List ℕ
unfolding strip_last strip
dirname [] = here
dirname (c ∷ cs) = strip_last (strip (reverse (c ∷ cs)))
