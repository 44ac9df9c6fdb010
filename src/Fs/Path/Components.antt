-- ===== src/Fs/Path/Components.antt =====
-- `dirname` and `basename` of an absolute path that is written from its components.
use mathlib.Core.List.{reverse, reverse-append, reverse-cons, reverse-reverse, append_assoc}
use metal_fs.Base.{
  ℕ, ◌<◌, ◌≡◌, refl, sym, ap, ◌∙◌, Bool, true, not, ◌&&◌, List, [], ◌∷◌, ◌++◌, arith, ◌==◌, length,
  length-append,
}
use metal_fs.Fs.Path.{
  slash, strip, until_slash, from_slash, root, or_root, basename_of, dirname_of, basename,
  strip_last, dirname,
}

unfoldable pub no_slash : List ℕ → Bool
no_slash [] = true
no_slash (c ∷ cs) = not (c == slash) && no_slash cs

-- A name that can stand between two slashes.
abbrev pub IsComponent : List ℕ → Type 0
IsComponent c = (0 < length c) × (no_slash c ≡ true)

-- The path with these components, the innermost first; no component is the empty path.
unfoldable pub path_of : List (List ℕ) → List ℕ
path_of [] = []
path_of (c ∷ cs) = path_of cs ++ slash ∷ c

abbrev pub AllComponents : List (List ℕ) → Type 0
AllComponents [] = Unit {0}
AllComponents (c ∷ cs) = IsComponent c × AllComponents cs

no_slash-append : (a b : List ℕ) → no_slash (a ++ b) ≡ (no_slash a && no_slash b)
unfolding no_slash
no_slash-append [] b = refl
no_slash-append (x ∷ a) b = ground (arith, no_slash-append a b)

no_slash-reverse : (c : List ℕ) → no_slash c ≡ true → no_slash (reverse c) ≡ true
unfolding no_slash
no_slash-reverse [] h = refl
no_slash-reverse (x ∷ c) h =
    rw (reverse-cons, no_slash-append (reverse c) (x ∷ [])) (ground (arith, no_slash-reverse c))

length-reverse : (c : List ℕ) → length (reverse c) ≡ length c
length-reverse [] = refl
length-reverse (x ∷ c) =
    rw reverse-cons (omega (arith, length-append (reverse c) (x ∷ []), length-reverse c))

until_slash-append : (a r : List ℕ) → no_slash a ≡ true → until_slash (a ++ slash ∷ r) ≡ a
unfolding until_slash no_slash
until_slash-append [] r h = refl
until_slash-append (x ∷ a) r h = ground (arith, until_slash-append a r)

from_slash-append : (a r : List ℕ) → no_slash a ≡ true → from_slash (a ++ slash ∷ r) ≡ slash ∷ r
unfolding from_slash no_slash
from_slash-append [] r h = refl
from_slash-append (x ∷ a) r h = ground (arith, from_slash-append a r)

strip-append : (a r : List ℕ) → 0 < length a → no_slash a ≡ true → strip (a ++ r) ≡ a ++ r
unfolding strip no_slash
strip-append [] r h k = absurd (omega arith)
strip-append (x ∷ a) r h k = ground arith

reverse-path_of :
    (c : List ℕ) (cs : List (List ℕ))
    → reverse (path_of (c ∷ cs)) ≡ reverse c ++ slash ∷ reverse (path_of cs)
unfolding path_of
reverse-path_of c cs = rw (reverse-append, reverse-cons, append_assoc)

length-path_of : (c : List ℕ) (cs : List (List ℕ)) → 0 < length (path_of (c ∷ cs))
unfolding path_of
length-path_of c cs = omega (arith, length-append (path_of cs) (slash ∷ c))

dirname-cons : (p : List ℕ) → 0 < length p → dirname p ≡ strip_last (strip (reverse p))
unfolding dirname
dirname-cons [] h = absurd (omega arith)
dirname-cons (c ∷ p) h = refl

basename-cons : (p : List ℕ) → 0 < length p → basename p ≡ basename_of (strip (reverse p))
unfolding basename
basename-cons [] h = absurd (omega arith)
basename-cons (c ∷ p) h = refl

basename_of-cons : (p : List ℕ) → 0 < length p → basename_of p ≡ reverse (until_slash p)
unfolding basename_of
basename_of-cons [] h = absurd (omega arith)
basename_of-cons (c ∷ p) h = refl

strip_last-cons : (p : List ℕ) → 0 < length p → strip_last p ≡ dirname_of (from_slash p)
unfolding strip_last
strip_last-cons [] h = absurd (omega arith)
strip_last-cons (c ∷ p) h = refl

or_root-cons : (p : List ℕ) → 0 < length p → or_root p ≡ reverse p
or_root-cons [] h = absurd (omega arith)
or_root-cons (c ∷ p) h = refl

module _ (c : List ℕ) (cs : List (List ℕ)) (ok : IsComponent c) where
  reversed : 0 < length (reverse c)
  reversed = omega (arith, length-reverse c)

  no_slash_reversed : no_slash (reverse c) ≡ true
  no_slash_reversed = no_slash-reverse c ok.1

  strip-path_of : strip (reverse (path_of (c ∷ cs))) ≡ reverse c ++ slash ∷ reverse (path_of cs)
  strip-path_of =
      rw (reverse-path_of c cs)
        (strip-append (reverse c) (slash ∷ reverse (path_of cs)) reversed no_slash_reversed)

  long : 0 < length (reverse c ++ slash ∷ reverse (path_of cs))
  long = omega (arith, length-append (reverse c) (slash ∷ reverse (path_of cs)))

  -- The base name is the innermost component.
  pub basename-path_of : basename (path_of (c ∷ cs)) ≡ c
  basename-path_of =
      rw
        (
          basename-cons (path_of (c ∷ cs)) (length-path_of c cs),
          strip-path_of,
          basename_of-cons (reverse c ++ slash ∷ reverse (path_of cs)) long,
          until_slash-append (reverse c) (reverse (path_of cs)) no_slash_reversed,
        )
        (reverse-reverse c)

  dirname_reversed : dirname (path_of (c ∷ cs)) ≡ or_root (strip (reverse (path_of cs)))
  unfolding dirname_of strip
  dirname_reversed = rw (
    dirname-cons (path_of (c ∷ cs)) (length-path_of c cs),
    strip-path_of,
    strip_last-cons (reverse c ++ slash ∷ reverse (path_of cs)) long,
    from_slash-append (reverse c) (reverse (path_of cs)) no_slash_reversed,
  )

-- The directory name has the other components.
pub dirname-path_of_two :
    (c d : List ℕ) (cs : List (List ℕ))
    → IsComponent c
    → IsComponent d
    → dirname (path_of (c ∷ d ∷ cs)) ≡ path_of (d ∷ cs)
dirname-path_of_two c d cs ok ok' =
    dirname_reversed c (d ∷ cs) ok
    ∙ ap or_root (strip-path_of d cs ok')
    ∙ or_root-cons (reverse d ++ slash ∷ reverse (path_of cs)) (long d cs ok')
    ∙ ap reverse (sym (reverse-path_of d cs))
    ∙ reverse-reverse (path_of (d ∷ cs))

-- The directory name of a single component is the root.
pub dirname-path_of_one : (c : List ℕ) → IsComponent c → dirname (path_of (c ∷ [])) ≡ root
unfolding strip path_of
dirname-path_of_one c ok = dirname_reversed c [] ok
