-- ===== src/Driver/Placeholder/Mounts.antt =====
-- The mount point that is found.
use metal_fs.Base.{
  ℕ, ◌≤◌, ◌≡◌, refl, sym, ap, ◌∙◌, subst, ◌⊎◌, inl, inr, Bool, true, false, ◌&&◌, Option, none,
  some, List, [], ◌∷◌, arith, ltb, ◌==◌, if◌then◌else◌, length,
}
use metal_fs.Driver.Combined.{Text, starts_with}
use metal_fs.Driver.Placeholder.{find_mount, mount_point_of}

-- Each of the directories that the path starts with is at most this long.
abbrev pub MatchesAtMost : Text → ℕ → List Text → Type 0
MatchesAtMost path n [] = Unit {0}
MatchesAtMost path n (dir ∷ dirs) =
    (starts_with dir path ≡ true → length dir ≤ n) × MatchesAtMost path n dirs

abbrev pub IsOneOf : Text → List Text → Type 0
IsOneOf result [] = ⊥
IsOneOf result (dir ∷ dirs) = (result ≡ dir) ⊎ IsOneOf result dirs

-- The loop keeps what it has, or takes a match.
abbrev IsKeptOrMatch : Text → Text → ℕ → List Text → Text × ℕ → Type 0
IsKeptOrMatch path result longest dirs o =
    (o ≡ (result, longest))
    ⊎ (IsOneOf o.0 dirs × (starts_with o.0 path ≡ true) × (o.1 ≡ length o.0))

abbrev IsLongest : Text → Text → ℕ → List Text → Text × ℕ → Type 0
IsLongest path result longest dirs o =
    (longest ≤ o.1) × MatchesAtMost path o.1 dirs × IsKeptOrMatch path result longest dirs o

second : (a b : Bool) → (a && b) ≡ true → b ≡ true
second true b e = e
second false b e = absurd (cc e)

starts_with-length :
    (prefix path : Text) → starts_with prefix path ≡ true → length prefix ≤ length path
unfolding starts_with
starts_with-length [] path e = omega arith
starts_with-length (c ∷ prefix) [] e = absurd (cc e)
starts_with-length (c ∷ prefix) (d ∷ path) e =
    let shorter = starts_with-length prefix path (second (c == d) (starts_with prefix path) e) in
    omega arith

choose :
    {A : Type 0} (P : A → Type 0) (a b c : Bool) (skip take : A)
    → (a ≡ true → P skip)
    → (b ≡ true → P skip)
    → (b ≡ false → c ≡ true → P take)
    → (c ≡ false → P skip)
    → P (if a then skip else if b then skip else if c then take else skip)
choose P true b c skip take pa pb pt pc = pa refl
choose P false true c skip take pa pb pt pc = pb refl
choose P false false true skip take pa pb pt pc = pt refl refl
choose P false false false skip take pa pb pt pc = pc refl

later :
    (path result : Text) (longest : ℕ) (dir : Text) (dirs : List Text) (o : Text × ℕ)
    → (starts_with dir path ≡ true → length dir ≤ o.1)
    → IsLongest path result longest dirs o
    → IsLongest path result longest (dir ∷ dirs) o
later path result longest dir dirs o here (least, others, inl same) =
    (least, (here, others), inl same)
later path result longest dir dirs o here (least, others, inr (one, match, long)) =
    (least, (here, others), inr (inr one, match, long))

taken :
    (path result : Text) (longest : ℕ) (dir : Text) (dirs : List Text) (o : Text × ℕ)
    → starts_with dir path ≡ true
    → longest ≤ length dir
    → IsLongest path dir (length dir) dirs o
    → IsLongest path result longest (dir ∷ dirs) o
taken path result longest dir dirs o match enough (least, others, inr (one, match', long)) =
    (omega arith, (λ m. least, others), inr (inr one, match', long))
taken path result longest dir dirs o match enough (least, others, inl same) = (
  omega arith,
  (λ m. least, others),
  inr (
    inl (ap (λ x. x.0) same),
    ap (λ x. starts_with x.0 path) same ∙ match,
    ap (λ x. x.1) same ∙ sym (ap (λ x. length x.0) same),
  ),
)

find_mount-IsLongest :
    (path result : Text) (longest : ℕ) (dirs : List Text)
    → IsLongest path result longest dirs (find_mount path result longest dirs)
unfolding find_mount
find_mount-IsLongest path result longest [] = (omega arith, tt, inl refl)
find_mount-IsLongest path result longest (dir ∷ dirs) =
    let skip = find_mount path result longest dirs in
    let skip_good = find_mount-IsLongest path result longest dirs in
    choose (IsLongest path result longest (dir ∷ dirs)) (ltb (length path) (length dir))
      (ltb (length dir) longest) (starts_with dir path) skip (find_mount path dir (length dir) dirs)
      (λ long.
        later path result longest dir dirs skip
          (λ m. absurd (let short = starts_with-length dir path m in ground arith)) skip_good)
      (λ short.
        later path result longest dir dirs skip (λ m. let l = skip_good.0 in ground arith)
          skip_good)
      (λ enough m.
        taken path result longest dir dirs (find_mount path dir (length dir) dirs) m (ground arith)
          (find_mount-IsLongest path dir (length dir) dirs))
      (λ other. later path result longest dir dirs skip (λ m. absurd (cc (m, other))) skip_good)

-- A mount point that the path starts with and than which none such is longer; where none is found, the
-- path starts with no mount point but an empty one.
abbrev pub IsMountPoint : (path : Text) → (mounts : List Text) → Option Text → Type 0
IsMountPoint path mounts none = MatchesAtMost path 0 mounts
IsMountPoint path mounts (some r) =
    IsOneOf r mounts × (starts_with r path ≡ true) × MatchesAtMost path (length r) mounts

found-IsMountPoint :
    (is_none : Bool) (path : Text) (mounts : List Text) (result : Text) (longest : ℕ)
    → (longest == 0) ≡ is_none
    → IsLongest path [] 0 mounts (result, longest)
    → IsMountPoint path mounts (if is_none then none else some result)
found-IsMountPoint true path mounts result longest e (least, others, kept) =
    let zeroth : longest ≡ 0 = ground (arith, e) in
    subst (λ k. MatchesAtMost path k mounts) zeroth others
found-IsMountPoint false path mounts result longest e (least, others, inl same) =
    let zeroth : longest ≡ 0 = ap (λ x. x.1) same in absurd (ground (arith, e))
found-IsMountPoint false path mounts result longest e (least, others, inr (one, match, long)) =
    (one, match, subst (λ k. MatchesAtMost path k mounts) long others)

-- For any path and mounts: the result is one of the mounts' directories, the path starts with it, and
-- no directory that the path starts with is longer; there is no result only if the path starts with
-- no directory that is not empty.
pub mount_point_of-IsMountPoint :
    (path : Text) (mounts : List Text) → IsMountPoint path mounts (mount_point_of path mounts)
unfolding mount_point_of
mount_point_of-IsMountPoint path mounts =
    let (result, longest) = find_mount path [] 0 mounts in
    found-IsMountPoint (longest == 0) path mounts result longest refl
      (find_mount-IsLongest path [] 0 mounts)
