-- ===== src/Driver/Combined/Dispatch.antt =====
-- Which handler gets a call.
use metal_fs.Base.{
  ℕ, ◌≤◌, ◌<◌, ◌≡◌, refl, sym, ap, ◌∙◌, subst, inl, inr, true, false, Option, none, some, [], ◌∷◌,
  ◌++◌, arith, if◌then◌else◌, Bool-cases, Option-cases, length,
}
use metal_fs.Lmdb.Order.{memcmp_lt, memcmp_lt_trans}
use metal_fs.Fs.Directory.Listing.{eq_bytes, eq_bytes_iff}
use metal_fs.Driver.Combined.{
  Text, chown_call, getattr_call, readlink_call, open_call, release_call, unlink_call, rmdir_call,
  readdir_call, create_call, mkdir_call, read_call, write_call, truncate_call, forwards,
  forwards_rename, starts_with, substr, root_path, or_slash, Handlers, add_handler, resolve_handler,
  dispatch, fuse_chown, fuse_getattr, fuse_readdir, fuse_create, fuse_readlink, fuse_open,
  fuse_read, fuse_release, fuse_truncate, fuse_write, fuse_unlink, fuse_mkdir, fuse_rmdir,
  fuse_rename,
}

substr-append : (p path : Text) → starts_with p path ≡ true → p ++ substr p path ≡ path
unfolding starts_with
substr-append [] path h = refl
substr-append (c ∷ p) [] h = ground arith
substr-append (c ∷ p) (d ∷ path) h = ground (arith, substr-append p path)

-- Of two prefixes of a path, the one that comes first is the shorter.
shorter_first :
    (p q path : Text)
    → starts_with p path ≡ true
    → starts_with q path ≡ true
    → memcmp_lt p q ≡ true
    → length p < length q
unfolding starts_with memcmp_lt
shorter_first [] [] path h k lt = ground arith
shorter_first [] (c ∷ q) path h k lt = omega arith
shorter_first (c ∷ p) [] path h k lt = ground arith
shorter_first (c ∷ p) (d ∷ q) [] h k lt = ground arith
shorter_first (c ∷ p) (d ∷ q) (e ∷ path) h k lt = ground (arith, shorter_first p q path)

differ :
    (p q path : Text)
    → starts_with p path ≡ false
    → starts_with q path ≡ true
    → eq_bytes p q ≡ false
differ p q path h k = elim (Bool-cases (eq_bytes p q)) [
  | inl m ↦ cc (h, k, (eq_bytes_iff p q).0 m)
  | inr m ↦ m
]

module _ {H : Type 0} where
  -- Each prefix is in front of the later ones.
  unfoldable pub Below : Text → Handlers H → Type 0
  Below p [] = Unit {0}
  Below p ((q, x) ∷ hs) = (memcmp_lt p q ≡ true) × Below p hs

  -- The order of a `std::map`.
  unfoldable pub IsSorted : Handlers H → Type 0
  unfolding Below
  IsSorted [] = Unit {0}
  IsSorted ((p, x) ∷ hs) = Below p hs × IsSorted hs

  pub find : Handlers H → Text → Option H
  unfolding eq_bytes
  find [] p = none
  find ((q, x) ∷ hs) p = if eq_bytes q p then some x else find hs p

  add_handler-Below :
      (hs : Handlers H) (q p : Text) (h : H)
      → Below q hs
      → memcmp_lt q p ≡ true
      → Below q (add_handler hs p h)
  unfolding Below add_handler
  add_handler-Below [] q p h b lt = (lt, tt)
  add_handler-Below ((r, x) ∷ hs) q p h (b, bs) lt = elim (Bool-cases (memcmp_lt p r)) [
    | inl e ↦ rw e (lt, (b, bs))
    | inr e ↦ elim (Bool-cases (memcmp_lt r p)) [
      | inl k ↦ rw (e, k) (b, add_handler-Below hs q p h bs lt)
      | inr k ↦ rw (e, k) (b, bs)
    ]
  ]

  Below-trans : (hs : Handlers H) (p q : Text) → memcmp_lt p q ≡ true → Below q hs → Below p hs
  unfolding Below
  Below-trans [] p q lt b = tt
  Below-trans ((r, x) ∷ hs) p q lt (b, bs) = (memcmp_lt_trans p q r lt b, Below-trans hs p q lt bs)

  -- Registering a handler keeps the order of the prefixes.
  add_handler-IsSorted :
      (hs : Handlers H) (p : Text) (h : H) → IsSorted hs → IsSorted (add_handler hs p h)
  unfolding IsSorted add_handler Below
  add_handler-IsSorted [] p h s = (tt, tt)
  add_handler-IsSorted ((r, x) ∷ hs) p h (b, s) = elim (Bool-cases (memcmp_lt p r)) [
    | inl e ↦ rw e ((e, Below-trans hs p r e b), (b, s))
    | inr e ↦ elim (Bool-cases (memcmp_lt r p)) [
      | inl k ↦ rw (e, k) (add_handler-Below hs r p h b k, add_handler-IsSorted hs p h s)
      | inr k ↦ rw (e, k) (b, s)
    ]
  ]

  Below-shorter :
      (hs : Handlers H) (p q path : Text) (y : H)
      → Below p hs
      → starts_with p path ≡ true
      → starts_with q path ≡ true
      → find hs q ≡ some y
      → length p ≤ length q
  unfolding Below find
  Below-shorter [] p q path y b h k f = ground arith
  Below-shorter ((r, x) ∷ hs) p q path y (b, bs) h k f = elim (Bool-cases (eq_bytes r q)) [
    | inl e ↦
        let same = (eq_bytes_iff r q).0 e in
        omega (arith, shorter_first p q path h k (subst (λ w. memcmp_lt p w ≡ true) same b))
    | inr e ↦ Below-shorter hs p q path y bs h k (ground (arith, f, e))
  ]

  -- What the handler of a path is among the handlers.
  abbrev pub IsShortest : Handlers H → Text → Option (Text × H) → Type 0
  IsShortest hs path none = (q : Text) (y : H) → find hs q ≡ some y → starts_with q path ≡ false
  IsShortest hs path (some (p, x)) =
      (find hs p ≡ some x)
      × (starts_with p path ≡ true)
      × ((q : Text) (y : H) → find hs q ≡ some y → starts_with q path ≡ true → length p ≤ length q)

  none-IsShortest :
      (hs : Handlers H) (path : Text) → resolve_handler hs path ≡ none → IsShortest hs path none
  unfolding resolve_handler find
  none-IsShortest [] path e q y f = ground arith
  none-IsShortest ((r, x) ∷ hs) path e q y f = elim (Bool-cases (eq_bytes r q)) [
    | inl k ↦
        let missed : starts_with r path ≡ false = ground (arith, e) in
        subst (λ w. starts_with w path ≡ false) ((eq_bytes_iff r q).0 k) missed
    | inr k ↦ none-IsShortest hs path (ground (arith, e)) q y (ground (arith, f, k))
  ]

  some-IsShortest :
      (hs : Handlers H) (path p : Text) (x : H)
      → IsSorted hs
      → resolve_handler hs path ≡ some (p, x)
      → IsShortest hs path (some (p, x))
  unfolding resolve_handler find IsSorted
  some-IsShortest [] path p x s e = ground arith
  some-IsShortest ((r, z) ∷ hs) path p x (b, s) e = elim (Bool-cases (starts_with r path)) [
    | inl k ↦
        let key : r ≡ p = ground (arith, e, k) in
        let value : z ≡ x = ground (arith, e, k) in
        (
          ground (arith, (eq_bytes_iff r p).1 key, value),
          subst (λ w. starts_with w path ≡ true) key k,
          λ q y f h. elim (Bool-cases (eq_bytes r q)) [
            | inl m ↦ omega (arith, ap length key, ap length ((eq_bytes_iff r q).0 m))
            | inr m ↦
                omega
                  (arith, ap length key, Below-shorter hs r q path y b k h (ground (arith, f, m)))
          ],
        )
    | inr k ↦
        let (found, starts, least) = some-IsShortest hs path p x s (ground (arith, e, k)) in
        let other : eq_bytes r p ≡ false = differ r p path k starts in
        (
          ground (arith, found, other),
          starts,
          λ q y f h. elim (Bool-cases (eq_bytes r q)) [
            | inl m ↦ cc (differ r q path k h, m)
            | inr m ↦ least q y (ground (arith, f, m)) h
          ],
        )
  ]

  -- With the prefixes in order, the handler that gets a path is the one with the shortest prefix
  -- that the path starts with, and there is none only where the path starts with no prefix.
  pub resolve_handler-IsShortest :
      (hs : Handlers H) (path : Text) → IsSorted hs → IsShortest hs path (resolve_handler hs path)
  resolve_handler-IsShortest hs path s = elim (Option-cases (resolve_handler hs path)) [
    | inl e ↦ subst (IsShortest hs path) (sym e) (none-IsShortest hs path e)
    | inr ((p, x), e) ↦ subst (IsShortest hs path) (sym e) (some-IsShortest hs path p x s e)
  ]

  -- A call with a path, other than the root, that a handler takes is passed on to that handler with
  -- the rest of the path, whichever call it is; only a listing turns an empty rest into the root.
  calls-forward :
      (hs : Handlers H) (path p : Text) (x : H) (n k : ℕ)
      → resolve_handler hs path ≡ some (p, x)
      → eq_bytes path root_path ≡ false
      → let rest = substr p path in
        (fuse_chown hs path n k ≡ forwards x (chown_call n k) rest)
        × (fuse_getattr hs path ≡ forwards x getattr_call rest)
        × (fuse_readdir hs path n ≡ forwards x (readdir_call n) (or_slash rest))
        × (fuse_create hs path n ≡ forwards x (create_call n) rest)
        × (fuse_readlink hs path ≡ forwards x readlink_call rest)
        × (fuse_open hs path ≡ forwards x open_call rest)
        × (fuse_read hs path n k ≡ forwards x (read_call n k) rest)
        × (fuse_release hs path ≡ forwards x release_call rest)
        × (fuse_truncate hs path n ≡ forwards x (truncate_call n) rest)
        × (fuse_write hs path n k ≡ forwards x (write_call n k) rest)
        × (fuse_unlink hs path ≡ forwards x unlink_call rest)
        × (fuse_mkdir hs path n ≡ forwards x (mkdir_call n) rest)
        × (fuse_rmdir hs path ≡ forwards x rmdir_call rest)
  unfolding dispatch fuse_chown fuse_getattr fuse_readdir fuse_create fuse_readlink fuse_open
      fuse_read fuse_release fuse_truncate fuse_write fuse_unlink fuse_mkdir fuse_rmdir
  calls-forward hs path p x n k e h =
      rw (e, h, fuse_readdir)
        (refl, refl, refl, refl, refl, refl, refl, refl, refl, refl, refl, refl, refl)

  -- With the prefixes in order, a rename is passed on to a handler only with both paths below the
  -- prefix of that handler, and with what stands behind the prefix.
  pub fuse_rename-split :
      (hs : Handlers H) (from to from' to' : Text) (x : H)
      → IsSorted hs
      → fuse_rename hs from to ≡ forwards_rename x from' to'
      → (p : Text) × (find hs p ≡ some x) × (from ≡ p ++ from') × (to ≡ p ++ to')
  unfolding fuse_rename
  fuse_rename-split hs from to from' to' x s e = elim (Option-cases (resolve_handler hs from)) [
    | inl m ↦ ground (arith, e, m)
    | inr ((p, y), m) ↦ elim (Bool-cases (starts_with p to)) [
      | inl k ↦
          let (found, starts, least) = some-IsShortest hs from p y s m in
          let handler : y ≡ x = ground (arith, e, m, k) in
          let front : substr p from ≡ from' = ground (arith, e, m, k) in
          let back : substr p to ≡ to' = ground (arith, e, m, k) in
          (
            p,
            found ∙ ap some handler,
            sym (substr-append p from starts) ∙ ap (λ w. p ++ w) front,
            sym (substr-append p to k) ∙ ap (λ w. p ++ w) back,
          )
      | inr k ↦ ground (arith, e, m, k)
    ]
  ]
