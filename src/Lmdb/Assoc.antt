-- ===== src/Lmdb/Assoc.antt =====
-- A database as an association list: the interface can be met.
use metal_fs.Base.{
  ℕ, ◌≡◌, refl, ◌≢◌, ◌↔◌, inl, inr, Bool, true, false, Option, none, some, List, [], ◌∷◌, arith,
  if◌then◌else◌, Option-cases,
}
use metal_fs.Lmdb.Order.{memcmp_lt, memcmp_irrefl, memcmp_asymm, memcmp_trans}

-- Equality of keys as a test.
pub record Key (K : Type 0) : Type 0 where
  pub eq : K → K → Bool
  pub eq_iff : (a b : K) → (eq a b ≡ true) ↔ (a ≡ b)

module _ {K V : Type 0} (key : Key K) where
  open key use {eq, eq_iff}

  unfoldable pub get : List (K × V) → K → Option V
  get [] k = none
  get ((j, v) ∷ d) k = if eq j k then some v else get d k

  pub get-empty : (k : K) → get [] k ≡ none
  unfolding get
  get-empty k = refl

  unfoldable pub del : List (K × V) → K → List (K × V)
  del [] k = []
  del ((j, v) ∷ d) k = if eq j k then del d k else (j, v) ∷ del d k

  pub get-del_self : (d : List (K × V)) (k : K) → get (del d k) k ≡ none
  unfolding get del
  get-del_self [] k = refl
  get-del_self ((j, v) ∷ d) k = ground (arith, get-del_self d k)

  pub get-del_ne : (d : List (K × V)) (k j : K) → k ≢ j → get (del d k) j ≡ get d j
  unfolding get del
  get-del_ne [] k j h = refl
  get-del_ne ((i, v) ∷ d) k j h = ground (arith, get-del_ne d k j, eq_iff i k, eq_iff i j)

  pub put : List (K × V) → K → V → List (K × V)
  put d k v = (k, v) ∷ del d k

  pub get-put_self : (d : List (K × V)) (k : K) (v : V) → get (put d k v) k ≡ some v
  unfolding get put
  get-put_self d k v = ground (arith, eq_iff k k)

  pub get-put_ne : (d : List (K × V)) (k j : K) (v : V) → k ≢ j → get (put d k v) j ≡ get d j
  unfolding get put
  get-put_ne d k j v h = ground (arith, eq_iff k j, get-del_ne d k j)

  module _ (bytes : K → List ℕ) where
    unfoldable pub keep_last : K → V → Option (K × V) → Option (K × V)
    keep_last k v none = some (k, v)
    keep_last k v (some (j, w)) = if memcmp_lt (bytes k) (bytes j) then some (j, w) else some (k, v)

    unfoldable pub last : List (K × V) → Option (K × V)
    unfolding keep_last
    last [] = none
    last ((k, v) ∷ d) = keep_last k v (last d)

    pub last_none : (d : List (K × V)) (j : K) → last d ≡ none → get d j ≡ none
    unfolding last get
    last_none [] j h = refl
    last_none ((k, v) ∷ d) j h = ground arith

    pub get-last : (d : List (K × V)) (k : K) (v : V) → last d ≡ some (k, v) → get d k ≡ some v
    unfolding last get
    get-last [] k v h = ground arith
    get-last ((j, w) ∷ d) k v h =
        ground (arith, get-last d k v, eq_iff j k, memcmp_irrefl (bytes k))

    pub last_max :
        (d : List (K × V)) (k j : K) (v w : V)
        → last d ≡ some (k, v)
        → get d j ≡ some w
        → memcmp_lt (bytes k) (bytes j) ≡ false
    unfolding last get
    last_max [] k j v w h g = ground arith
    last_max ((i, u) ∷ d) k j v w h g = elim (Option-cases (last d)) [
      | inl e ↦ ground (arith, e, last_none d j, eq_iff i j, memcmp_irrefl (bytes k))
      | inr ((m, x), e) ↦ ground (
        arith,
        e,
        last_max d m j x w,
        eq_iff i j,
        memcmp_irrefl (bytes k),
        memcmp_asymm (bytes i) (bytes m),
        memcmp_trans (bytes i) (bytes m) (bytes j),
      )
    ]

    unfoldable pub keep_first : K → V → Option (K × V) → Option (K × V)
    keep_first k v none = some (k, v)
    keep_first k v (some (j, w)) =
        if memcmp_lt (bytes j) (bytes k) then some (j, w) else some (k, v)

    -- The first entry behind `k`.
    unfoldable pub next : List (K × V) → K → Option (K × V)
    unfolding keep_first
    next [] k = none
    next ((j, v) ∷ d) k =
        if memcmp_lt (bytes k) (bytes j) then keep_first j v (next d k) else next d k

    pub next_before :
        (d : List (K × V)) (k j : K) (w : V)
        → next d k ≡ some (j, w)
        → memcmp_lt (bytes k) (bytes j) ≡ true
    unfolding next
    next_before [] k j w h = ground arith
    next_before ((i, v) ∷ d) k j w h = ground (arith, next_before d k j w)

    pub next_none :
        (d : List (K × V)) (k i : K) (u : V)
        → next d k ≡ none
        → get d i ≡ some u
        → memcmp_lt (bytes k) (bytes i) ≡ false
    unfolding next get
    next_none [] k i u h g = ground arith
    next_none ((j, v) ∷ d) k i u h g = ground (arith, next_none d k i u, eq_iff j i)

    pub get-next : (d : List (K × V)) (k j : K) (w : V) → next d k ≡ some (j, w) → get d j ≡ some w
    unfolding next get
    get-next [] k j w h = ground arith
    get-next ((i, v) ∷ d) k j w h =
        ground (arith, get-next d k j w, eq_iff i j, next_before d k j w, memcmp_irrefl (bytes j))

    pub next_least :
        (d : List (K × V)) (k j i : K) (w u : V)
        → next d k ≡ some (j, w)
        → get d i ≡ some u
        → memcmp_lt (bytes k) (bytes i) ≡ true
        → memcmp_lt (bytes i) (bytes j) ≡ false
    unfolding next get
    next_least [] k j i w u h g b = ground arith
    next_least ((m, v) ∷ d) k j i w u h g b = elim (Option-cases (next d k)) [
      | inl e ↦ ground (arith, e, next_none d k i u, eq_iff m i, memcmp_irrefl (bytes j))
      | inr ((n, x), e) ↦ ground (
        arith,
        e,
        next_least d k n i x u,
        eq_iff m i,
        memcmp_irrefl (bytes j),
        memcmp_asymm (bytes n) (bytes m),
        memcmp_trans (bytes i) (bytes n) (bytes m),
      )
    ]
