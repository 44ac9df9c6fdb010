-- ===== src/Fs/Tiling.antt =====
-- What it means that extents cover a storage of `blocks` blocks, each block once, and what the
-- changes of extent.c do to it. A layout says which extent starts at a block.
use metal_fs.Base.{
  ℕ, ◌+◌, ◌≤◌, ◌<◌, ◌≡◌, ◌≢◌, ◌⊎◌, inl, inr, true, Option, none, some, arith, ◌==◌, if◌then◌else◌,
  Option-cases, is_some,
}
use metal_fs.Fs.Types.{Extent}

abbrev pub Layout : Type 0
Layout = ℕ → Option Extent

unfoldable pub update : Layout → ℕ → Option Extent → Layout
update g k x j = if k == j then x else g j

pub update_self : (g : Layout) (k : ℕ) (x : Option Extent) → update g k x k ≡ x
unfolding update
update_self g k x = ground arith

pub update_ne : (g : Layout) (k j : ℕ) (x : Option Extent) → k ≢ j → update g k x j ≡ g j
unfolding update
update_ne g k j x ne = ground arith

pub record IsTiling (blocks : ℕ) (g : Layout) : Type 0 where
  pub start : is_some (g 0) ≡ true
  pub inside : (o : ℕ) (e : Extent) → g o ≡ some e → (0 < e.length) × (o + e.length ≤ blocks)
  pub follow :
      (o : ℕ) (e : Extent)
      → g o ≡ some e
      → (o + e.length ≡ blocks) ⊎ (is_some (g (o + e.length)) ≡ true)
  pub apart :
      (o : ℕ) (e : Extent) (p : ℕ) (f : Extent)
      → g o ≡ some e
      → g p ≡ some f
      → o < p
      → o + e.length ≤ p

module _ {blocks : ℕ} {g : Layout} (t : IsTiling blocks g) (o : ℕ) (e : Extent)
    (at : g o ≡ some e) where
  -- An extent may change all but its length.
  pub relabel : (e' : Extent) → e'.length ≡ e.length → IsTiling blocks (update g o (some e'))
  unfolding update
  relabel e' same = record {
    start = ground (arith, t.start);
    inside = λ p f h. ground (arith, t.inside p f, t.inside o e);
    follow = λ p f h. ground (arith, t.follow p f, t.follow o e);
    apart = λ p f q f' h k lt. ground (arith, t.apart p f q f', t.apart o e q f', t.apart p f o e);
  }

  -- An extent may fall into two.
  pub split :
      (e' r : Extent)
      → 0 < e'.length
      → 0 < r.length
      → e'.length + r.length ≡ e.length
      → IsTiling blocks (update (update g (o + e'.length) (some r)) o (some e'))
  unfolding update
  split e' r pos pos' sum = record {
    start = ground (arith, t.start);
    inside = λ p f h. ground (arith, t.inside p f, t.inside o e);
    follow = λ p f h. ground (arith, t.follow p f, t.follow o e);
    apart = λ p f q f' h k lt.
        ground (arith, t.apart p f q f', t.apart o e q f', t.apart p f o e, t.apart o e p f);
  }

  -- An extent may take in the one behind it.
  pub join :
      (n e' : Extent)
      → g (o + e.length) ≡ some n
      → e'.length ≡ e.length + n.length
      → IsTiling blocks (update (update g (o + e.length) none) o (some e'))
  unfolding update
  join n e' behind sum = record {
    start = ground (arith, t.start, t.inside o e);
    inside = λ p f h. ground (arith, t.inside p f, t.inside o e, t.inside (o + e.length) n);
    follow = λ p f h. ground (
      arith,
      t.follow p f,
      t.follow (o + e.length) n,
      t.inside o e,
      t.inside (o + e.length) n,
      t.apart p f o e,
      t.apart o e p f,
      t.inside p f,
    );
    apart = λ p f q f' h k lt. ground (
      arith,
      t.apart p f q f',
      t.apart (o + e.length) n q f',
      t.apart p f o e,
      t.apart o e p f,
      t.apart o e q f',
      t.inside o e,
    );
  }

  -- Taking in an extent that does not start at the end leaves no tiling.
  pub join_apart :
      (p : ℕ) (n e' : Extent)
      → g p ≡ some n
      → p ≢ o
      → p ≢ o + e.length
      → e'.length ≡ e.length + n.length
      → ¬ IsTiling blocks (update (update g p none) o (some e'))
  unfolding update
  join_apart p n e' there ne far sum u = elim (Option-cases (g (o + e.length))) [
    | inl gap ↦ ground (arith, t.follow o e, t.inside o e, t.inside p n, u.inside o e')
    | inr (m, next) ↦ ground (arith, t.inside o e, t.inside p n, u.apart o e' (o + e.length) m)
  ]

  -- Moving two extents onto a third one behind them leaves no tiling.
  pub pile_up :
      (p r : ℕ) (n m m' : Extent)
      → g p ≡ some n
      → g r ≡ some m
      → o < r
      → p < r
      → m'.length ≡ e.length + n.length + m.length
      → ¬ IsTiling blocks (update (update (update g p none) o none) r (some m'))
  unfolding update
  pile_up p r n m m' there third lt lt' sum u = elim (Option-cases (g (r + m.length))) [
    | inl gap ↦ ground (arith, t.follow r m, t.inside o e, t.inside p n, u.inside r m')
    | inr (x, next) ↦ ground (arith, t.inside o e, t.inside r m, u.apart r m' (r + m.length) x)
  ]
