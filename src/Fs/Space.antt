-- ===== src/Fs/Space.antt =====
-- The extents together with the heap of the free ones: the invariant of extent.c, and the changes
-- that keep it. A queue says which value the heap holds under a node.
use mathlib.Core.Path.{fun_ext}
use metal_fs.Base.{
  ℕ, ◌+◌, ◌<◌, ◌≡◌, refl, subst, Bool, true, false, ◌&&◌, Option, none, some, arith, ◌==◌,
  if◌then◌else◌,
}
use metal_fs.Fs.Types.{NodeId, free, is_free, Extent}
use metal_fs.Fs.Tiling.{Layout, update, IsTiling, relabel, split, join}

abbrev pub Queue : Type 0
Queue = NodeId → Option ℕ

abbrev pub same_node : NodeId → NodeId → Bool
same_node a b = (a.k == b.k) && (a.v == b.v)

unfoldable pub enqueue : Queue → NodeId → Option ℕ → Queue
enqueue q n x m = if same_node n m then x else q m

-- The heap node of a free extent of `len` blocks at `o`.
abbrev pub node : ℕ → ℕ → NodeId
node len o = record { k = len; v = o }

abbrev pub free_at : ℕ → ℕ → Extent
free_at len o = record { length = len; status = free; pq_node = node len o }

-- The extents tile the storage, and the heap holds exactly the free ones.
pub record IsConsistent (blocks : ℕ) (g : Layout) (q : Queue) : Type 0 where
  pub tiling : IsTiling blocks g
  pub queued :
      (o : ℕ) (e : Extent)
      → g o ≡ some e
      → is_free e.status ≡ true
      → (e ≡ free_at e.length o) × (q (node e.length o) ≡ some o)
  pub listed : (n : NodeId) (o : ℕ) → q n ≡ some o → (n.v ≡ o) × (g o ≡ some (free_at n.k o))

-- Of two changes at the same block the later counts.
shadow :
    (g : Layout) (o p : ℕ) (x y z : Option Extent)
    → update (update (update g o x) p y) o z ≡ update (update g p y) o z
unfolding update
shadow g o p x y z = fun_ext λ j. ground arith

module _ {blocks : ℕ} {g : Layout} {q : Queue} (c : IsConsistent blocks g q) where
  -- A free extent is taken whole.
  pub take_whole :
      (o : ℕ) (n : NodeId) (e : Extent)
      → q n ≡ some o
      → is_free e.status ≡ false
      → e.length ≡ n.k
      → IsConsistent blocks (update g o (some e)) (enqueue q n none)
  unfolding update enqueue
  take_whole o n e at used len = record {
    tiling = relabel c.tiling o (free_at n.k o) (c.listed n o at).1 e len;
    queued = λ p f h k. ground (arith, c.queued p f, c.listed n o);
    listed = λ m p h. ground (arith, c.listed m p, c.listed n o);
  }

  -- A free extent falls into a used front and a free rest.
  pub take_part :
      (o : ℕ) (n : NodeId) (e : Extent) (rest : ℕ)
      → q n ≡ some o
      → is_free e.status ≡ false
      → 0 < e.length
      → 0 < rest
      → e.length + rest ≡ n.k
      → IsConsistent blocks
          (update (update g (o + e.length) (some (free_at rest (o + e.length)))) o (some e))
          (enqueue (enqueue q n none) (node rest (o + e.length)) (some (o + e.length)))
  unfolding update enqueue
  take_part o n e rest at used pos pos' sum = record {
    tiling =
        split c.tiling o (free_at n.k o) (c.listed n o at).1 e (free_at rest (o + e.length)) pos
          pos' sum;
    queued = λ p f h k. ground (arith, c.queued p f, c.listed n o);
    listed = λ m p h. ground (
      arith,
      c.listed m p,
      c.listed n o,
      c.tiling.apart o (free_at n.k o) (o + e.length) (free_at m.k (o + e.length)),
    );
  }

  module _ (o : ℕ) (e : Extent) (at : g o ≡ some e) (used : is_free e.status ≡ false) where
    -- A used extent becomes free.
    pub give_back :
        IsConsistent blocks
          (update g o (some (free_at e.length o)))
          (enqueue q (node e.length o) (some o))
    unfolding update enqueue
    give_back = record {
      tiling = relabel c.tiling o e at (free_at e.length o) refl;
      queued = λ p f h k. ground (arith, c.queued p f);
      listed = λ m p h. ground (arith, c.listed m p);
    }

    -- A used extent becomes free, together with the free one behind it.
    pub give_back_joined :
        (n : Extent)
        → g (o + e.length) ≡ some n
        → is_free n.status ≡ true
        → IsConsistent blocks
            (update (update g (o + e.length) none) o (some (free_at (e.length + n.length) o)))
            (enqueue (enqueue q n.pq_node none) (node (e.length + n.length) o) (some o))
    unfolding update enqueue
    give_back_joined n behind unused = record {
      tiling = join c.tiling o e at n (free_at (e.length + n.length) o) behind refl;
      queued = λ p f h k. ground (arith, c.queued p f, c.queued (o + e.length) n);
      listed = λ m p h. ground (arith, c.listed m p, c.queued (o + e.length) n);
    }

    -- A used extent takes the front of the free one behind it.
    pub take_front :
        (n e' : Extent) (rest : ℕ)
        → g (o + e.length) ≡ some n
        → is_free n.status ≡ true
        → is_free e'.status ≡ false
        → 0 < e'.length
        → 0 < rest
        → e'.length + rest ≡ e.length + n.length
        → IsConsistent blocks
            (update
              (update
                (update g (o + e.length) none)
                (o + e'.length)
                (some (free_at rest (o + e'.length))))
              o
              (some e'))
            (enqueue (enqueue q n.pq_node none) (node rest (o + e'.length)) (some (o + e'.length)))
    unfolding update enqueue
    take_front n e' rest behind unused used' pos pos' sum =
        let joined : Extent = record e { length = e.length + n.length } in
        let whole : IsTiling blocks (update (update g (o + e.length) none) o (some joined)) =
          join c.tiling o e at n joined behind refl in
        let here : update (update g (o + e.length) none) o (some joined) o ≡ some joined =
          ground arith in
        record {
          tiling =
              subst (IsTiling blocks)
                (shadow (update g (o + e.length) none) o (o + e'.length) (some joined)
                  (some (free_at rest (o + e'.length))) (some e'))
                (split whole o joined here e' (free_at rest (o + e'.length)) pos pos' sum);
          queued = λ p f h k. ground (arith, c.queued p f, c.queued (o + e.length) n);
          listed = λ m p h. ground (
            arith,
            c.listed m p,
            c.queued (o + e.length) n,
            c.tiling.apart o e p (free_at m.k p),
            c.tiling.apart p (free_at m.k p) (o + e.length) n,
            c.tiling.apart (o + e.length) n p (free_at m.k p),
          );
        }
