-- ===== src/Lmdb/Order.antt =====
-- `memcmp` on keys, and the bytes of a little-endian `uint64_t`.
use metal_fs.Base.{
  ℕ, zero, suc, ◌/◌, ◌%◌, ◌≡◌, refl, Bool, true, false, List, [], ◌∷◌, arith, ltb, if◌then◌else◌,
}

-- A shorter key that is a prefix comes first.
unfoldable pub memcmp_lt : List ℕ → List ℕ → Bool
memcmp_lt [] [] = false
memcmp_lt [] (y ∷ ys) = true
memcmp_lt (x ∷ xs) [] = false
memcmp_lt (x ∷ xs) (y ∷ ys) = if ltb x y then true else if ltb y x then false else memcmp_lt xs ys

-- The `n` low bytes of a number, the lowest first.
unfoldable pub le_bytes : ℕ → ℕ → List ℕ
le_bytes zero x = []
le_bytes (suc n) x = x % 256 ∷ le_bytes n (x / 256)

pub memcmp_irrefl : (a : List ℕ) → memcmp_lt a a ≡ false
unfolding memcmp_lt
memcmp_irrefl [] = refl
memcmp_irrefl (x ∷ xs) = ground (arith, memcmp_irrefl xs)

pub memcmp_asymm : (a b : List ℕ) → memcmp_lt a b ≡ true → memcmp_lt b a ≡ false
unfolding memcmp_lt
memcmp_asymm [] [] h = refl
memcmp_asymm [] (y ∷ ys) h = refl
memcmp_asymm (x ∷ xs) [] h = ground arith
memcmp_asymm (x ∷ xs) (y ∷ ys) h = ground (arith, memcmp_asymm xs ys)

-- Not being in front is transitive.
pub memcmp_trans :
    (a b c : List ℕ) → memcmp_lt a b ≡ false → memcmp_lt b c ≡ false → memcmp_lt a c ≡ false
unfolding memcmp_lt
memcmp_trans [] [] [] h k = refl
memcmp_trans [] [] (z ∷ zs) h k = ground arith
memcmp_trans [] (y ∷ ys) c h k = ground arith
memcmp_trans (x ∷ xs) [] [] h k = refl
memcmp_trans (x ∷ xs) [] (z ∷ zs) h k = ground arith
memcmp_trans (x ∷ xs) (y ∷ ys) [] h k = refl
memcmp_trans (x ∷ xs) (y ∷ ys) (z ∷ zs) h k = ground (arith, memcmp_trans xs ys zs)

pub memcmp_lt_trans :
    (a b c : List ℕ) → memcmp_lt a b ≡ true → memcmp_lt b c ≡ true → memcmp_lt a c ≡ true
unfolding memcmp_lt
memcmp_lt_trans [] [] c h k = ground arith
memcmp_lt_trans [] (y ∷ ys) [] h k = ground arith
memcmp_lt_trans [] (y ∷ ys) (z ∷ zs) h k = refl
memcmp_lt_trans (x ∷ xs) [] c h k = ground arith
memcmp_lt_trans (x ∷ xs) (y ∷ ys) [] h k = ground arith
memcmp_lt_trans (x ∷ xs) (y ∷ ys) (z ∷ zs) h k = ground (arith, memcmp_lt_trans xs ys zs)
