-- ===== src/Driver/Operators/Reads.antt =====
-- Reading a program in the directory of the operators.
use metal_fs.Base.{
  ℕ, zero, suc, ◌+◌, ◌-◌, ◌^◌, ◌≤◌, ◌<◌, ◌≡◌, refl, sym, ap, ◌∙◌, subst, ◌⊎◌, inl, inr, true,
  Option, none, some, List, [], ◌∷◌, arith, ltb, if◌then◌else◌, Bool-cases, length, get_elem?,
}
use metal_fs.Driver.Combined.{Text}
use metal_fs.Driver.Files.{replies, crashed, Stat, as_int}
use metal_fs.Driver.Operators.{
  is_operator, copied, copied_length, program_stat, or_crash, fuse_getattr, fuse_read,
}
use metal_fs.Fs.Types.{sub64}

-- The bytes from an offset on.
abbrev pub IsSlice : (offset len : ℕ) → (bytes part : List ℕ) → Type 0
IsSlice offset len bytes part =
    (length part ≡ len) × ((i : ℕ) → i < len → get_elem? part i ≡ get_elem? bytes (offset + i))

more_of :
    (b : ℕ) (part bytes : List ℕ) (n i : ℕ)
    → ((j : ℕ) → j < n → get_elem? part j ≡ get_elem? bytes (0 + j))
    → i < suc n
    → get_elem? (b ∷ part) i ≡ get_elem? (b ∷ bytes) (0 + i)
more_of b part bytes n zero all k = refl
more_of b part bytes n (suc j) all k =
    let start : 0 + j ≡ j = omega arith in
    let next : suc j ≡ 0 + suc j = omega arith in
    all j (omega arith) ∙ ap (get_elem? bytes) start ∙ ap (get_elem? (b ∷ bytes)) next

step_on :
    (offset b : ℕ) (bytes : List ℕ) (i : ℕ)
    → get_elem? bytes (offset + i) ≡ get_elem? (b ∷ bytes) (suc offset + i)
step_on offset b bytes i =
    let next : suc (offset + i) ≡ suc offset + i = omega arith in ap (get_elem? (b ∷ bytes)) next

copied-IsSlice :
    (offset len : ℕ) (bytes : List ℕ)
    → offset + len ≤ length bytes
    → (part : List ℕ) × (copied offset len bytes ≡ some part) × IsSlice offset len bytes part
unfolding copied
copied-IsSlice offset zero bytes h = ([], refl, (refl, λ i k. absurd (omega arith)))
copied-IsSlice offset (suc n) [] h = absurd (omega arith)
copied-IsSlice zero (suc n) (b ∷ bytes) h =
    let (part, same, (long, all)) = copied-IsSlice zero n bytes (omega arith) in
    (b ∷ part, rw same refl, (ap suc long, λ i k. more_of b part bytes n i all k))
copied-IsSlice (suc offset) (suc n) (b ∷ bytes) h =
    let (part, same, (long, all)) = copied-IsSlice offset (suc n) bytes (omega arith) in
    (part, same, (long, λ i k. all i k ∙ step_on offset b bytes i))

copied-none :
    (offset n : ℕ) (bytes : List ℕ) → length bytes < offset → copied offset (suc n) bytes ≡ none
unfolding copied
copied-none zero n bytes h = absurd (omega arith)
copied-none (suc offset) n [] h = refl
copied-none (suc offset) n (b ∷ bytes) h = copied-none offset n bytes (omega arith)

module _ (binary : List ℕ) (ops : List Text) (d : ℕ) (name : Text) where
  -- Up to the end of the program, its attributes give its size, and a read as many of its bytes as
  -- there are and are wanted; from behind its end, a read reads memory that is not the program's.
  abbrev pub IsReadAt : (size offset : ℕ) → (stbuf : Stat) → Type 0
  IsReadAt size offset stbuf =
      ((offset ≤ length binary)
        × (fuse_getattr binary ops (47 ∷ d ∷ name) stbuf
            ≡ replies ops (program_stat (length binary)))
        × ((part : List ℕ) × (fuse_read binary ops (47 ∷ d ∷ name) size offset
              ≡ replies ops (as_int (length part), part))
            × IsSlice offset
                (if ltb (length binary - offset) size then length binary - offset else size) binary
                part))
      ⊎ ((length binary < offset) × (fuse_read binary ops (47 ∷ d ∷ name) size offset ≡ crashed))

  within :
      (size offset : ℕ)
      → offset ≤ length binary
      → length binary < 2 ^ 64
      → copied_length size offset (length binary)
        ≡ (if ltb (length binary - offset) size then length binary - offset else size)
  unfolding copied_length
  within size offset h small =
      let rest : sub64 (length binary) offset ≡ length binary - offset = omega arith in rw rest refl

  behind_end :
      (size offset : ℕ)
      → length binary < offset
      → offset < 2 ^ 64
      → 0 < size
      → (n : ℕ) × (copied_length size offset (length binary) ≡ suc n)
  unfolding copied_length
  behind_end size offset h small some_bytes =
      let wrapped : 0 < sub64 (length binary) offset = omega arith in
      (copied_length size offset (length binary) - 1, ground arith)

  read_listed :
      (size offset : ℕ) (part : Option (List ℕ))
      → is_operator ops (d ∷ name) ≡ true
      → copied offset (copied_length size offset (length binary)) binary ≡ part
      → fuse_read binary ops (47 ∷ d ∷ name) size offset
        ≡ or_crash binary ops (copied_length size offset (length binary)) part
  unfolding fuse_read
  read_listed size offset part listed e = rw (listed, e) refl

  stat_listed :
      (stbuf : Stat)
      → is_operator ops (d ∷ name) ≡ true
      → fuse_getattr binary ops (47 ∷ d ∷ name) stbuf ≡ replies ops (program_stat (length binary))
  unfolding fuse_getattr
  stat_listed stbuf listed = rw listed refl

  -- For a name that is listed, of at least one byte, and a program of less than 2 ^ 64 bytes, at any
  -- offset below 2 ^ 64 and for any size but 0: up to the program's end, `fuse_getattr` gives the
  -- program's size, and `fuse_read` the bytes of the program from the offset on, as many as are
  -- wanted or left; from an offset behind the end, `fuse_read` reads behind the program.
  pub fuse_read-IsReadAt :
      (size offset : ℕ) (stbuf : Stat)
      → is_operator ops (d ∷ name) ≡ true
      → length binary < 2 ^ 64
      → offset < 2 ^ 64
      → 0 < size
      → IsReadAt size offset stbuf
  fuse_read-IsReadAt size offset stbuf listed small low some_bytes =
      elim (Bool-cases (ltb (length binary) offset)) [
        | inl e ↦
            let beyond : length binary < offset = ground arith in
            let (n, more) = behind_end size offset beyond low some_bytes in
            inr (
              beyond,
              read_listed size offset none listed (rw more (copied-none offset n binary beyond)),
            )
        | inr e ↦
            let there : offset ≤ length binary = ground arith in
            let len = copied_length size offset (length binary) in
            let exact = within size offset there small in
            let fits : offset + len ≤ length binary = rw exact (ground arith) in
            let (part, same, (long, all)) = copied-IsSlice offset len binary fits in
            inl (
              there,
              stat_listed stbuf listed,
              (
                part,
                read_listed size offset (some part) listed same
                    ∙ ap (λ k. replies ops (as_int k, part)) (sym long),
                subst (λ k. IsSlice offset k binary part) exact (long, all),
              ),
            )
      ]
