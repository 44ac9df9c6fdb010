-- ===== src/Fpga/Streams/Store.antt =====
-- A write of a stream that ends before the range does.
use metal_fs.Base.{
  ℕ, ◌+◌, ◌≤◌, ◌||◌, ◌≡◌, refl, ap, subst, inl, inr, Bool, true, false, ◌&&◌, Option, none, some,
  List, [], ◌∷◌, arith, ◌==◌, if◌then◌else◌, Bool-cases, length, length-append, ◌++◌,
}
use metal_fs.Fpga.Types.{Element}
use metal_fs.Fpga.Streams.{
  NvmeCommand, is_nvme, NvmeRun, after_nvme, nothing_more, write_command, write_nvme_data,
}

-- The NVMe elements that hold nothing.
unfoldable pub empty_elements : List Element → ℕ
empty_elements [] = 0
empty_elements (e ∷ es) = (if is_nvme e.type && (e.size == 0) then 1 else 0) + empty_elements es

unfoldable pub nvme_elements : List Element → ℕ
nvme_elements [] = 0
nvme_elements (e ∷ es) = (if is_nvme e.type then 1 else 0) + nvme_elements es

-- The elements up to the first that is the last of its range.
unfoldable pub up_to_last : List Element → List Element
up_to_last [] = []
up_to_last (e ∷ es) = let rest = up_to_last es in e ∷ (if e.last then [] else rest)

-- A run over these elements, where the commands do not suffice for the responses.
abbrev pub Lacks : List Element → NvmeRun → Type 0
Lacks es r =
    (r.passed ≡ es)
    × (r.responses ≡ nvme_elements es)
    × (r.responses ≡ length r.commands + empty_elements es)

-- A run that ends is such a run.
abbrev MayLack : List Element → Option NvmeRun → Type 0
MayLack es none = Unit {0}
MayLack es (some r) = Lacks es r

after_nvme-MayLack :
    (e : Element) (es : List Element) (cs : List NvmeCommand) (o : Option NvmeRun)
    → MayLack es o
    → (length cs + (if is_nvme e.type && (e.size == 0) then 1 else 0)
        ≡ (if is_nvme e.type then 1 else 0))
    → MayLack (e ∷ es) (after_nvme e cs o)
unfolding empty_elements nvme_elements
after_nvme-MayLack e es cs none later one = tt
after_nvme-MayLack e es cs (some s) (passed, responses, commands) one =
    let total = length-append cs s.commands in
    (ap (λ xs. e ∷ xs) passed, ground (arith, responses), ground (arith, total, commands, one))

one_response :
    (e : Element) (x : ℕ)
    → is_nvme e.type ≡ true
    → length (write_command e x) + (if is_nvme e.type && (e.size == 0) then 1 else 0)
      ≡ (if is_nvme e.type then 1 else 0)
one_response e x n = ground arith

no_response :
    (e : Element)
    → is_nvme e.type ≡ false
    → 0 + (if is_nvme e.type && (e.size == 0) then 1 else 0) ≡ (if is_nvme e.type then 1 else 0)
no_response e n = ground arith

-- The end of a stage, or the run on the later elements.
last_or :
    (b : Bool) (es : List Element) (o : Option NvmeRun)
    → MayLack es o
    → MayLack (if b then [] else es) (if b then some nothing_more else o)
unfolding empty_elements nvme_elements
last_or true es o later = (refl, refl, refl)
last_or false es o later = later

write_nvme_data-MayLack :
    (es : List Element) (queue : List ℕ) → MayLack (up_to_last es) (write_nvme_data es queue)
unfolding write_nvme_data up_to_last
write_nvme_data-MayLack [] queue = tt
write_nvme_data-MayLack (e ∷ es) [] = elim (Bool-cases (is_nvme e.type)) [
  | inl n ↦ rw n tt
  | inr n ↦ rw n (
      after_nvme-MayLack e _ [] _ (last_or e.last (up_to_last es) _ (write_nvme_data-MayLack es []))
        (no_response e n))
]
write_nvme_data-MayLack (e ∷ es) (x ∷ queue) = elim (Bool-cases (is_nvme e.type)) [
  | inl n ↦ rw n (
      after_nvme-MayLack e _ (write_command e x) _
        (last_or e.last (up_to_last es) _ (write_nvme_data-MayLack es queue)) (one_response e x n))
  | inr n ↦ rw n (
      after_nvme-MayLack e _ [] _
        (last_or e.last (up_to_last es) _ (write_nvme_data-MayLack es (x ∷ queue)))
        (no_response e n))
]

-- Whether an element is the last of its range.
unfoldable pub has_last : List Element → Bool
has_last [] = false
has_last (e ∷ es) = e.last || has_last es

after_nvme-ends :
    (e : Element) (cs : List NvmeCommand) (b : Bool) (o : Option NvmeRun)
    → (b ≡ false → (s : NvmeRun) × (o ≡ some s))
    → (r : NvmeRun) × (after_nvme e cs (if b then some nothing_more else o) ≡ some r)
after_nvme-ends e cs true o later = (_, refl)
after_nvme-ends e cs false o later =
    let (s, same) = later refl in
    (
      record {
        passed = e ∷ s.passed;
        commands = cs ++ s.commands;
        responses = if is_nvme e.type then s.responses + 1 else s.responses;
      },
      ap (after_nvme e cs) same,
    )

or_later : (a b : Bool) → (a || b) ≡ true → a ≡ false → b ≡ true
or_later true b h k = cc k
or_later false b h k = h

fewer_left :
    (b : Bool) (es : List Element) (n k : ℕ)
    → n + nvme_elements (if b then [] else es) ≤ k
    → b ≡ false
    → n + nvme_elements es ≤ k
fewer_left true es n k h e = cc e
fewer_left false es n k h e = h

write_nvme_data-ends :
    (es : List Element) (queue : List ℕ)
    → has_last es ≡ true
    → nvme_elements (up_to_last es) ≤ length queue
    → (r : NvmeRun) × (write_nvme_data es queue ≡ some r)
unfolding write_nvme_data up_to_last has_last nvme_elements
write_nvme_data-ends [] queue last enough = cc last
write_nvme_data-ends (e ∷ es) [] last enough = elim (Bool-cases (is_nvme e.type)) [
  | inl n ↦ absurd (ground (arith, n, enough))
  | inr n ↦ rw n (
      after_nvme-ends e [] e.last (write_nvme_data es []) (λ more.
        write_nvme_data-ends es [] (or_later e.last (has_last es) last more)
          (omega (arith, fewer_left e.last (up_to_last es) 0 0 (rw n at enough) more))))
]
write_nvme_data-ends (e ∷ es) (x ∷ queue) last enough = elim (Bool-cases (is_nvme e.type)) [
  | inl n ↦ rw n (
      after_nvme-ends e (write_command e x) e.last (write_nvme_data es queue) (λ more.
        let left : 1 + nvme_elements (up_to_last es) ≤ length (x ∷ queue) =
          fewer_left e.last (up_to_last es) 1 (length (x ∷ queue)) (rw n at enough) more in
        write_nvme_data-ends es queue (or_later e.last (has_last es) last more)
          (omega (arith, left))))
  | inr n ↦ rw n (
      after_nvme-ends e [] e.last (write_nvme_data es (x ∷ queue)) (λ more.
        write_nvme_data-ends es (x ∷ queue) (or_later e.last (has_last es) last more) (
          omega (
            arith,
            fewer_left e.last (up_to_last es) 0 (length (x ∷ queue)) (rw n at enough) more,
          ))))
]

-- With an element that is the last of its range, and an address in the queue for each NVMe element
-- up to it, `write_nvme_data` ends, having handled the elements up to the first such; it has waited
-- for one response of the NVMe controller for each NVMe element of these, but has given it a command
-- just for those that are not empty: the commands are fewer than the responses by the number of
-- empty NVMe elements.
pub write_nvme_data-Lacks :
    (es : List Element) (queue : List ℕ)
    → has_last es ≡ true
    → nvme_elements (up_to_last es) ≤ length queue
    → (r : NvmeRun) × (write_nvme_data es queue ≡ some r) × Lacks (up_to_last es) r
write_nvme_data-Lacks es queue last enough =
    let (r, h) = write_nvme_data-ends es queue last enough in
    (r, h, subst (MayLack (up_to_last es)) h (write_nvme_data-MayLack es queue))
