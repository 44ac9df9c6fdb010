-- ===== src/Fpga/Transfer/Supply.antt =====
-- The elements of a transfer and the addresses for the NVMe controller that go with them.
use metal_fs.Base.{
  ℕ, zero, suc, ◌+◌, ◌/◌, ◌≡◌, refl, ap, ◌∙◌, subst, inl, inr, Bool, true, false, Option, none,
  some, List, [], ◌∷◌, ltb, Bool-cases, length,
}
use metal_fs.Fpga.Types.{
  storage_block_size, AddressType, MapType, unmapped, dram_map, nvme_map, dram_and_nvme, Address,
  Element, TransferType,
}
use metal_fs.Fpga.Transfer.{
  Maps, seek_maps, translate, append_some, Issued, prepend, issue_loop, issue_partial_transfers,
}

-- Where a translation gives an address for the NVMe controller.
abbrev pub has_nvme : MapType → Bool
has_nvme unmapped = false
has_nvme dram_map = false
has_nvme nvme_map = true
has_nvme dram_and_nvme = true

unfoldable pub AllOf : AddressType → List Element → Type 0
AllOf type [] = Unit {0}
AllOf type (e ∷ es) = (e.type ≡ type) × AllOf type es

-- The elements have the type of the transfer, and each has its address for the NVMe controller if
-- the extents are mapped there.
unfoldable pub IsSupplied : Address → Issued → Type 0
IsSupplied a r =
    AllOf a.type r.elements
    × (has_nvme a.map_type ≡ true → length r.nvme_transfers ≡ length r.elements)

translate-has_nvme :
    (t : TransferType) (mt : MapType) (c i : ℕ) (m : Maps) (xs : List ℕ)
    → has_nvme mt ≡ true
    → length (append_some (translate t mt c i m).1 xs) ≡ suc (length xs)
unfolding translate
translate-has_nvme t unmapped c i m xs h = cc
translate-has_nvme t dram_map c i m xs h = cc
translate-has_nvme t nvme_map c i m xs h = refl
translate-has_nvme t dram_and_nvme c i m xs h = refl

abbrev or_default : {A : Type 0} → A → Option A → A
or_default d none = d
or_default d (some a) = a

nothing_issued :
    (a : Address) (m : Maps)
    → IsSupplied a (record { elements = []; nvme_transfers = []; maps = m })
unfolding IsSupplied AllOf
nothing_issued a m = (tt, λ n. refl)

prepend-IsSupplied :
    (a : Address) (e : Element) (x : Option ℕ) (o : Option Issued) (r : Issued)
    → e.type ≡ a.type
    → ((xs : List ℕ) → has_nvme a.map_type ≡ true → length (append_some x xs) ≡ suc (length xs))
    → ((s : Issued) → o ≡ some s → IsSupplied a s)
    → prepend e x o ≡ some r
    → IsSupplied a r
unfolding IsSupplied AllOf
prepend-IsSupplied a e x none r type more later h = cc
prepend-IsSupplied a e x (some s) r type more later h =
    let (types, count) = later s refl in
    let front : Issued = record {
      elements = e ∷ s.elements;
      nvme_transfers = append_some x s.nvme_transfers;
      maps = s.maps;
    } in
    let supplied : IsSupplied a front =
      ((type, types), λ n. more s.nvme_transfers n ∙ ap suc (count n)) in
    subst (IsSupplied a) (ap (or_default r) h) supplied

issue_loop-IsSupplied :
    (n : ℕ) (t : TransferType) (a : Address) (transferred : ℕ) (m : Maps) (r : Issued)
    → issue_loop n t a transferred m ≡ some r
    → IsSupplied a r
unfolding issue_loop
issue_loop-IsSupplied zero t a transferred m r h = cc
issue_loop-IsSupplied (suc n) t a transferred m r h = elim (Bool-cases (ltb transferred a.size)) [
  | inr b ↦ subst (IsSupplied a) (ap (or_default r) (rw b at h)) (nothing_issued a m)
  | inl b ↦
      prepend-IsSupplied a _ _ _ r refl (translate-has_nvme t a.map_type _ _ m)
        (issue_loop-IsSupplied n t a _ _) (rw b at h)
]

-- The elements that `issue_partial_transfers` gives have the type of the transfer, and with extents
-- mapped to the NVMe storage there is one address for its controller for each element.
pub issue_partial_transfers-IsSupplied :
    (t : TransferType) (a : Address) (m : Maps) (r : Issued)
    → issue_partial_transfers t a m ≡ some r
    → IsSupplied a r
unfolding issue_partial_transfers
issue_partial_transfers-IsSupplied t a m r h =
    issue_loop-IsSupplied (a.size / storage_block_size + 3) t a 0 (seek_maps a m) r h
