-- ===== src/Pci/Ids.antt =====
-- The search for a card by its identifiers.
use pine_os.Base.{
  ℕ, suc, ◌≡◌, ◌≢◌, ◌⊎◌, inl, inr, refl, false, ◌&&◌, Option, none, some, List, [], ◌∷◌, ◌==◌,
  get_elem?, take, Bool-cases, arith,
}
use pine_os.Pci.{PciDevice, Pci}
use pine_os.Pci.Listing.{find_id, pci_find_device}

-- what is searched for
abbrev pub HasIds : ℕ → ℕ → PciDevice → Type 0
HasIds v i d = (d.vendor_id ≡ v) × (d.device_id ≡ i)

-- none of a list has them
abbrev pub NoneHas : ℕ → ℕ → List PciDevice → Type 0
NoneHas v i [] = Unit {0}
NoneHas v i (d ∷ l) = ((d.vendor_id ≢ v) ⊎ (d.device_id ≢ i)) × NoneHas v i l

-- the first one that has them, at place `k`, or none
abbrev pub FirstOf : ℕ → ℕ → List PciDevice → Option PciDevice → Type 0
FirstOf v i l o =
    ((o ≡ none) × NoneHas v i l)
    ⊎ ((d : PciDevice) × (k : ℕ) × (o ≡ some d)
        × (get_elem? l k ≡ some d)
        × HasIds v i d
        × NoneHas v i (take k l))

misses :
    (d : PciDevice) (v i : ℕ)
    → (d.vendor_id == v && d.device_id == i) ≡ false
    → (d.vendor_id ≢ v) ⊎ (d.device_id ≢ i)
misses d v i n = elim (Bool-cases (d.vendor_id == v)) [
  | inl y ↦ inr (ground arith)
  | inr m ↦ inl (ground arith)
]

find_id-FirstOf : (v i : ℕ) (l : List PciDevice) → FirstOf v i l (find_id v i l)
unfolding find_id
find_id-FirstOf v i [] = inl (refl, tt)
find_id-FirstOf v i (d ∷ l) = elim (Bool-cases (d.vendor_id == v && d.device_id == i)) [
  | inl y ↦ rw y (inr (d, 0, refl, refl, (ground arith, ground arith), tt))
  | inr n ↦ elim (find_id-FirstOf v i l) [
    | inl (e, rest) ↦ rw n (inl (e, (misses d v i n, rest)))
    | inr (c, k, e, at, ids, rest) ↦ rw n (inr (c, suc k, e, at, ids, (misses d v i n, rest)))
  ]
]

-- `pci_find_device` gives the first device of the table with the vendor and the device that are
-- asked for, or the null pointer if no device of the table has both.
pci_find_device-FirstOf :
    {W : Type 0} (v i : ℕ) (s : Pci W) → FirstOf v i s.devices (pci_find_device v i s)
unfolding pci_find_device
pci_find_device-FirstOf v i s = find_id-FirstOf v i s.devices
