-- ===== src/Pci/Found.antt =====
-- What the enumeration of kernel-core/src/pci.rs visits, and what the searches find.
use open_kernel.Prelude.{
  ℕ, zero, suc, ◌+◌, ◌≤◌, ◌<◌, ◌≡◌, ◌⊎◌, inl, inr, refl, sym, ◌∙◌, true, Option, none, some, List,
  [], ◌∷◌, ◌++◌, Option-cases, ℕ_discrete, arith,
}
use open_kernel.Pci.{
  PciDevice, AhciController, Config, read_device, is_multifunction, functions_from, visits,
  devices_from, buses_from, enumerate, visit_all, visit_ahci, find_ahci_controller,
}

-- A device is in a list of visits.
abbrev pub Among : PciDevice → List PciDevice → Type 0
Among d [] = ⊥
Among d (x ∷ xs) = (x ≡ d) ⊎ Among d xs

Among-append :
    (d : PciDevice) (xs ys : List PciDevice) → Among d xs ⊎ Among d ys → Among d (xs ++ ys)
Among-append d [] ys (inl h) = absurd h
Among-append d [] ys (inr h) = h
Among-append d (x ∷ xs) ys (inl (inl e)) = inl e
Among-append d (x ∷ xs) ys (inl (inr h)) = inr (Among-append d xs ys (inl h))
Among-append d (x ∷ xs) ys (inr h) = inr (Among-append d xs ys (inr h))

Among-functions_from :
    (c : Config) (bus device function n f : ℕ) (d : PciDevice)
    → function ≤ f
    → f < function + n
    → read_device c bus device f ≡ some d
    → Among d (functions_from c bus device function n)
unfolding functions_from
Among-functions_from c bus device function zero f d lo hi e = absurd (omega arith)
Among-functions_from c bus device function (suc n) f d lo hi e = elim (ℕ_discrete f function) [
  | yes at ↦
      let here : read_device c bus device function ≡ some d = rw (← at) e in
      rw (here, functions_from) (inl refl)
  | no ne ↦
      let rest =
        Among-functions_from c bus device (function + 1) n f d (omega arith) (omega arith) e in
      elim (Option-cases (read_device c bus device function)) [
        | inl absent ↦ rw (absent, functions_from) rest
        | inr (found, there) ↦ rw (there, functions_from) (inr rest)
      ]
]

Among-visits :
    (c : Config) (bus device f : ℕ) (d zero_ : PciDevice)
    → f < 8
    → read_device c bus device 0 ≡ some zero_
    → (f ≡ 0) ⊎ (is_multifunction c bus device ≡ true)
    → read_device c bus device f ≡ some d
    → Among d (visits c bus device)
unfolding visits
Among-visits c bus device f d zero_ h z m e = elim (ℕ_discrete f 0) [
  | yes at ↦ let same : some zero_ ≡ some d = sym z ∙ (rw at at e) in rw (z, visits) (inl cc)
  | no ne ↦ elim m [
    | inl at ↦ absurd (ne at)
    | inr several ↦
        rw (z, several, visits)
          (inr (Among-functions_from c bus device 1 7 f d (omega arith) (omega arith) e))
  ]
]

Among-devices_from :
    (c : Config) (bus device n i : ℕ) (d : PciDevice)
    → device ≤ i
    → i < device + n
    → Among d (visits c bus i)
    → Among d (devices_from c bus device n)
unfolding devices_from
Among-devices_from c bus device zero i d lo hi a = absurd (omega arith)
Among-devices_from c bus device (suc n) i d lo hi a = elim (ℕ_discrete i device) [
  | yes at ↦ Among-append d (visits c bus device) _ (inl (rw (← at) a))
  | no ne ↦
      Among-append d (visits c bus device) _
        (inr (Among-devices_from c bus (device + 1) n i d (omega arith) (omega arith) a))
]

Among-buses_from :
    (c : Config) (bus n i : ℕ) (d : PciDevice)
    → bus ≤ i
    → i < bus + n
    → Among d (devices_from c i 0 32)
    → Among d (buses_from c bus n)
unfolding buses_from
Among-buses_from c bus zero i d lo hi a = absurd (omega arith)
Among-buses_from c bus (suc n) i d lo hi a = elim (ℕ_discrete i bus) [
  | yes at ↦ Among-append d (devices_from c bus 0 32) _ (inl (rw (← at) a))
  | no ne ↦
      Among-append d (devices_from c bus 0 32) _
        (inr (Among-buses_from c (bus + 1) n i d (omega arith) (omega arith) a))
]

-- Every device that answers is visited: function zero where it answers, and the functions up to
-- seven where function zero answers and says that the device has several.
pub enumerate-finds :
    (c : Config) (bus device f : ℕ) (d function_zero : PciDevice)
    → bus < 256
    → device < 32
    → f < 8
    → read_device c bus device 0 ≡ some function_zero
    → (f ≡ 0) ⊎ (is_multifunction c bus device ≡ true)
    → read_device c bus device f ≡ some d
    → Among d (enumerate c)
unfolding enumerate
enumerate-finds c bus device f d function_zero hb hd hf z m e =
    Among-buses_from c 0 256 bus d (omega arith) (omega arith) (
      Among-devices_from c bus 0 32 device d (omega arith) (omega arith)
        (Among-visits c bus device f d function_zero hf z m e))

-- What makes a device an AHCI controller: its class, and a register that is not zero.
abbrev pub as_ahci : Config → PciDevice → Option AhciController
as_ahci c d = visit_ahci c none d

-- The first device of a list that passes.
unfoldable pub first_some : {A : Type 0} → (PciDevice → Option A) → List PciDevice → Option A
first_some f [] = none
first_some f (d ∷ ds) = let rest = first_some f ds in elim (f d) [ some a ↦ some a | none ↦ rest ]

ahci-kept :
    (c : Config) (found : AhciController) (ds : List PciDevice)
    → visit_all (visit_ahci c) (some found) ds ≡ some found
unfolding visit_all
ahci-kept c found [] = refl
ahci-kept c found (d ∷ ds) = ahci-kept c found ds

ahci-next :
    (c : Config) (o : Option AhciController) (ds : List PciDevice)
    → visit_all (visit_ahci c) none ds ≡ first_some (as_ahci c) ds
    → visit_all (visit_ahci c) o ds ≡ elim o as (λ _. Option AhciController) [
      | some a ↦ some a
      | none ↦ first_some (as_ahci c) ds
    ]
ahci-next c (some found) ds e = ahci-kept c found ds
ahci-next c none ds e = e

ahci-first :
    (c : Config) (ds : List PciDevice)
    → visit_all (visit_ahci c) none ds ≡ first_some (as_ahci c) ds
unfolding visit_all first_some
ahci-first c [] = refl
ahci-first c (d ∷ ds) = ahci-next c (visit_ahci c none d) ds (ahci-first c ds)

-- The search returns the first controller in the order of the enumeration.
pub find_ahci_controller-first :
    (c : Config) → find_ahci_controller c ≡ first_some (as_ahci c) (enumerate c)
unfolding find_ahci_controller
find_ahci_controller-first c = ahci-first c (enumerate c)
