-- ===== src/Quirks.antt =====
-- lib/nvme/nvme_quirks.c: the table of device quirks and the look-up by PCI identifiers.
-- NVME_PCI_ANY_ID is 0xffff, NVME_PCI_VID_INTEL 0x8086 and NVME_PCI_VID_MEMBLAZE 0x1c5f.
mod Tests
use libnvme.Prelude.{
  ℕ, ◌≡◌, refl, Bool, true, false, ◌&&◌, ◌||◌, Bool-cases, inl, inr, List, [], ◌∷◌, ◌==◌,
  if◌then◌else◌, arith,
}

-- struct pci_id, and what is read of struct pci_device
pub record PciId : Type 0 where
  pub vendor_id : ℕ
  pub device_id : ℕ
  pub subvendor_id : ℕ
  pub subdevice_id : ℕ

-- struct nvme_quirk
pub record Quirk : Type 0 where
  pub id : PciId
  pub flags : ℕ

-- A field of the table, which NVME_PCI_ANY_ID makes match everything.
abbrev field_match : ℕ → ℕ → Bool
field_match in_table found = in_table == 0xffff || in_table == found

-- nvme_quirks_pci_id_match
unfoldable pub pci_id_match : PciId → PciId → Bool
pci_id_match id pdev =
    field_match id.vendor_id pdev.vendor_id
    && field_match id.device_id pdev.device_id
    && field_match id.subvendor_id pdev.subvendor_id
    && field_match id.subdevice_id pdev.subdevice_id

-- An Intel device 0x0953, whose subsystem is Intel's too.
abbrev intel_0953 : ℕ → ℕ → Quirk
intel_0953 subdevice_id flags = record {
  id = record {
    vendor_id = 0x8086;
    device_id = 0x0953;
    subvendor_id = 0x8086;
    subdevice_id = subdevice_id;
  };
  flags = flags;
}

abbrev memblaze_0540 : Quirk
memblaze_0540 = record {
  id = record {
    vendor_id = 0x1c5f;
    device_id = 0x0540;
    subvendor_id = 0xffff;
    subdevice_id = 0xffff;
  };
  flags = 4;
}

abbrev last_quirk : Quirk
last_quirk = record {
  id = record { vendor_id = 0; device_id = 0; subvendor_id = 0; subdevice_id = 0 };
  flags = 0;
}

-- nvme_quirks: 1 and 2 are the read and write latency quirks, 4 is the delay before CSTS.RDY is
-- checked, and 8 the delay after it was set.
unfoldable pub quirks : List Quirk
quirks =
    intel_0953 0x3702 3
    ∷ intel_0953 0x3703 3
    ∷ intel_0953 0x3704 3
    ∷ intel_0953 0x3705 3
    ∷ intel_0953 0x3709 3
    ∷ intel_0953 0x370a 3
    ∷ memblaze_0540
    ∷ intel_0953 0x370d 8
    ∷ last_quirk
    ∷ []

-- nvme_ctrlr_get_quirks: the loop ends at an entry without a vendor.
unfoldable pub find_quirk : List Quirk → PciId → ℕ
unfolding pci_id_match
find_quirk [] pdev = 0
find_quirk (quirk ∷ rest) pdev =
    let later = find_quirk rest pdev in
    if quirk.id.vendor_id == 0 then 0 else if pci_id_match quirk.id pdev then quirk.flags else later

unfoldable pub get_quirks : PciId → ℕ
unfolding find_quirk quirks
get_quirks pdev = find_quirk quirks pdev

-- An Intel device 0x0953 of Intel with one of the subsystems that lack the latency pages.
abbrev pub has_latency_quirk : PciId → Bool
has_latency_quirk p =
    p.vendor_id == 0x8086
    && p.device_id == 0x0953
    && p.subvendor_id == 0x8086
    && (p.subdevice_id == 0x3702
        || p.subdevice_id == 0x3703
        || p.subdevice_id == 0x3704
        || p.subdevice_id == 0x3705
        || p.subdevice_id == 0x3709
        || p.subdevice_id == 0x370a)

abbrev pub has_delay_after : PciId → Bool
has_delay_after p =
    p.vendor_id == 0x8086
    && p.device_id == 0x0953
    && p.subvendor_id == 0x8086
    && p.subdevice_id == 0x370d

-- The quirks of a device are decided by its identifiers alone: the two latency quirks for an Intel
-- device 0x0953 of Intel with one of six subsystems, the delay after for a seventh one, the delay
-- before for any Memblaze device 0x0540, and no quirk for every other device.
pub get_quirks_lem :
    (p : PciId)
    → get_quirks p ≡ (
        if has_latency_quirk p
        then 3
        else if p.vendor_id == 0x1c5f && p.device_id == 0x0540
        then 4
        else if has_delay_after p
        then 8
        else 0)
unfolding get_quirks
get_quirks_lem p = ground arith
