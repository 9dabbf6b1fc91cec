-- ===== src/Pci.antt =====
-- lib/common/nvme_pci.c and lib/common/nvme_pci.h: probing a PCI device and reading its serial number.
-- What libpciaccess and sysfs answer are parameters; an outer `none` is the use of a NULL pointer, or
-- fuel that ran out.
pub mod Text
pub mod Listed
pub mod Serial
mod Tests
use libnvme.Prelude.{
  ℕ, zero, suc, ◌+◌, ◌-◌, ◌*◌, ◌/◌, ◌%◌, ◌^◌, Bool, true, false, ◌&&◌, not, Option, none, some,
  List, [], ◌∷◌, ◌++◌, ltb, ◌==◌, if◌then◌else◌, ◌>>=◌,
}

-- The fields of libpciaccess's `struct pci_device` that the code reads
pub record PciDevice : Type 0 where
  pub domain : ℕ
  pub bus : ℕ
  pub dev : ℕ
  pub func : ℕ
  pub device_class : ℕ

-- NVME_PCI_CLASS
abbrev pub nvme_class : ℕ
nvme_class = 0x010802

-- nvme_pci_device_has_kernel_driver; `driver` is the length that readlink returns for the link of the
-- device, `none` for a failure.
unfoldable pub has_kernel_driver : (PciDevice → Option ℕ) → Option PciDevice → Option Bool
has_kernel_driver driver none = none
has_kernel_driver driver (some dev) = elim (driver dev) [
  | none ↦ some false
  | some len ↦ some (not (len == 0) && ltb len 256)
]

-- nvme_pci_device_probe: `next` is what the slot iterator finds, `probe` whether pci_device_probe
-- succeeds.
unfoldable pub device_probe :
    (PciDevice → Option ℕ) → Option PciDevice → (PciDevice → Bool) → Option (Option PciDevice)
unfolding has_kernel_driver
device_probe driver none probe = some none
device_probe driver (some dev) probe =
    let pci_dev = if dev.device_class == nvme_class then some dev else none in
    if probe dev
    then (has_kernel_driver driver pci_dev >>= λ bound. some (if bound then none else pci_dev))
    else some none

-- One digit of `%x`, as a character code.
unfoldable pub hex_digit : ℕ → ℕ
hex_digit d = if ltb d 10 then 48 + d else 87 + d

-- `%0nx` of a value that has at most n digits
unfoldable pub hex : ℕ → ℕ → List ℕ
unfolding hex_digit
hex zero v = []
hex (suc n) v = hex n (v / 16) ++ (hex_digit (v % 16) ∷ [])

-- `header & 0x0000ffff`, and `(header >> 20) & 0xffc` on 32 bits
abbrev pub cap_id : ℕ → ℕ
cap_id header = header % 2 ^ 16

abbrev pub next_cap : ℕ → ℕ
next_cap header = header / 2 ^ 20 % 4096 / 4 * 4

-- The two words of the capability at `pos`, the upper one printed first.
unfoldable pub read_serial : (ℕ → Option ℕ) → ℕ → Option (List ℕ)
read_serial cfg pos =
    cfg (pos + 4) >>= λ low. cfg (pos + 8) >>= λ high. some (hex 8 high ++ hex 8 low)

-- The loop of nvme_pci_device_get_serial_number: at most `fuel` capabilities. The inner `none` is -1.
unfoldable pub walk : ℕ → (ℕ → Option ℕ) → ℕ → ℕ → Option (Option (List ℕ))
walk zero cfg pos header = none
walk (suc fuel) cfg pos header =
    let next = next_cap header in
    let rest : Option (Option (List ℕ)) = elim (cfg next) [
      | none ↦ some none
      | some h ↦ walk fuel cfg next h
    ] in
    if cap_id header == 3 && not (pos == 0)
    then some (read_serial cfg pos)
    else if ltb next 256
    then some none
    else rest

-- nvme_pci_device_get_serial_number: `cfg` reads a word of the configuration space, `none` for a
-- failure.
unfoldable pub get_serial_number : ℕ → (ℕ → Option ℕ) → ℕ → Option (Option (List ℕ))
unfolding walk
get_serial_number fuel cfg len = if ltb len 17 then some none else elim (cfg 256) [
  | none ↦ some none
  | some header ↦ if header == 0 then some none else walk fuel cfg 256 header
]
