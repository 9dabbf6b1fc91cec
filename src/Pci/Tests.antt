-- ===== src/Pci/Tests.antt =====
-- A device with two extended capabilities, of which the second one is the serial number.
use libnvme.Prelude.{
  ℕ, ◌^◌, ◌<◌, ◌≡◌, refl, true, Option, none, some, List, [], ◌∷◌, ◌==◌, if◌then◌else◌, arith,
}
use libnvme.Pci.{PciDevice, device_probe, hex, read_serial, walk, get_serial_number}
use libnvme.Pci.Listed.{Ascending, IsResult}
use libnvme.Pci.Serial.{get_serial_number-IsResult}

abbrev cfg : ℕ → Option ℕ
cfg p =
    if p == 0x100
    then some 0x14010001
    else if p == 0x140
    then some 0x00010003
    else if p == 0x144
    then some 0xabcd0012
    else if p == 0x148
    then some 0x5cd2e4
    else none

abbrev device : ℕ → PciDevice
device class = record { domain = 0; bus = 1; dev = 0; func = 0; device_class = class }

-- "005cd2e4abcd0012"
reads_serial :
    get_serial_number 960 cfg 17
    ≡ some (
        some
          (48 ∷ 48 ∷ 53 ∷ 99 ∷ 100 ∷ 50 ∷ 101 ∷ 52 ∷ 97 ∷ 98 ∷ 99 ∷ 100 ∷ 48 ∷ 48 ∷ 49 ∷ 50 ∷ []))
unfolding get_serial_number walk read_serial hex
reads_serial = refl

cfg-words : (q w : ℕ) → cfg q ≡ some w → w < 2 ^ 32
cfg-words q w e = ground (arith, e)

cfg-Ascending : Ascending cfg
cfg-Ascending p header _ e _ far = ground (arith, e, far)

get_serial_number-IsResult_example :
    (r : Option (List ℕ)) × (get_serial_number 960 cfg 20 ≡ some r) × IsResult cfg 256 r
get_serial_number-IsResult_example =
    get_serial_number-IsResult cfg 20 cfg-words cfg-Ascending (omega arith)

-- A device of another class: the NULL pointer is passed on.
wrong_class : device_probe (λ _. none) (some (device 0x020000)) (λ _. true) ≡ none
unfolding device_probe
wrong_class = refl

probed :
    device_probe (λ _. none) (some (device 0x010802)) (λ _. true) ≡ some (some (device 0x010802))
unfolding device_probe
probed = refl
