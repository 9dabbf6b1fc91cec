-- ===== src/Quirks/Tests.antt =====
-- The quirks of three devices.
use libnvme.Prelude.{ℕ, ◌≡◌, refl}
use libnvme.Quirks.{PciId, get_quirks, get_quirks_lem}

abbrev device : ℕ → ℕ → ℕ → ℕ → PciId
device v d sv sd = record { vendor_id = v; device_id = d; subvendor_id = sv; subdevice_id = sd }

memblaze_delays : get_quirks (device 0x1c5f 0x0540 0x1c5f 7) ≡ 4
unfolding get_quirks
memblaze_delays = refl

get_quirks_lem_example : get_quirks (device 0x8086 0x0953 0x8086 0x3704) ≡ 3
get_quirks_lem_example = get_quirks_lem (device 0x8086 0x0953 0x8086 0x3704)
