-- ===== src/Ctrlr/Firmware.antt =====
-- nvme_ctrlr_update_firmware of lib/nvme/nvme_ctrlr.c: the image is sent in pieces of the smallest
-- page size of the controller, then committed, then the controller is reset.
use libnvme.Prelude.{
  ℕ, zero, suc, ◌+◌, ◌-◌, ◌%◌, ◌^◌, min, Option, none, some, List, ◌==◌, if◌then◌else◌, ◌>>=◌,
}
use libnvme.Types.{Ret, success, einval}
use libnvme.Admin.{is_success}
use libnvme.Admin.Commands.{admin_fw_image_dl, admin_fw_commit}
use libnvme.Ctrlr.{on_qpair}
use libnvme.Ctrlr.Init.{Look}
use libnvme.Ctrlr.Namespaces.{exec_of}
use libnvme.Ctrlr.Reset.{reset_ctrlr}
use libnvme.Ctrlr.State.{Ctrlr, Env}

-- The download loop: `fw` is the address of the rest of the image, which has `left` bytes. A page has
-- at least one byte, so as many rounds as bytes always suffice.
unfoldable pub download : Env → ℕ → ℕ → ℕ → ℕ → Ctrlr → Option (Ret × Ctrlr)
download e zero fw left offset c = if left == 0 then some (success, c) else none
download e (suc rounds) fw left offset c =
    let transfer = min left c.min_page_size in
    let round = on_qpair c 0 (admin_fw_image_dl (exec_of e) fw transfer offset) >>= λ r.
    let rest = download e rounds (fw + transfer) (left - transfer) (offset + transfer) (r.1) in
    if is_success (r.0) then rest else some r in
    if left == 0 then some (success, c) else round

-- NVME_FW_COMMIT_REPLACE_IMG is 0: the word of the commit is the slot, three bits wide.
abbrev fw_commit_word : ℕ → ℕ
fw_commit_word slot = slot % 8

unfoldable pub commit : Env → ℕ → List Look → ℕ → Ctrlr → Option (Ret × Ctrlr)
unfolding reset_ctrlr
commit e fuel looks slot c = do
  (ret, c1) ← on_qpair c 0 (admin_fw_commit (exec_of e) (fw_commit_word slot))
  let rest = reset_ctrlr e fuel looks c1
  if is_success ret then rest else some (ret, c1)

-- nvme_ctrlr_update_firmware; the number of bytes left is kept in 32 bits.
unfoldable pub update_firmware : Env → ℕ → List Look → ℕ → ℕ → ℕ → Ctrlr → Option (Ret × Ctrlr)
unfolding download commit
update_firmware e fuel looks fw size slot c =
    let run = download e (size % 2 ^ 32) fw (size % 2 ^ 32) 0 c >>= λ r.
    let rest = commit e fuel looks slot (r.1) in if is_success (r.0) then rest else some r in
    if size % 4 == 0 then run else some (einval, c)
