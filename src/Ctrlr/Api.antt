-- ===== src/Ctrlr/Api.antt =====
-- The calls of lib/nvme/nvme_ctrlr.c that run admin commands for the user, under the lock of the
-- controller: features, and the namespace management that is followed by a reset.
use libnvme.Prelude.{ℕ, Bool, Option, none, some, List, if◌then◌else◌, ◌>>=◌}
use libnvme.Types.{Qpair, Ret}
use libnvme.Admin.{is_success}
use libnvme.Admin.Commands.{
  admin_get_feature, admin_set_feature, admin_attach_ns, admin_detach_ns, admin_create_ns,
  admin_delete_ns, admin_format_nvm,
}
use libnvme.Ctrlr.{on_qpair}
use libnvme.Ctrlr.Init.{Look}
use libnvme.Ctrlr.Namespaces.{exec_of}
use libnvme.Ctrlr.Reset.{reset_ctrlr}
use libnvme.Ctrlr.State.{Ctrlr, Env}

-- What a call returns with the attributes of a feature, or an identifier.
abbrev with_value :
    Ctrlr → (Qpair → Option (Ret × Option ℕ × Qpair)) → Option ((Ret × Option ℕ) × Ctrlr)
with_value c f = on_qpair c 0 (λ q. f q >>= λ (r : Ret × Option ℕ × Qpair). some ((r.0, r.1), r.2))

-- nvme_ctrlr_get_feature and nvme_ctrlr_set_feature
unfoldable pub ctrlr_get_feature : Env → ℕ → ℕ → ℕ → Ctrlr → Option ((Ret × Option ℕ) × Ctrlr)
ctrlr_get_feature e sel feature cdw11 c =
    with_value c (admin_get_feature (exec_of e) sel feature cdw11)

unfoldable pub ctrlr_set_feature :
    Env → Bool → ℕ → ℕ → ℕ → Ctrlr → Option ((Ret × Option ℕ) × Ctrlr)
ctrlr_set_feature e save feature cdw11 cdw12 c =
    with_value c (admin_set_feature (exec_of e) save feature cdw11 cdw12)

-- A command of the admin queue that is followed by a reset where it succeeds.
abbrev then_reset :
    Env → ℕ → List Look → Ctrlr → (Qpair → Option (Ret × Qpair)) → Option (Ret × Ctrlr)
then_reset e fuel looks c f = on_qpair c 0 f >>= λ (r : Ret × Ctrlr).
    let rest = reset_ctrlr e fuel looks (r.1) in if is_success (r.0) then rest else some r

unfoldable pub ctrlr_attach_ns : Env → ℕ → List Look → ℕ → ℕ → Ctrlr → Option (Ret × Ctrlr)
ctrlr_attach_ns e fuel looks nsid clist c =
    then_reset e fuel looks c (admin_attach_ns (exec_of e) nsid clist)

unfoldable pub ctrlr_detach_ns : Env → ℕ → List Look → ℕ → ℕ → Ctrlr → Option (Ret × Ctrlr)
ctrlr_detach_ns e fuel looks nsid clist c =
    then_reset e fuel looks c (admin_detach_ns (exec_of e) nsid clist)

-- nvme_ctrlr_create_ns returns the identifier of the namespace, or 0.
abbrev nsid_of : Ret → Option ℕ → ℕ
nsid_of ret none = 0
nsid_of ret (some nsid) = if is_success ret then nsid else 0

unfoldable pub ctrlr_create_ns : Env → ℕ → Ctrlr → Option (ℕ × Ctrlr)
ctrlr_create_ns e nsdata c =
    with_value c (admin_create_ns (exec_of e) nsdata) >>= λ (r : (Ret × Option ℕ) × Ctrlr).
    some (nsid_of (r.0.0) (r.0.1), r.1)

unfoldable pub ctrlr_delete_ns : Env → ℕ → List Look → ℕ → Ctrlr → Option (Ret × Ctrlr)
ctrlr_delete_ns e fuel looks nsid c = then_reset e fuel looks c (admin_delete_ns (exec_of e) nsid)

-- `format` is the structure as the word that is copied to cdw10.
unfoldable pub ctrlr_format_ns : Env → ℕ → List Look → ℕ → ℕ → Ctrlr → Option (Ret × Ctrlr)
ctrlr_format_ns e fuel looks nsid format c =
    then_reset e fuel looks c (admin_format_nvm (exec_of e) nsid format)
