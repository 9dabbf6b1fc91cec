-- ===== src/Admin/Commands.antt =====
-- lib/nvme/nvme_admin.c: the words of the admin commands. Each function of the source fills one of
-- these commands and executes it; `cdw0` of the completion is what the features return.
use Prim.Native.Nat.{bit_or}
use libnvme.Prelude.{
  ℕ, ◌+◌, ◌-◌, ◌*◌, ◌/◌, ◌%◌, ◌^◌, Bool, Option, none, some, if◌then◌else◌, ◌>>=◌,
}
use libnvme.Types.{Cmd, zero_cmd, Qpair, Ret}
use libnvme.Admin.{is_success, AdminResult}

-- Executing an admin command: nvme_admin_exec_cmd with its buffer and length.
abbrev pub Exec : Type 0
Exec = Cmd → Option ℕ → ℕ → Qpair → Option AdminResult

pub data IoQueueType : Type 0 where
  submission_queue : IoQueueType
  completion_queue : IoQueueType

-- The command of nvme_admin_identify_ctrlr
unfoldable pub identify_ctrlr_cmd : Cmd
identify_ctrlr_cmd = record zero_cmd { opc = 0x06; cdw10 = 1 }

unfoldable pub get_feature_cmd : ℕ → ℕ → ℕ → Cmd
get_feature_cmd sel feature cdw11 = record zero_cmd {
  opc = 0x0a;
  cdw10 = bit_or (sel * 2 ^ 8 % 2 ^ 32) feature;
  cdw11 = cdw11;
}

unfoldable pub set_feature_cmd : Bool → ℕ → ℕ → ℕ → Cmd
set_feature_cmd save feature cdw11 cdw12 = record zero_cmd {
  opc = 0x09;
  cdw10 = if save then bit_or feature (2 ^ 31) else feature;
  cdw11 = cdw11;
  cdw12 = cdw12;
}

-- What the queue commands read of a queue pair.
pub record IoQueue : Type 0 where
  pub id : ℕ
  pub entries : ℕ
  pub qprio : ℕ
  pub cmd_bus_addr : ℕ
  pub cpl_bus_addr : ℕ

-- `((entries - 1) << 16) | id`
abbrev pub size_and_id : IoQueue → ℕ
size_and_id q = bit_or ((q.entries + 2 ^ 32 - 1) * 2 ^ 16 % 2 ^ 32) q.id

unfoldable pub create_ioq_cmd : IoQueue → IoQueueType → Cmd
create_ioq_cmd q submission_queue = record zero_cmd {
  opc = 0x01;
  cdw10 = size_and_id q;
  cdw11 = bit_or (bit_or (q.id * 2 ^ 16 % 2 ^ 32) (q.qprio * 2)) 1;
  prp1 = q.cmd_bus_addr;
}
create_ioq_cmd q completion_queue = record zero_cmd {
  opc = 0x05;
  cdw10 = size_and_id q;
  cdw11 = 1;
  prp1 = q.cpl_bus_addr;
}

unfoldable pub delete_ioq_cmd : ℕ → IoQueueType → Cmd
delete_ioq_cmd id submission_queue = record zero_cmd { opc = 0x00; cdw10 = id }
delete_ioq_cmd id completion_queue = record zero_cmd { opc = 0x04; cdw10 = id }

unfoldable pub identify_ns_cmd : ℕ → Cmd
identify_ns_cmd nsid = record zero_cmd { opc = 0x06; cdw10 = 0; nsid = nsid }

unfoldable pub attach_ns_cmd : ℕ → Cmd
attach_ns_cmd nsid = record zero_cmd { opc = 0x15; nsid = nsid; cdw10 = 0 }

unfoldable pub detach_ns_cmd : ℕ → Cmd
detach_ns_cmd nsid = record zero_cmd { opc = 0x15; nsid = nsid; cdw10 = 1 }

unfoldable pub create_ns_cmd : Cmd
create_ns_cmd = record zero_cmd { opc = 0x0d; cdw10 = 0 }

unfoldable pub delete_ns_cmd : ℕ → Cmd
delete_ns_cmd nsid = record zero_cmd { opc = 0x0d; cdw10 = 1; nsid = nsid }

-- `format` is the structure as the word that is copied to cdw10.
unfoldable pub format_nvm_cmd : ℕ → ℕ → Cmd
format_nvm_cmd nsid format = record zero_cmd { opc = 0x80; nsid = nsid; cdw10 = format }

unfoldable pub get_log_page_cmd : ℕ → ℕ → ℕ → Cmd
get_log_page_cmd log_page nsid payload_size = record zero_cmd {
  opc = 0x02;
  nsid = nsid;
  cdw10 = bit_or ((payload_size / 4 + 2 ^ 64 - 1) * 2 ^ 16 % 2 ^ 32) log_page;
}

unfoldable pub abort_cmd : ℕ → ℕ → Cmd
abort_cmd cid sqid = record zero_cmd { opc = 0x08; cdw10 = bit_or (cid * 2 ^ 16 % 2 ^ 32) sqid }

-- `fw_commit` is the structure as the word that is copied to cdw10.
unfoldable pub fw_commit_cmd : ℕ → Cmd
fw_commit_cmd fw_commit = record zero_cmd { opc = 0x10; cdw10 = fw_commit }

unfoldable pub fw_image_dl_cmd : ℕ → ℕ → Cmd
fw_image_dl_cmd size offset = record zero_cmd {
  opc = 0x11;
  cdw10 = (size / 4 + 2 ^ 32 - 1) % 2 ^ 32;
  cdw11 = offset / 4;
}

-- The functions of the source, over `exec`: those without a result besides the return value, and
-- the ones that return `cdw0` of the completion where the command succeeds.
abbrev pub ret_of : AdminResult → Ret × Qpair
ret_of (ret, cpl, q) = (ret, q)

abbrev pub attributes_of : AdminResult → Ret × Option ℕ × Qpair
attributes_of (ret, cpl, q) = (ret, if is_success ret then some cpl.cdw0 else none, q)

module _ (exec : Exec) where
  unfoldable pub admin_get_feature : ℕ → ℕ → ℕ → Qpair → Option (Ret × Option ℕ × Qpair)
  unfolding get_feature_cmd
  admin_get_feature sel feature cdw11 q =
      exec (get_feature_cmd sel feature cdw11) none 0 q >>= λ r. some (attributes_of r)

  unfoldable pub admin_set_feature : Bool → ℕ → ℕ → ℕ → Qpair → Option (Ret × Option ℕ × Qpair)
  unfolding set_feature_cmd
  admin_set_feature save feature cdw11 cdw12 q =
      exec (set_feature_cmd save feature cdw11 cdw12) none 0 q >>= λ r. some (attributes_of r)

  unfoldable pub admin_create_ioq : IoQueue → IoQueueType → Qpair → Option (Ret × Qpair)
  unfolding create_ioq_cmd
  admin_create_ioq ioq type q = exec (create_ioq_cmd ioq type) none 0 q >>= λ r. some (ret_of r)

  unfoldable pub admin_delete_ioq : ℕ → IoQueueType → Qpair → Option (Ret × Qpair)
  unfolding delete_ioq_cmd
  admin_delete_ioq id type q = exec (delete_ioq_cmd id type) none 0 q >>= λ r. some (ret_of r)

  -- struct nvme_ctrlr_data, struct nvme_ns_data and struct nvme_ctrlr_list have 4096 bytes.
  unfoldable pub admin_identify_ctrlr : ℕ → Qpair → Option (Ret × Qpair)
  unfolding identify_ctrlr_cmd
  admin_identify_ctrlr cdata q =
      exec identify_ctrlr_cmd (some cdata) 4096 q >>= λ r. some (ret_of r)

  unfoldable pub admin_identify_ns : ℕ → ℕ → Qpair → Option (Ret × Qpair)
  unfolding identify_ns_cmd
  admin_identify_ns nsid nsdata q =
      exec (identify_ns_cmd nsid) (some nsdata) 4096 q >>= λ r. some (ret_of r)

  unfoldable pub admin_attach_ns : ℕ → ℕ → Qpair → Option (Ret × Qpair)
  unfolding attach_ns_cmd
  admin_attach_ns nsid clist q =
      exec (attach_ns_cmd nsid) (some clist) 4096 q >>= λ r. some (ret_of r)

  unfoldable pub admin_detach_ns : ℕ → ℕ → Qpair → Option (Ret × Qpair)
  unfolding detach_ns_cmd
  admin_detach_ns nsid clist q =
      exec (detach_ns_cmd nsid) (some clist) 4096 q >>= λ r. some (ret_of r)

  unfoldable pub admin_create_ns : ℕ → Qpair → Option (Ret × Option ℕ × Qpair)
  unfolding create_ns_cmd
  admin_create_ns nsdata q = exec create_ns_cmd (some nsdata) 4096 q >>= λ r. some (attributes_of r)

  unfoldable pub admin_delete_ns : ℕ → Qpair → Option (Ret × Qpair)
  unfolding delete_ns_cmd
  admin_delete_ns nsid q = exec (delete_ns_cmd nsid) none 0 q >>= λ r. some (ret_of r)

  unfoldable pub admin_format_nvm : ℕ → ℕ → Qpair → Option (Ret × Qpair)
  unfolding format_nvm_cmd
  admin_format_nvm nsid format q =
      exec (format_nvm_cmd nsid format) none 0 q >>= λ r. some (ret_of r)

  unfoldable pub admin_get_log_page : ℕ → ℕ → ℕ → ℕ → Qpair → Option (Ret × Qpair)
  unfolding get_log_page_cmd
  admin_get_log_page log_page nsid payload payload_size q =
      exec (get_log_page_cmd log_page nsid payload_size) (some payload) payload_size q >>= λ r.
      some (ret_of r)

  unfoldable pub admin_abort_cmd : ℕ → ℕ → Qpair → Option (Ret × Qpair)
  unfolding abort_cmd
  admin_abort_cmd cid sqid q = exec (abort_cmd cid sqid) none 0 q >>= λ r. some (ret_of r)

  unfoldable pub admin_fw_commit : ℕ → Qpair → Option (Ret × Qpair)
  unfolding fw_commit_cmd
  admin_fw_commit fw_commit q = exec (fw_commit_cmd fw_commit) none 0 q >>= λ r. some (ret_of r)

  unfoldable pub admin_fw_image_dl : ℕ → ℕ → ℕ → Qpair → Option (Ret × Qpair)
  unfolding fw_image_dl_cmd
  admin_fw_image_dl fw size offset q =
      exec (fw_image_dl_cmd size offset) (some fw) size q >>= λ r. some (ret_of r)
