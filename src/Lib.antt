-- ===== src/Lib.antt =====
-- Verification of libnvme, a user-space NVMe driver: queue pairs and their requests, the data
-- pointers of commands, the I/O commands of namespaces, the memory pools and the huge pages below
-- them, the controller with its initialisation and its I/O queue pairs, and the CPUs, PCI devices
-- and locks they stand on.
--
-- A queue pair (lib/nvme/nvme_qpair.c) owns a submission ring, a completion ring, an array of
-- trackers and a pool of requests (lib/nvme/nvme_request.c). Submitting takes a request and a
-- free tracker, builds the data pointers, copies the command into the ring and rings the
-- doorbell; without a tracker the request is queued. Polling reads completions by their phase
-- tag, runs the callbacks, frees tracker and request, and submits the next queued request. A
-- large transfer is a parent request with children. Admin commands (lib/nvme/nvme_admin.c) are
-- requests on the admin queue pair, which is polled until their completion is there. A controller
-- (lib/nvme/nvme_ctrlr.c) is brought up by a state machine on CC.EN and CSTS.RDY, then
-- identified, and hands out I/O queue pairs.
--
-- Prelude has the shared notation, lists and arrays. Types has the structures of
-- include/libnvme/nvme_spec.h and lib/nvme/nvme_internal.h; a pointer to a request or tracker is
-- its index, an array a function of its index, and a linked list a list of indices. Common is
-- lib/common/nvme_common.h: test_bit, set_bit, clear_bit and find_first_zero_bit have the names
-- of the code, is_pow2, log2 and align_pow2 are nvme_is_pow2, nvme_log2 and nvme_align_pow2. Prp
-- and Prp.Scatter are the three _nvme_qpair_build_*_request functions. Request is
-- lib/nvme/nvme_request.c, without the prefix nvme_request_. Qpair and Qpair.Submit are
-- lib/nvme/nvme_qpair.c, without the prefix nvme_qpair_: Qpair has completion, abort and
-- enabling, Qpair.Submit submission and polling.
--
-- Ns and Ns.Commands are the commands of lib/nvme/nvme_ns.c, without the prefix nvme_: ns_rw and
-- split_loop are _nvme_ns_rw and _nvme_ns_split_request. Mem is lib/common/nvme_mem.c, without
-- the prefix nvme_mem_: a heap is a number, the pool has the heaps as a function of it, and what
-- the operating system gives (a huge page, an entry of the page map) is a parameter. pool_for is
-- the choice of a pool in nvme_mem_alloc_node; add_hp is the entry of a huge page into the hash
-- table. Mem.Pages is the table of huge pages of the same file: a page is named by its virtual
-- address, what the system answers to one call is the parameter Os, and what the process holds is
-- Kernel. Mem.Pools has the pools of nvme_mem_init and how nvme_mem_cleanup empties them; a heap
-- that is dropped there leaves its huge page in the table of Mem.Pages. In Mem each module below
-- it is named for an operation or for what is shared: Inv has the invariant of a pool, Grow, Mark
-- and Alloc allocation, Gain and Free freeing, Translate the huge-page table.
--
-- Admin is lib/nvme/nvme_admin.c, without the prefix nvme_; the functions that only fill a
-- command are the names in _cmd of Admin.Commands. Ctrlr is lib/nvme/nvme_ctrlr.c, mostly without
-- the prefix nvme_ctrlr_: Ctrlr.State has struct nvme_ctrlr with its registers and Env with what
-- the code finds around it, Ctrlr.Start nvme_ctrlr_start, Ctrlr.Init nvme_ctrlr_init and the loop
-- around it, Ctrlr.Qpairs nvme_qpair_construct, nvme_ioqp_get and nvme_ioqp_release, Ctrlr.Reset
-- nvme_ctrlr_reset, attach and detach, Ctrlr.Namespaces the part of lib/nvme/nvme_ns.c that
-- identifies and opens namespaces, Ctrlr.Cmb the controller memory buffer, Ctrlr.Firmware and
-- Ctrlr.Api the remaining calls. Cpu is lib/common/nvme_cpu.c, Pci lib/common/nvme_pci.c,
-- Sync.Atomic lib/common/nvme_atomic.h with the number of bits as an argument, and Sync.Spinlock
-- lib/common/nvme_spinlock.h with threads that take the lock, as a relation between states; each
-- is mostly without the prefix of its functions. Quirks is lib/nvme/nvme_quirks.c, Strings the
-- trimming and splitting of lib/common/nvme_common.c, and Registry the list of open controllers
-- of lib/nvme/nvme.c. Queue pair 0 of a controller is adminq, queue pair i + 1 is ioq[i]; a queue
-- pair works on a copy of the controller's flags that is loaded before an operation and stored
-- after it.
--
-- Code of several steps is a chain of Option, where none is a failed nvme_assert, an nvme_panic,
-- the use of a NULL pointer, or fuel that ran out. Each machine-width field keeps its wrap-around
-- where the code can reach it. The address translation nvme_mem_vtophys and the callbacks that
-- return scatter-gather elements are parameters; the callbacks of a caller are recorded in the
-- order in which they run, and submit nothing themselves. A build of data pointers that fails is
-- followed by the abort of its request, so what it had already written to the freed command and
-- tracker is not kept.
--
-- The walk over the capabilities of a PCI device takes at most 960 of them, the number of words
-- from 256 to 4095 by four; the loops that empty the table of huge pages take as much fuel as the
-- longest list has pages and one more.
--
-- Fuel bounds two recursions. submit_request counts the nested submissions: completing a request
-- at once submits the next queued one, so the fuel it takes depends on the length of the queue.
-- run_cb counts how deep parents nest: a transfer is split at stripes and then at the transfer
-- size, hence three levels; ns_rw has the same three. The loop of split_loop has as many passes
-- as the transfer has sectors. The loops of the controller that wait for the device, the wait for
-- a completion among them, have no bound in the code: their fuel, or the list of what each call
-- sees, is an argument.
--
-- Not modelled: printing and logging, mutexes, the readers-writer lock (lib/common/nvme_rwlock.h
-- calls functions that do not exist), reading /proc/mounts and /proc/meminfo, the destruction of
-- queue pairs, the mapping of BARs, the tools under tools/, and posting an asynchronous event
-- request again from its callback.
pub mod Admin
pub mod Common
pub mod Cpu
pub mod Ctrlr
pub mod Mem
pub mod Ns
pub mod Pci
pub mod Prelude
pub mod Prp
pub mod Qpair
pub mod Quirks
pub mod Registry
pub mod Request
pub mod Strings
pub mod Sync
pub mod Types
