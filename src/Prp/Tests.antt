-- ===== src/Prp/Tests.antt =====
-- The data pointers of small and of oversized contiguous buffers under an identity mapping.
use libnvme.Prelude.{ℕ, ◌+◌, ◌*◌, ◌≡◌, ◌≢◌, ◌⊎◌, refl, Option, none, some, arith}
use libnvme.Types.{zero_cmd}
use libnvme.Prp.{Built, build_contig, vtophys_error}
use libnvme.Prp.Cases.{device_page, page_addr, pages}
use libnvme.Prp.Contig.{build_contig-covers, build_contig-fits, build_contig-overflows}

abbrev same_addr : ℕ → ℕ
same_addr a = a

abbrev no_entries : ℕ → ℕ
no_entries _ = 0

abbrev built_or_zero : Option Built → Built
built_or_zero none = (zero_cmd, no_entries)
built_or_zero (some b) = b

-- 12288 bytes from 0x10100 touch four pages.
abbrev four_pages : Built
unfolding build_contig
four_pages = built_or_zero (build_contig same_addr 0x10100 none 12288 0x9000 zero_cmd no_entries)

abbrev last_page : ℕ
last_page = 3

build_contig-covers_example :
    (device_page 4 four_pages.0 four_pages.1 last_page ≡ some 0x13000)
    × (four_pages.0.prp2 ≡ 0x9000)
    × (((pages 12288 0x100 ≡ 2) × (last_page ≡ 1))
        ⊎ (page_addr same_addr 0x10100 last_page ≢ vtophys_error))
unfolding build_contig
build_contig-covers_example =
    build_contig-covers same_addr 0x10100 none 12288 0x9000 zero_cmd no_entries last_page
      (omega arith) (omega arith) refl (omega arith)

build_contig-fits_example : four_pages.1 506 ≡ 0
unfolding build_contig
build_contig-fits_example =
    build_contig-fits same_addr 0x10100 none 12288 0x9000 zero_cmd no_entries 506 (omega arith)
      (omega arith) refl (omega arith)

-- 509 pages at once.
abbrev oversized : Built
unfolding build_contig
oversized =
    built_or_zero (build_contig same_addr 0x100000 none (509 * 4096) 0x9000 zero_cmd no_entries)

build_contig-overflows_example : oversized.1 506 ≡ 0x100000 + 507 * 4096
unfolding build_contig
build_contig-overflows_example =
    build_contig-overflows same_addr 0x100000 none (509 * 4096) 0x9000 zero_cmd no_entries
      (omega arith) refl
