-- ===== src/Outputs/Tests.antt =====
-- A disk on which the plain name of a run is taken.
use cute_pcap_mcp.Base.{[], ◌∷◌, Option, none, ◌≡◌, refl, arith}
use mathlib.Core.Option.{none}
use cute_pcap_mcp.Base.Text.{Bytes, codes}
use cute_pcap_mcp.Base.Text.Decimal.{decimal}
use cute_pcap_mcp.Errors.{ok}
use cute_pcap_mcp.Outputs.{Moment, Disk, add_dir, make_unique_dir}
use cute_pcap_mcp.Outputs.Live.{make_unique_dir-live}

abbrev pub noon : Moment
noon = record { compact = codes "20260102T120000Z"; rfc3339 = codes "2026-01-02T12:00:00Z" }

abbrev pub nothing_refused : Bytes → Option Bytes
nothing_refused name = none

abbrev disk : Disk
disk = record { dirs = codes "nohash-20260102T120000Z" ∷ []; files = [] }

abbrev second : Bytes
second = codes "nohash-20260102T120000Z-2"

makes_second : make_unique_dir nothing_refused [] noon disk ≡ ok (second, add_dir second disk)
unfolding make_unique_dir decimal
makes_second = refl

make_unique_dir-live_example :
    (made : Bytes × Disk) × (make_unique_dir nothing_refused [] noon disk ≡ ok made)
make_unique_dir-live_example =
    make_unique_dir-live nothing_refused (λ name. refl) [] noon disk (ground arith)
