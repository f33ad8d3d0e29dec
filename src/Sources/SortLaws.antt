-- ===== src/Sources/SortLaws.antt =====
-- Sorting neither loses nor adds a path.
use recon.Prelude.{◌↔◌, List, Bytes, Map}
use mathlib.Core.List.{Memᴰ}
use recon.KeyPath.{KeyPath}
use recon.Prelude.Sorts.{sort_by-mem}
use recon.Sources.Sorting.{sort_paths, sort_keyed}

pub sort_paths-mem : (p : KeyPath) (ps : List KeyPath) → Memᴰ p (sort_paths ps) ↔ Memᴰ p ps
unfolding sort_paths
sort_paths-mem p ps = sort_by-mem _ p ps

pub sort_keyed-mem : (e : Bytes × KeyPath) (ps : Map KeyPath) → Memᴰ e (sort_keyed ps) ↔ Memᴰ e ps
unfolding sort_keyed
sort_keyed-mem e ps = sort_by-mem _ e ps
