-- ===== src/Sources/Sorting.antt =====
-- sortPaths of path.go, and the sort of collectKeys.
use recon.Prelude.{List, compare_bytes, Map}
use recon.KeyPath.{KeyPath}
use recon.KeyPath.Compare.{compare_paths}
use recon.Prelude.Sorts.{sort_by}

-- sortPaths
unfoldable pub sort_paths : List KeyPath → List KeyPath
sort_paths ps = sort_by compare_paths ps

-- The sort of paths by a text that was made for each of them beforehand.
unfoldable pub sort_keyed : Map KeyPath → Map KeyPath
sort_keyed ps = sort_by (λ a b. compare_bytes a.0 b.0) ps
