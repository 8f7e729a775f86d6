-- ===== src/Downloads/Space.antt =====
-- The space that a group of assets needs: `estimate` and the condition of `check_disk_space` of
-- pipeline/clipgauge_pipeline/downloads.py.
use clipgauge.Common.{
  ℕ, ◌+◌, Bool, false, ◌&&◌, not, Option, none, some, List, [], ◌∷◌, ltb, if◌then◌else◌,
}
use clipgauge.Downloads.{Machine}
use clipgauge.Downloads.Inventory.{InventoryRow}

-- `sum(…)` over the rows.
abbrev pub bytes_where : (InventoryRow → Bool) → (InventoryRow → ℕ) → List InventoryRow → ℕ
bytes_where p bytes [] = 0
bytes_where p bytes (r ∷ rs) = (if p r then bytes r else 0) + bytes_where p bytes rs

pub record SpaceEstimate : Type 0 where
  pub required_bytes : ℕ
  pub optional_bytes : ℕ
  pub installed_bytes : ℕ
  pub available_bytes : Option ℕ

abbrev pub bytes_to_download : SpaceEstimate → ℕ
bytes_to_download e = e.required_bytes + e.optional_bytes

abbrev pub installed_size : InventoryRow → ℕ
installed_size r =
    if ltb 0 r.asset.installed_size_bytes then r.asset.installed_size_bytes else r.asset.size_bytes

-- The sums of `estimate`.
unfoldable pub estimate : Machine → List InventoryRow → SpaceEstimate
estimate m rows = record {
  required_bytes =
      bytes_where (λ r. r.asset.required && not r.installed) (λ r. r.asset.size_bytes) rows;
  optional_bytes =
      bytes_where (λ r. not r.asset.required && not r.installed) (λ r. r.asset.size_bytes) rows;
  installed_bytes = bytes_where (λ r. r.installed) installed_size rows;
  available_bytes = m.free;
}

-- The condition of `check_disk_space`.
abbrev pub lacks_space : Option ℕ → ℕ → Bool
lacks_space none needed = false
lacks_space (some free) needed = ltb free needed

abbrev pub needed_bytes : SpaceEstimate → ℕ → ℕ
needed_bytes e extra_bytes = bytes_to_download e + e.installed_bytes + extra_bytes
