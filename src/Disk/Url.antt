-- ===== src/Disk/Url.antt =====
-- The estimate for a remote source, from what the downloader reports about it
-- (pipeline/clipgauge_pipeline/storage_estimate.py). Numeric fields are what `int(value)` gives.
use clipgauge.Common.{
  ℕ, ◌+◌, ◌*◌, ◌/◌, max, String, Bool, true, false, ◌||◌, Option, none, some, List, [], ◌∷◌, ltb,
  ◌=s=◌, if◌then◌else◌,
}
use clipgauge.Disk.Estimate.{
  Estimate, positive_number, for_source, or_else, url_fallback_bytes_per_second,
  url_fallback_min_source_bytes,
}

pub record Format : Type 0 where
  pub format_id : Option String
  pub url : Option String
  pub filesize : Option ℕ
  pub filesize_approx : Option ℕ
  pub tbr : Option ℕ
  pub vbr : Option ℕ
  pub abr : Option ℕ

-- The part of the metadata that the estimate reads; `requested` are the selected formats that are
-- objects, and `own` holds the numeric fields of the metadata itself.
pub record Metadata : Type 0 where
  pub own : Format
  pub duration_ms : Option ℕ
  pub duration : Option ℕ
  pub requested : List Format

-- The pair by which a selected format is told from the others.
pub data Identity : Type 0 where
  by_format : String → Identity
  by_url : String → Identity
  unnamed : Identity

by_url_of : Option String → Identity
by_url_of none = unnamed
by_url_of (some u) = by_url u

by_format_of : Option String → Option String → Identity
unfolding by_url_of
by_format_of none url = by_url_of url
by_format_of (some i) url = if i =s= "" then by_url_of url else by_format i

pub identity : Format → Identity
unfolding by_format_of
identity f = by_format_of f.format_id f.url

abbrev same_identity : Identity → Identity → Bool
same_identity (by_format a) (by_format b) = a =s= b
same_identity (by_url a) (by_url b) = a =s= b
same_identity _ _ = false

unfoldable pub seen_before : Identity → List Identity → Bool
seen_before i [] = false
seen_before i (j ∷ seen) = same_identity j i || seen_before i seen

pub remember : Identity → List Identity → List Identity
remember unnamed seen = seen
remember i seen = i ∷ seen

pub selected_from : List Identity → List Format → List Format
unfolding identity remember
selected_from seen [] = []
selected_from seen (f ∷ fs) =
    let i = identity f in
    let kept = f ∷ selected_from (remember i seen) fs in
    let skipped = selected_from seen fs in if seen_before i seen then skipped else kept

unfoldable pub selected_format_records : Metadata → List Format
unfolding selected_from
selected_format_records m = selected_from [] m.requested

pub data Confidence : Type 0 where
  exact approximate bitrate_estimate duration_fallback unknown : Confidence

-- `exact or approx` on two positive numbers that may be missing
record_size : Format → Option (ℕ × Bool)
unfolding positive_number
record_size f = elim (positive_number f.filesize) [
  | some n ↦ some (n, false)
  | none ↦ elim (positive_number f.filesize_approx) [ some n ↦ some (n, true) | none ↦ none ]
]

sum_sizes : ℕ → Bool → List Format → Option (ℕ × Bool)
unfolding record_size
sum_sizes total approx [] = some (total, approx)
sum_sizes total approx (f ∷ fs) = elim (record_size f) [
  | none ↦ none
  | some p ↦ sum_sizes (total + p.0) (approx || p.1) fs
]

component_size : List Format → Option ℕ × Confidence
unfolding sum_sizes
component_size [] = (none, unknown)
component_size (f ∷ fs) = elim (sum_sizes 0 false (f ∷ fs)) [
  | none ↦ (none, unknown)
  | some p ↦ (some p.0, (if p.1 then approximate else exact))
]

kbps : Format → ℕ
unfolding positive_number
kbps f = elim (positive_number f.tbr) [ some n ↦ n | none ↦ or_else f.vbr 0 + or_else f.abr 0 ]

sum_kbps : List Format → ℕ
unfolding kbps
sum_kbps [] = 0
sum_kbps (f ∷ fs) = kbps f + sum_kbps fs

abbrev or_own : List Format → Format → List Format
or_own [] own = own ∷ []
or_own (f ∷ fs) own = f ∷ fs

-- An empty list of bitrates is a sum of 0: only positive rates are collected.
bitrate_bytes : Metadata → List Format → Option ℕ
unfolding sum_kbps positive_number
bitrate_bytes m records =
    let rate = sum_kbps (or_own records m.own) in
    elim (positive_number m.duration) [
      | none ↦ none
      | some d ↦ if ltb 0 rate then some ((d * rate * 1000 + 7) / 8) else none
    ]

from_bitrate : Option ℕ → Option ℕ × Confidence
from_bitrate none = (none, duration_fallback)
from_bitrate (some n) = (some n, bitrate_estimate)

-- What follows once the selected formats are sized.
from_selected : Metadata → List Format → Option ℕ × Confidence → Option ℕ × Confidence
unfolding bitrate_bytes from_bitrate positive_number
from_selected m records (some n, exact) = (some n, exact)
from_selected m records (selected, c) = elim (positive_number m.own.filesize_approx) [
  | some n ↦ (some n, approximate)
  | none ↦ elim selected [ some n ↦ (some n, c) | none ↦ from_bitrate (bitrate_bytes m records) ]
]

unfoldable pub metadata_size : Metadata → Option ℕ × Confidence
unfolding selected_format_records component_size from_selected positive_number
metadata_size m = elim (positive_number m.own.filesize) [
  | some n ↦ (some n, exact)
  | none ↦
      let records = selected_format_records m in from_selected m records (component_size records)
]

abbrev pub confidence_name : Confidence → String
confidence_name exact = "exact"
confidence_name approximate = "approximate"
confidence_name bitrate_estimate = "bitrate-estimate"
confidence_name duration_fallback = "duration-fallback"
confidence_name unknown = "unknown"

abbrev duration_or_zero : Option ℕ → ℕ
duration_or_zero none = 0
duration_or_zero (some ms) = ms

source_size : Option ℕ → Option ℕ → ℕ
source_size (some n) duration = n
source_size none duration =
    max url_fallback_min_source_bytes
      ((duration_or_zero duration * url_fallback_bytes_per_second + 999) / 1000)

unfoldable pub for_url_metadata : Metadata → Estimate
unfolding metadata_size source_size for_source
for_url_metadata m =
    let (size, confidence) = metadata_size m in
    record (for_source (source_size size m.duration_ms) m.duration_ms none) {
      source_size_confidence = some (confidence_name confidence);
    }

abbrev no_format : Format
no_format = record {
  format_id = none;
  url = none;
  filesize = none;
  filesize_approx = none;
  tbr = none;
  vbr = none;
  abr = none;
}

-- `for_url_metadata(None)`
abbrev pub no_metadata : Metadata
no_metadata = record { own = no_format; duration_ms = none; duration = none; requested = [] }
