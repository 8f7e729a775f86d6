-- ===== src/Witnesses/Downloads.antt =====
-- The theorems about managed downloads, at concrete inputs.
use clipgauge.Common.{
  ℕ, ◌≡◌, refl, sym, ◌∙◌, ◌⊎◌, String, true, Option, none, some, List, [], ◌∷◌, ok, ◌=s=◌,
  if◌then◌else◌, Table, lookup, arith, ap,
}
use clipgauge.Text.Lower.{same_lower_refl}
use clipgauge.Json.{Fields}
use clipgauge.Witnesses.Transfer.{zero_digest, zero_hash, network}
use clipgauge.Downloads.{ManagedAsset, DiskFile, Disk, Machine}
use clipgauge.Downloads.Cache.{Entry, new_entry}
use clipgauge.Downloads.Consent.{Consent, Consents, missing_bytes, has_consent, grant_consent}
use clipgauge.Downloads.Consent.Granted.{KeepsOthers, grant_consent-covers}
use clipgauge.Downloads.Inventory.{inventory, inventory_cached}
use clipgauge.Downloads.Inventory.Faithful.{StatDecides, DigestDecides}
use clipgauge.Downloads.Inventory.Probes.{AreFaithful}
use clipgauge.Downloads.Inventory.Agrees.{shown_rows, inventory_cached-inventory}
use clipgauge.Downloads.Manager.{Manager, download, download_group}
use clipgauge.Downloads.Manager.Settled.{IsSettled, download-IsSettled}
use clipgauge.Downloads.Manager.Group.{IsIdle, IsOrderly, download_group-IsOrderly}
use clipgauge.Downloads.Manager.Permitted.{IsUntouched, IsApproved, download_group-IsUntouched}

abbrev machine : Machine
machine = record { resolve = λ p. p; is_inside = λ p. true; hash = zero_hash; free = some 1000000 }

abbrev asset : ManagedAsset
asset = record {
  asset_id = "model";
  destination = "model.bin";
  size_bytes = 3;
  sha256 = zero_digest;
  required = true;
  consent_group = "core";
  installed_size_bytes = 0;
  source_revision = "";
  platform = "";
  download_destination = "";
}

abbrev file : DiskFile
file = record { content = 7 ∷ 8 ∷ 9 ∷ []; device = 1; inode = 2; mtime_ns = 5 }

abbrev new_file : List ℕ → DiskFile
new_file b = record file { content = b }

abbrev empty_disk : Disk
empty_disk p = none

abbrev full_disk : Disk
full_disk p = if p =s= "model.bin" then some file else none

abbrev digest_json : Fields → String
digest_json fs = ""

abbrev granted : Table Consent
granted =
    Table.row "core" (record { asset_ids = "model" ∷ []; download_bytes = 3; budget_bytes = 3 })
      Table.empty

abbrev manager : Manager
manager = record {
  states = Table.empty;
  saved_states = Table.empty;
  consents = record { now = granted; saved = granted };
  cache = Table.empty;
  saved_cache = Table.empty;
  cancelled_ids = [];
  disk = empty_disk;
  parts = λ p. if p =s= "model.bin" then some (7 ∷ []) else none;
  events = [];
}

missing_three : missing_bytes machine empty_disk [] (asset ∷ []) ≡ ok 3
unfolding missing_bytes
missing_three = refl

grant_consent-covers_example :
    (after : Consents) × (grant_consent machine empty_disk
        (λ xs. xs)
        (record { now = Table.empty; saved = Table.empty })
        "core"
        (asset ∷ [])
        none
      ≡ ok after)
    × (has_consent machine empty_disk after.now "core" (asset ∷ []) [] ≡ ok true)
    × KeepsOthers "core" Table.empty after
grant_consent-covers_example =
    grant_consent-covers machine empty_disk (λ xs. xs)
      (record { now = Table.empty; saved = Table.empty }) "core" (asset ∷ []) none 3 (λ xs x. refl)
      missing_three refl

download-IsSettled_example :
    IsSettled machine digest_json "linux" new_file manager asset
      (download machine digest_json "linux" new_file manager asset true network)
download-IsSettled_example =
    download-IsSettled machine digest_json "linux" new_file manager asset true network refl

manager-IsIdle : IsIdle machine digest_json "linux" new_file manager
unfolding lookup
manager-IsIdle j h = ground arith

download_group-IsOrderly_example :
    IsOrderly machine digest_json "linux" new_file manager (asset ∷ []) (
      download_group machine digest_json "linux" new_file manager
        (asset ∷ [])
        "core"
        (λ i. network))
download_group-IsOrderly_example =
    download_group-IsOrderly machine digest_json "linux" new_file manager (asset ∷ []) "core"
      (λ i. network) refl manager-IsIdle

download_group-IsUntouched_example :
    IsUntouched machine digest_json "linux" new_file manager
      (download_group machine digest_json "linux" new_file manager
        (asset ∷ [])
        "other"
        (λ i. network)).0
    ⊎ IsApproved machine digest_json "linux" new_file manager "other" (asset ∷ [])
download_group-IsUntouched_example =
    download_group-IsUntouched machine digest_json "linux" new_file manager (asset ∷ []) "other"
      (λ i. network)

-- What stood on the full disk, and the one asset.
abbrev Seen : String → DiskFile → Type 0
Seen p f = full_disk p ≡ some f

abbrev Known : ManagedAsset → Type 0
Known a = a ≡ asset

content_decided : StatDecides machine digest_json "linux" Seen Known
content_decided p f g there here same = ap content_of (sym there ∙ here)
  where
    content_of : Option DiskFile → List ℕ
    content_of none = []
    content_of (some h) = h.content

size_decided : DigestDecides machine digest_json "linux" Seen Known
size_decided a b is_a is_b same = ap (λ (x : ManagedAsset). x.size_bytes) (is_a ∙ sym is_b)

abbrev cached : Table Entry
cached =
    Table.row "model|model.bin" (new_entry digest_json "linux" asset "model.bin" file zero_digest)
      Table.empty

cached_faithful :
    AreFaithful machine digest_json "linux" Seen Known content_decided size_decided full_disk
      Table.empty granted cached
cached_faithful = (
  record {
    asset = asset;
    known = refl;
    file = file;
    was_there = refl;
    saw = refl;
    of_asset = refl;
    was_ready = same_lower_refl zero_digest;
    of_content = refl;
  },
  tt,
)

inventory_cached-inventory_example :
    (shown_rows machine digest_json "linux" Seen Known content_decided size_decided full_disk
        Table.empty granted
        (inventory_cached machine digest_json "linux" full_disk Table.empty granted true cached
          (asset ∷ [])).result
      ≡ inventory machine digest_json "linux" full_disk Table.empty granted true (asset ∷ []))
    × AreFaithful machine digest_json "linux" Seen Known content_decided size_decided full_disk
        Table.empty granted
        (inventory_cached machine digest_json "linux" full_disk Table.empty granted true cached
          (asset ∷ [])).cache
inventory_cached-inventory_example =
    inventory_cached-inventory machine digest_json "linux" Seen Known content_decided size_decided
      full_disk Table.empty granted cached (asset ∷ []) cached_faithful (refl, tt)
      (λ p f there. there)
