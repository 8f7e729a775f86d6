-- ===== src/Downloads/Inventory.antt =====
-- The inventory of pipeline/clipgauge_pipeline/downloads.py: which assets are there, with and
-- without the cache, and the space that the others need.
pub mod Faithful
pub mod Probes
pub mod Agrees
use clipgauge.Common.{
  ℕ, ◌+◌, ◌<◌, String, Bool, true, false, ◌&&◌, ◌||◌, not, Option, none, some, List, [], ◌∷◌, ltb,
  ◌==◌, ◌=s=◌, if◌then◌else◌, Result, ok, err, ◌>>=◌, Table, lookup,
}
use clipgauge.Json.{Fields}
use clipgauge.Transfer.{TransferFailure}
use clipgauge.Downloads.{
  ManagedAsset, DiskFile, Disk, Machine, DownloadRefusal, destination_of, is_asset_ready, digest_of,
}
use clipgauge.Downloads.Cache.{Entry, lookup_entry, record_entry}
use clipgauge.Downloads.Consent.{Consent, has_consent, default_to}

pub data AssetStatus : Type 0 where
  ready installed reused cancelled retryable_failed downloading needs_repair not_installed :
      AssetStatus

-- What `self.state` holds of an asset: the status and its details.
pub data AssetState : Type 0 where
  is_reused : String → Option String → AssetState
  is_downloading is_installed : String → String → AssetState
  is_cancelled : String → AssetState
  has_failed : String → TransferFailure → AssetState
  wants_repair : String → AssetState

abbrev pub asset_status : AssetState → AssetStatus
asset_status (AssetState.is_reused d s) = reused
asset_status (AssetState.is_downloading d e) = downloading
asset_status (AssetState.is_installed d e) = installed
asset_status (AssetState.is_cancelled d) = cancelled
asset_status (AssetState.has_failed d e) = retryable_failed
asset_status (AssetState.wants_repair e) = needs_repair

-- `state.get("status", "not-installed")`
abbrev pub stored_status : Option AssetState → AssetStatus
stored_status none = not_installed
stored_status (some s) = asset_status s

-- The status is one of "installed", "reused" and "ready".
abbrev pub is_present : AssetStatus → Bool
is_present ready = true
is_present installed = true
is_present reused = true
is_present _ = false

pub data Verification : Type 0 where
  fresh_hash cached_hash persisted_state not_verified : Verification

-- What is found out about an asset, and the cache behind it.
pub record Probe : Type 0 where
  pub installed : Bool
  pub hashed : Option String
  pub verification : Verification
  pub cache : Table Entry

pub record InventoryRow : Type 0 where
  pub asset : ManagedAsset
  pub installed : Bool
  pub cached : Bool
  pub installed_sha256 : Option String
  pub verification : Verification
  pub status : AssetStatus
  pub managed_path : String
  pub consent_granted : Bool

abbrev pub has_file : Option DiskFile → Bool
has_file none = false
has_file (some f) = true

-- `bool(hashed)`
abbrev pub has_digest : Option String → Bool
has_digest none = false
has_digest (some d) = not (d =s= "")

abbrev pub row_status : Option DiskFile → Probe → Option AssetState → AssetStatus
row_status file p state =
    if has_file file && not p.installed && has_digest p.hashed
    then needs_repair
    else if p.installed
    then ready
    else stored_status state

abbrev pub make_row :
    ManagedAsset → String → Option DiskFile → Probe → Option AssetState → Bool → InventoryRow
make_row a path file p state granted = record {
  asset = a;
  installed = p.installed;
  cached = p.installed || is_present (row_status file p state);
  installed_sha256 = p.hashed;
  verification = p.verification;
  status = row_status file p state;
  managed_path = path;
  consent_granted = granted;
}

-- A row, or what is raised, and the cache behind it.
pub record Step {ℓ} (A : Type ℓ) : Type ℓ where
  pub cache : Table Entry
  pub result : Result DownloadRefusal A

module _ (m : Machine) (digest_json : Fields → String) (platform : String) (disk : Disk)
    (states : Table AssetState) (consents : Table Consent) where
  abbrev pub persisted : Table Entry → ManagedAsset → Option DiskFile → Probe
  persisted cache a file =
      let there = has_file file && is_present (stored_status (lookup states a.asset_id)) in
      record {
        installed = there;
        hashed = if there && not (a.sha256 =s= "") then some a.sha256 else none;
        verification = if there then persisted_state else not_verified;
        cache = cache;
      }

  abbrev pub fresh_probe : Table Entry → ManagedAsset → Option DiskFile → Probe
  fresh_probe cache a file = record {
    installed = is_asset_ready m a file;
    hashed = digest_of m file;
    verification = fresh_hash;
    cache = cache;
  }

  -- A file that is hashed and is the right one goes into the cache.
  abbrev pub recorded : ManagedAsset → String → Option DiskFile → Probe → Probe
  recorded a path file p = elim p.hashed [
    | none ↦ p
    | some d ↦
        if p.installed && not (d =s= "")
        then record p { cache = record_entry digest_json platform p.cache a path file d }
        else p
  ]

  abbrev pub from_entry :
      Table Entry → ManagedAsset → String → Option DiskFile → Option Entry → Probe
  from_entry cache a path file (some e) = record {
    installed = true;
    hashed = some e.verified_hash;
    verification = cached_hash;
    cache = cache;
  }
  from_entry cache a path file none = recorded a path file (fresh_probe cache a file)

  -- The probe of `inventory`, and that of `inventory_cached`.
  abbrev pub probe_plain : Bool → Table Entry → ManagedAsset → String → Probe
  probe_plain true cache a path = fresh_probe cache a (disk path)
  probe_plain false cache a path = persisted cache a (disk path)

  abbrev pub probe_cached : Bool → Table Entry → ManagedAsset → String → Probe
  probe_cached true cache a path =
      from_entry cache a path (disk path)
        (lookup_entry digest_json platform cache a path (disk path))
  probe_cached false cache a path = persisted cache a (disk path)

  abbrev pub with_row : ManagedAsset → String → List String → Probe → Step InventoryRow
  with_row a path verified p = record {
    cache = p.cache;
    result = has_consent m disk consents a.consent_group (a ∷ []) verified >>= λ granted.
        ok (make_row a path (disk path) p (lookup states a.asset_id) granted);
  }

  abbrev pub verified_ids : ManagedAsset → Bool → List String
  verified_ids a b = if b then a.asset_id ∷ [] else []

  abbrev pub on_path :
      Table Entry → Result DownloadRefusal String → (String → Step InventoryRow) → Step InventoryRow
  on_path cache (err e) f = record { cache = cache; result = err e }
  on_path cache (ok path) f = f path

  abbrev pub plain_asset_row : Bool → Table Entry → ManagedAsset → Step InventoryRow
  plain_asset_row verify cache a =
      on_path cache (destination_of m a)
        λ path. with_row a path [] (probe_plain verify cache a path)

  abbrev pub cached_asset_row : Bool → Table Entry → ManagedAsset → Step InventoryRow
  cached_asset_row verify cache a = on_path cache (destination_of m a) λ path.
      let p = probe_cached verify cache a path in with_row a path (verified_ids a p.installed) p

  -- One row after the other, up to the first that raises.
  abbrev pub add_row : InventoryRow → Step (List InventoryRow) → Step (List InventoryRow)
  add_row r s = record s { result = s.result >>= λ rs. ok (r ∷ rs) }

  abbrev pub and_then :
      Step InventoryRow → (Table Entry → Step (List InventoryRow)) → Step (List InventoryRow)
  and_then s next = elim s.result [
    | err e ↦ record { cache = s.cache; result = err e }
    | ok r ↦ add_row r (next s.cache)
  ]

  unfoldable pub rows_with :
      (Table Entry → ManagedAsset → Step InventoryRow)
      → Table Entry
      → List ManagedAsset
      → Step (List InventoryRow)
  rows_with row cache [] = record { cache = cache; result = ok [] }
  rows_with row cache (a ∷ as') = and_then (row cache a) λ next. rows_with row next as'

  -- `inventory` does not touch the cache.
  unfoldable pub inventory : Bool → List ManagedAsset → Result DownloadRefusal (List InventoryRow)
  unfolding rows_with has_consent
  inventory verify assets = (rows_with (plain_asset_row verify) Table.empty assets).result

  unfoldable pub inventory_cached :
      Bool → Table Entry → List ManagedAsset → Step (List InventoryRow)
  unfolding rows_with has_consent lookup_entry record_entry
  inventory_cached verify cache assets = rows_with (cached_asset_row verify) cache assets
