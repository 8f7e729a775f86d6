-- ===== src/Downloads/Manager.antt =====
-- `DownloadManager` of pipeline/clipgauge_pipeline/downloads.py: its state and what changes it.
-- Other threads that cancel are in the network: `cancelled()` is what `_is_cancelled` says there.
pub mod Settled
pub mod Group
pub mod Permitted
pub mod Migration
use clipgauge.Common.{
  ℕ, ◌+◌, ◌*◌, ◌^◌, String, Bool, true, false, ◌&&◌, ◌||◌, not, Option, none, some, List, [], ◌∷◌,
  ◌++◌, ltb, ◌==◌, ◌=s=◌, if◌then◌else◌, Result, ok, err, ◌>>=◌, Table, lookup, store,
}
use clipgauge.Json.{Fields}
use clipgauge.Text.Lower.{same_lower}
use clipgauge.Transfer.{
  Network, PartFiles, TransferFailure, TransferOutcome, Wanted, download_verified,
}
use clipgauge.Downloads.{
  ManagedAsset, DiskFile, Disk, Machine, DownloadRefusal, destination_of, download_destination_of,
  is_asset_ready, digest_of,
}
use clipgauge.Downloads.Cache.{Entry}
use clipgauge.Downloads.Consent.{Consent, Consents, has_consent}
use clipgauge.Downloads.Inventory.{
  AssetStatus, AssetState, asset_status, InventoryRow, Step, inventory_cached,
}
use clipgauge.Downloads.Space.{estimate, lacks_space, needed_bytes}

-- An event, without its numbers and texts.
pub record DownloadEvent : Type 0 where
  pub asset_id : String
  pub status : AssetStatus

pub data DownloadError : Type 0 where
  refused : DownloadRefusal → DownloadError
  transfer_failed : TransferFailure → DownloadError

pub record Manager : Type 0 where
  pub states : Table AssetState
  -- `downloads.json`
  pub saved_states : Table AssetState
  pub consents : Consents
  pub cache : Table Entry
  -- `pipeline-inventory-cache.json`
  pub saved_cache : Table Entry
  pub cancelled_ids : List String
  pub disk : Disk
  -- The partial files, by the file that they become.
  pub parts : String → Option (List ℕ)
  pub events : List DownloadEvent

abbrev pub DownloadReply : Type 0
DownloadReply = Manager × Result DownloadError String

-- `self.state[asset_id] = …` and `_save`
abbrev pub set_state : Manager → String → AssetState → Manager
set_state g id s = record g { states = store g.states id s; saved_states = store g.states id s }

abbrev pub emit : Manager → String → AssetStatus → Manager
emit g id s = record g { events = g.events ++ record { asset_id = id; status = s } ∷ [] }

abbrev pub mark_needs_repair : Manager → String → String → Manager
mark_needs_repair g id message = set_state g id (AssetState.wants_repair message)

abbrev pub discard : List String → String → List String
discard [] id = []
discard (x ∷ xs) id = let rest = discard xs id in if x =s= id then rest else x ∷ rest

-- `cancel`
abbrev pub cancel_asset : Manager → String → Manager
cancel_asset g id = record g { cancelled_ids = id ∷ g.cancelled_ids }

abbrev pub clear_cancel : Manager → String → Manager
clear_cancel g id = record g { cancelled_ids = discard g.cancelled_ids id }

abbrev pub at_path {ℓ} : {A : Type ℓ} → (String → A) → String → A → String → A
at_path f p v q = if p =s= q then v else f q

abbrev pub wanted : ManagedAsset → Wanted
wanted a = record {
  sha256 = a.sha256;
  max_bytes = if ltb 0 a.size_bytes then a.size_bytes + 1024 * 1024 else 128 * 1024 * 1024;
  size = if ltb 0 a.size_bytes then some a.size_bytes else none;
}

abbrev pub content_at : Option DiskFile → Option (List ℕ)
content_at none = none
content_at (some f) = some f.content

-- The file that `os.replace` puts in place, with the metadata that the parameter gives it.
abbrev pub placed : (List ℕ → DiskFile) → Option (List ℕ) → Option DiskFile
placed new none = none
placed new (some b) = some (record (new b) { content = b })

module _ (m : Machine) (digest_json : Fields → String) (platform : String)
    (new : List ℕ → DiskFile) where
  abbrev pub after_inventory :
      Manager → Step (List InventoryRow) → ℕ → Manager × Result DownloadRefusal (Unit {0})
  after_inventory g s extra_bytes = elim s.result [
    | err e ↦ (record g { cache = s.cache }, err e)
    | ok rows ↦ (
      record g { cache = s.cache; saved_cache = s.cache },
      if lacks_space (estimate m rows).available_bytes (needed_bytes (estimate m rows) extra_bytes)
          then err DownloadRefusal.no_space
          else ok tt,
    )
  ]

  unfoldable pub check_disk_space :
      Manager → List ManagedAsset → ℕ → Manager × Result DownloadRefusal (Unit {0})
  unfolding estimate inventory_cached
  check_disk_space g assets extra_bytes =
      after_inventory g
        (inventory_cached m digest_json platform g.disk g.states g.consents.now true g.cache assets)
        extra_bytes

  abbrev pub begin : Manager → ManagedAsset → String → String → Manager
  begin g a dest target =
      set_state (clear_cancel g a.asset_id) a.asset_id (AssetState.is_downloading dest target)

  -- What `download_verified` does at the target.
  abbrev pub transfer : Manager → ManagedAsset → String → Network → TransferOutcome
  transfer g a target net =
      download_verified m.hash (wanted a) net
        (record { part = g.parts target; destination = content_at (g.disk target) })

  abbrev pub failed_state : String → TransferFailure → AssetState
  failed_state dest TransferFailure.cancelled = AssetState.is_cancelled dest
  failed_state dest e = AssetState.has_failed dest e

  -- The file is replaced by a success only.
  abbrev pub conclude :
      Manager
      → ManagedAsset
      → String
      → String
      → PartFiles
      → Result TransferFailure (Unit {0})
      → DownloadReply
  conclude g a dest target files (ok u) = (
    emit
        (set_state
          (record g {
            parts = at_path g.parts target files.part;
            disk = at_path g.disk target (placed new files.destination);
          })
          a.asset_id (AssetState.is_installed dest target))
        a.asset_id AssetStatus.installed,
    ok target,
  )
  conclude g a dest target files (err e) = (
    emit
        (set_state (record g { parts = at_path g.parts target files.part }) a.asset_id
          (failed_state dest e))
        a.asset_id (asset_status (failed_state dest e)),
    err (DownloadError.transfer_failed e),
  )

  abbrev pub fetch : Manager → ManagedAsset → String → String → Network → DownloadReply
  fetch g a dest target net =
      let o = transfer g a target net in
      conclude (begin g a dest target) a dest target o.files o.result

  abbrev pub reuse : Manager → ManagedAsset → String → DownloadReply
  reuse g a dest = (
    emit (set_state g a.asset_id (AssetState.is_reused dest none)) a.asset_id AssetStatus.reused,
    ok dest,
  )

  -- To go on behind a check.
  abbrev pub if_ok :
      {A : Type 0}
      → Manager × Result DownloadRefusal (Unit {0})
      → (Manager → Manager × Result DownloadError A)
      → Manager × Result DownloadError A
  if_ok (g, err e) next = (g, err (DownloadError.refused e))
  if_ok (g, ok u) next = next g

  abbrev pub if_consent :
      {A : Type 0}
      → Manager
      → Result DownloadRefusal Bool
      → Manager × Result DownloadError A
      → Manager × Result DownloadError A
  if_consent g (err e) next = (g, err (DownloadError.refused e))
  if_consent g (ok false) next = (g, err (DownloadError.refused DownloadRefusal.consent_required))
  if_consent g (ok true) next = next

  abbrev pub permission : Manager → ManagedAsset → Bool → Result DownloadRefusal Bool
  permission g a false = ok true
  permission g a true = has_consent m g.disk g.consents.now a.consent_group (a ∷ []) []

  abbrev pub unless_ready :
      Manager → ManagedAsset → Bool → Network → String → String → DownloadReply
  unless_ready g a require_consent net dest target =
      let fetched =
        if_consent g (permission g a require_consent)
          (if_ok (check_disk_space g (a ∷ []) 0) λ h. fetch h a dest target net) in
      if is_asset_ready m a (g.disk dest) then reuse g a dest else fetched

  abbrev pub with_paths :
      Manager
      → Result DownloadRefusal String
      → Result DownloadRefusal String
      → (String → String → DownloadReply)
      → DownloadReply
  with_paths g (err e) target next = (g, err (DownloadError.refused e))
  with_paths g (ok dest) (err e) next = (g, err (DownloadError.refused e))
  with_paths g (ok dest) (ok target) next = next dest target

  unfoldable pub download : Manager → ManagedAsset → Bool → Network → DownloadReply
  unfolding check_disk_space download_verified has_consent
  download g a require_consent net =
      with_paths g (destination_of m a) (download_destination_of m a)
        (unless_ready g a require_consent net)

  abbrev pub then_path :
      DownloadReply
      → (Manager → Manager × Result DownloadError (List String))
      → Manager × Result DownloadError (List String)
  then_path (g, err e) next = (g, err e)
  then_path (g, ok path) next = let rest = next g in (rest.0, rest.1 >>= λ paths. ok (path ∷ paths))

  -- One asset after the other, up to the first that raises; `net` has what each meets.
  unfoldable pub download_all :
      Manager → List ManagedAsset → (ℕ → Network) → Manager × Result DownloadError (List String)
  unfolding download
  download_all g [] net = (g, ok [])
  download_all g (a ∷ as') net =
      then_path (download g a true (net 0)) λ h. download_all h as' λ i. net (i + 1)

  unfoldable pub download_group :
      Manager
      → List ManagedAsset
      → String
      → (ℕ → Network)
      → Manager × Result DownloadError (List String)
  unfolding download_all
  download_group g [] group net = (g, ok [])
  download_group g (a ∷ as') group net =
      if_consent g (has_consent m g.disk g.consents.now group (a ∷ as') [])
        (if_ok (check_disk_space g (a ∷ as') 0) λ h. download_all h (a ∷ as') net)
