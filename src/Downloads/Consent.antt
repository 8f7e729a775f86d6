-- ===== src/Downloads/Consent.antt =====
-- Consents of pipeline/clipgauge_pipeline/downloads.py: a group of assets is approved with a budget
-- of bytes.
pub mod Granted
use clipgauge.Common.{
  ℕ, ◌+◌, String, Bool, true, false, ◌&&◌, ◌||◌, not, Option, none, some, List, [], ◌∷◌, map, ltb,
  leb, ◌=s=◌, if◌then◌else◌, Result, ok, err, ◌>>=◌, Table, lookup, store, drop_key,
}
use clipgauge.Downloads.{
  ManagedAsset, Disk, Machine, DownloadRefusal, destination_of, is_asset_ready,
}
use clipgauge.Collections.{contains, all_in}

pub record Consent : Type 0 where
  pub asset_ids : List String
  pub download_bytes : ℕ
  pub budget_bytes : ℕ

-- The consents in memory and in the file.
pub record Consents : Type 0 where
  pub now : Table Consent
  pub saved : Table Consent

abbrev pub ids_of : List ManagedAsset → List String
ids_of = map λ a. a.asset_id

abbrev pub default_to : ℕ → Option ℕ → ℕ
default_to d none = d
default_to d (some n) = n

abbrev pub exceeds_budget : Option ℕ → ℕ → Bool
exceeds_budget none total = false
exceeds_budget (some budget) total = ltb budget total

module _ (m : Machine) (disk : Disk) where
  abbrev pub bytes_to_get : ManagedAsset → String → ℕ
  bytes_to_get a path = if is_asset_ready m a (disk path) then 0 else a.size_bytes

  -- The sizes of the assets that are neither known as verified nor ready.
  unfoldable pub missing_bytes : List String → List ManagedAsset → Result DownloadRefusal ℕ
  missing_bytes verified [] = ok 0
  missing_bytes verified (a ∷ as') =
      let rest = missing_bytes verified as' in
      if contains verified a.asset_id
      then rest
      else (destination_of m a >>= λ path. rest >>= λ n. ok (bytes_to_get a path + n))

  abbrev pub has_granted :
      List String → List ManagedAsset → Option Consent → Result DownloadRefusal Bool
  has_granted verified assets none = ok false
  has_granted verified assets (some c) =
      if not (all_in c.asset_ids (ids_of assets))
      then ok false
      else (missing_bytes verified assets >>= λ n. ok (leb n c.budget_bytes))

  unfoldable pub has_consent :
      Table Consent → String → List ManagedAsset → List String → Result DownloadRefusal Bool
  unfolding lookup missing_bytes
  has_consent consents group assets verified = has_granted verified assets (lookup consents group)

  abbrev pub with_consents : Table Consent → Consents
  with_consents t = record { now = t; saved = t }

  -- `sorted` on texts is a parameter.
  unfoldable pub grant_consent :
      (List String → List String)
      → Consents
      → String
      → List ManagedAsset
      → Option ℕ
      → Result DownloadRefusal Consents
  unfolding missing_bytes store
  grant_consent sorted consents group assets budget = missing_bytes [] assets >>= λ total.
      if exceeds_budget budget total
      then err DownloadRefusal.over_budget
      else ok (
          with_consents (
            store consents.now group (record {
              asset_ids = sorted (ids_of assets);
              download_bytes = total;
              budget_bytes = default_to total budget;
            })))

  unfoldable pub revoke_consent : Consents → String → Consents
  unfolding drop_key
  revoke_consent consents group = with_consents (drop_key consents.now group)
