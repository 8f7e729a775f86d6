-- ===== src/Downloads.antt =====
-- pipeline/clipgauge_pipeline/downloads.py: the managed assets, their states and the consents.
-- Paths are texts: what `resolve` makes of one, and which ones lie inside the data root, are
-- parameters, and so are SHA-256 and the free space. Time stamps are left out.
pub mod Cache
pub mod Consent
pub mod Inventory
pub mod Space
pub mod Manager
use clipgauge.Common.{
  ℕ, ◌+◌, String, Bool, true, false, ◌&&◌, ◌||◌, not, Option, none, some, List, [], ◌∷◌, length,
  ◌==◌, ◌=s=◌, if◌then◌else◌, Result, ok, err,
}
use clipgauge.Text.Lower.{same_lower}

-- The fields of `ManagedAsset` that decide anything; `download_destination` is empty for None.
pub record ManagedAsset : Type 0 where
  pub asset_id : String
  pub destination : String
  pub size_bytes : ℕ
  pub sha256 : String
  pub required : Bool
  pub consent_group : String
  pub installed_size_bytes : ℕ
  pub source_revision : String
  pub platform : String
  pub download_destination : String

pub record Stat : Type 0 where
  pub device : ℕ
  pub inode : ℕ
  pub size : ℕ
  pub mtime_ns : ℕ

-- A file with its stat, but for the size, which is the content's.
pub record DiskFile : Type 0 where
  pub content : List ℕ
  pub device : ℕ
  pub inode : ℕ
  pub mtime_ns : ℕ

abbrev pub stat : DiskFile → Stat
stat f = record {
  device = f.device;
  inode = f.inode;
  size = length f.content;
  mtime_ns = f.mtime_ns;
}

-- The files of the disk by their resolved paths.
abbrev pub Disk : Type 0
Disk = String → Option DiskFile

pub record Machine : Type 0 where
  -- `(self.root / p).resolve()`
  pub resolve : String → String
  -- `p == self.root or self.root in p.parents`
  pub is_inside : String → Bool
  pub hash : List ℕ → String
  -- `shutil.disk_usage(self.root).free`, if that raises nothing
  pub free : Option ℕ

pub data DownloadRefusal : Type 0 where
  escapes consent_required over_budget no_space : DownloadRefusal

module _ (m : Machine) where
  abbrev pub checked_path : String → Result DownloadRefusal String
  checked_path p = if not (m.is_inside p) then err escapes else ok p

  -- `_destination`
  abbrev pub destination_of : ManagedAsset → Result DownloadRefusal String
  destination_of a = checked_path (m.resolve a.destination)

  -- `_download_destination`
  abbrev pub download_destination_of : ManagedAsset → Result DownloadRefusal String
  download_destination_of a =
      if a.download_destination =s= ""
      then destination_of a
      else checked_path (m.resolve a.download_destination)

  abbrev pub has_size : ManagedAsset → DiskFile → Bool
  has_size a f = a.size_bytes == 0 || length f.content == a.size_bytes

  -- The first part of what `_asset_ready` returns.
  abbrev pub is_asset_ready : ManagedAsset → Option DiskFile → Bool
  is_asset_ready a none = false
  is_asset_ready a (some f) = has_size a f && same_lower (m.hash f.content) a.sha256

  -- The second part.
  abbrev pub digest_of : Option DiskFile → Option String
  digest_of none = none
  digest_of (some f) = some (m.hash f.content)
