-- ===== src/Downloads/Cache.antt =====
-- `VersionedInventoryCache` of pipeline/clipgauge_pipeline/downloads.py: a file is not hashed again
-- while its metadata stay the same.
use clipgauge.Common.{
  String, Bool, ◌&&◌, not, Option, none, some, ltb, ◌==◌, ◌=s=◌, if◌then◌else◌, Table, lookup,
  store,
}
use Prim.Native.String.{◌++◌}
use clipgauge.Json.{Value, Fields}
use clipgauge.Text.Lower.{same_lower}
use clipgauge.Downloads.{ManagedAsset, Stat, DiskFile, stat}

-- The fields of an entry that decide anything; its `size`, `mtime_ns` and `file_identity` are
-- `seen`.
pub record Entry : Type 0 where
  pub canonical_path : String
  pub expected_hash : String
  pub verified_hash : String
  pub seen : Stat
  pub manifest_digest : String
  pub platform : String

abbrev pub key_of : ManagedAsset → String
key_of a = a.asset_id ++ "|" ++ a.destination

abbrev pub manifest_record : ManagedAsset → Fields
manifest_record a = Fields.field "asset_id" (Value.str a.asset_id) (
    Fields.field "destination" (Value.str a.destination) (
      Fields.field "sha256" (Value.str a.sha256) (
        Fields.field "size_bytes" (Value.num a.size_bytes) (
          Fields.field "platform" (Value.str a.platform)
            (Fields.field "source_revision" (Value.str a.source_revision) Fields.end)))))

-- `file_identity` is not None.
abbrev pub has_identity : Stat → Bool
has_identity s = ltb 0 s.device && ltb 0 s.inode

abbrev pub same_stat : Stat → Stat → Bool
same_stat s t =
    s.device == t.device && s.inode == t.inode && s.size == t.size && s.mtime_ns == t.mtime_ns

-- The SHA-256 of a JSON text, and the platform of the cache.
module _ (digest_json : Fields → String) (platform : String) where
  abbrev pub asset_manifest_digest : ManagedAsset → String
  asset_manifest_digest a = digest_json (manifest_record a)

  abbrev pub is_current : ManagedAsset → String → Stat → Entry → Bool
  is_current a path s e =
      e.canonical_path =s= path
      && same_lower e.expected_hash a.sha256
      && same_stat e.seen s
      && same_lower e.verified_hash a.sha256
      && e.manifest_digest =s= asset_manifest_digest a
      && e.platform =s= platform

  abbrev pub if_current : ManagedAsset → String → Stat → Option Entry → Option Entry
  if_current a path s none = none
  if_current a path s (some e) = if is_current a path s e then some e else none

  -- `lookup`, of the file at the resolved path.
  unfoldable pub lookup_entry : Table Entry → ManagedAsset → String → Option DiskFile → Option Entry
  unfolding lookup same_lower
  lookup_entry entries a path none = none
  lookup_entry entries a path (some f) =
      if not (has_identity (stat f))
      then none
      else if_current a path (stat f) (lookup entries (key_of a))

  abbrev pub new_entry : ManagedAsset → String → DiskFile → String → Entry
  new_entry a path f verified_hash = record {
    canonical_path = path;
    expected_hash = a.sha256;
    verified_hash = verified_hash;
    seen = stat f;
    manifest_digest = asset_manifest_digest a;
    platform = platform;
  }

  -- `record`
  unfoldable pub record_entry :
      Table Entry → ManagedAsset → String → Option DiskFile → String → Table Entry
  unfolding store
  record_entry entries a path none verified_hash = entries
  record_entry entries a path (some f) verified_hash =
      store entries (key_of a) (new_entry a path f verified_hash)
