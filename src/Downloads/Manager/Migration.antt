-- ===== src/Downloads/Manager/Migration.antt =====
-- `migrate_legacy_asset` of pipeline/clipgauge_pipeline/downloads.py: a file that an earlier version
-- left is taken over. The copy of a file has its content; what raises an `OSError` is left out.
use clipgauge.Common.{
  ℕ, String, ◌≡◌, refl, true, Option, none, some, List, [], ◌∷◌, eq_refl, if◌then◌else◌, if_ind,
  Bool-cases, inl, inr, Result, ok, err,
}
use clipgauge.Text.Lower.{same_lower}
use clipgauge.Downloads.{
  ManagedAsset, DiskFile, Machine, DownloadRefusal, destination_of, is_asset_ready,
}
use clipgauge.Downloads.Inventory.{AssetState}
use clipgauge.Downloads.Manager.{Manager, set_state, at_path, placed, content_at}

pub data Migrated : Type 0 where
  already_ready taken_over not_found : Migrated

module _ (m : Machine) (new : List ℕ → DiskFile) where
  abbrev pub take_over : Manager → ManagedAsset → String → String → Manager
  take_over g a dest candidate =
      set_state
        (record g { disk = at_path g.disk dest (placed new (content_at (g.disk candidate))) })
        a.asset_id (AssetState.is_reused dest (some candidate))

  -- The first candidate with the size and the hash.
  unfoldable pub migrate_from : Manager → ManagedAsset → String → List String → Manager × Migrated
  unfolding same_lower
  migrate_from g a dest [] = (g, not_found)
  migrate_from g a dest (c ∷ cs) =
      let rest = migrate_from g a dest cs in
      if is_asset_ready m a (g.disk (m.resolve c))
      then (take_over g a dest (m.resolve c), taken_over)
      else rest

  abbrev pub unless_present :
      Manager
      → ManagedAsset
      → Result DownloadRefusal String
      → List String
      → Manager × Result DownloadRefusal Migrated
  unless_present g a (err e) candidates = (g, err e)
  unless_present g a (ok dest) candidates =
      let migrated = migrate_from g a dest candidates in
      if is_asset_ready m a (g.disk dest)
      then (g, ok already_ready)
      else (migrated.0, ok migrated.1)

  unfoldable pub migrate_legacy_asset :
      Manager → ManagedAsset → List String → Manager × Result DownloadRefusal Migrated
  unfolding migrate_from
  migrate_legacy_asset g a candidates = unless_present g a (destination_of m a) candidates

  -- The verdict on a migration to `dest`: unless nothing is found, the asset is ready.
  abbrev pub IsMigrated : Manager → ManagedAsset → String → Manager × Migrated → Type 0
  IsMigrated g a dest (h, not_found) = h ≡ g
  IsMigrated g a dest (h, _) = is_asset_ready m a (h.disk dest) ≡ true

  copied :
      (a : ManagedAsset) (file : Option DiskFile)
      → is_asset_ready m a file ≡ true
      → is_asset_ready m a (placed new (content_at file)) ≡ true
  copied a none h = h
  copied a (some f) h = h

  migrate_from-IsMigrated :
      (g : Manager) (a : ManagedAsset) (dest : String) (candidates : List String)
      → IsMigrated g a dest (migrate_from g a dest candidates)
  unfolding migrate_from
  migrate_from-IsMigrated g a dest [] = refl
  migrate_from-IsMigrated g a dest (c ∷ cs) =
      if_ind (IsMigrated g a dest) (is_asset_ready m a (g.disk (m.resolve c)))
        (λ there. rw (eq_refl dest) (copied a (g.disk (m.resolve c)) there))
        (λ _. migrate_from-IsMigrated g a dest cs)

  -- Where the asset's destination lies inside the data root: either the asset is ready there after
  -- the migration, or no candidate was right and nothing has changed.
  pub migrate_legacy_asset-IsMigrated :
      (g : Manager) (a : ManagedAsset) (dest : String) (candidates : List String)
      → destination_of m a ≡ ok dest
      → (r : Manager × Migrated) × (migrate_legacy_asset g a candidates ≡ (r.0, ok r.1))
        × IsMigrated g a dest r
  unfolding migrate_legacy_asset
  migrate_legacy_asset-IsMigrated g a dest candidates h =
      elim (Bool-cases (is_asset_ready m a (g.disk dest))) [
        | inl there ↦ ((g, already_ready), rw (h, there) refl, there)
        | inr missing ↦ (
          migrate_from g a dest candidates,
          rw (h, missing) refl,
          migrate_from-IsMigrated g a dest candidates,
        )
      ]
