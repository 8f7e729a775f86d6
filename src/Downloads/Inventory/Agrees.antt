-- ===== src/Downloads/Inventory/Agrees.antt =====
-- The inventory with the cache beside the inventory without it, from
-- pipeline/clipgauge_pipeline/downloads.py.
use clipgauge.Common.{
  String, ◌≡◌, refl, ap, ◌∙◌, Bool, true, some, List, [], ◌∷◌, map, arith, if◌then◌else◌, Result,
  ok, err, ◌>>=◌, All, Table, lookup,
}
use clipgauge.Json.{Fields}
use clipgauge.Downloads.{ManagedAsset, DiskFile, Disk, Machine, DownloadRefusal, destination_of}
use clipgauge.Downloads.Cache.{Entry}
use clipgauge.Downloads.Consent.{Consent, has_consent}
use clipgauge.Downloads.Inventory.{
  Verification, AssetState, Probe, InventoryRow, Step, fresh_probe, probe_plain, probe_cached,
  with_row, verified_ids, make_row, on_path, plain_asset_row, cached_asset_row, and_then, rows_with,
  inventory, inventory_cached,
}
use clipgauge.Downloads.Inventory.Faithful.{StatDecides, DigestDecides}
use clipgauge.Downloads.Inventory.Probes.{AreFaithful, IsRight, probe-IsRight, has_consent-verified}

module _ (m : Machine) (digest_json : Fields → String) (platform : String)
    (Seen : String → DiskFile → Type 0) (Known : ManagedAsset → Type 0)
    (stat_decides : StatDecides m digest_json platform Seen Known)
    (digest_decides : DigestDecides m digest_json platform Seen Known) (disk : Disk)
    (states : Table AssetState) (consents : Table Consent) where
  -- A row but for how it was found.
  abbrev pub as_fresh : InventoryRow → InventoryRow
  as_fresh r = record r { verification = Verification.fresh_hash }

  -- What is shown of a step.
  abbrev shown : Result DownloadRefusal InventoryRow → Result DownloadRefusal InventoryRow
  shown r = r >>= λ x. ok (as_fresh x)

  record IsAgreed (s t : Step InventoryRow) : Type 0 where
    same : shown s.result ≡ t.result
    keeps :
        AreFaithful m digest_json platform Seen Known stat_decides digest_decides disk states
          consents s.cache

  shown_bind :
      (r : Result DownloadRefusal Bool) (f g : Bool → InventoryRow)
      → ((b : Bool) → as_fresh (f b) ≡ g b)
      → shown (r >>= λ b. ok (f b)) ≡ (r >>= λ b. ok (g b))
  shown_bind (ok b) f g h = ap ok (h b)
  shown_bind (err e) f g h = refl

  with_row-IsAgreed :
      (a : ManagedAsset) (path : String) (p : Probe) (other : Table Entry)
      → destination_of m a ≡ ok path
      → IsRight m digest_json platform Seen Known stat_decides digest_decides disk states consents a
          (disk path)
          p
      → IsAgreed
          (with_row m digest_json platform disk states consents a path
            (verified_ids m digest_json platform disk states consents a p.installed)
            p)
          (with_row m digest_json platform disk states consents a path []
            (fresh_probe m digest_json platform disk states consents other a (disk path)))
  with_row-IsAgreed a path p other h right = record {
    same =
        shown_bind
          (has_consent m disk consents a.consent_group (a ∷ [])
            (if p.installed then a.asset_id ∷ [] else []))
          (make_row a path (disk path) p (lookup states a.asset_id)) plain
          (λ b. rw (right.finds, right.hashes) refl)
        ∙ ap (λ (r : Result DownloadRefusal Bool). r >>= λ b. ok (plain b))
            (rw right.finds (
              has_consent-verified m digest_json platform Seen Known stat_decides digest_decides
                disk states consents a path h));
    keeps = right.keeps;
  }
    where
      plain : Bool → InventoryRow
      plain =
          make_row a path (disk path)
            (fresh_probe m digest_json platform disk states consents other a (disk path))
            (lookup states a.asset_id)

  cached_asset_row-IsAgreed :
      (cache other : Table Entry) (a : ManagedAsset) (path : Result DownloadRefusal String)
      → destination_of m a ≡ path
      → AreFaithful m digest_json platform Seen Known stat_decides digest_decides disk states
          consents cache
      → Known a
      → ((p : String) (f : DiskFile) → disk p ≡ some f → Seen p f)
      → IsAgreed
          (on_path m digest_json platform disk states consents cache path λ p.
            let probe = probe_cached m digest_json platform disk states consents true cache a p in
            with_row m digest_json platform disk states consents a p
              (verified_ids m digest_json platform disk states consents a probe.installed)
              probe)
          (on_path m digest_json platform disk states consents other path λ p.
            with_row m digest_json platform disk states consents a p []
              (probe_plain m digest_json platform disk states consents true other a p))
  cached_asset_row-IsAgreed cache other a (err e) h all known seen = record {
    same = refl;
    keeps = all;
  }
  cached_asset_row-IsAgreed cache other a (ok p) h all known seen =
      with_row-IsAgreed a p
        (probe_cached m digest_json platform disk states consents true cache a p) other h
        (probe-IsRight m digest_json platform Seen Known stat_decides digest_decides disk states
          consents cache a p (disk p) all known (seen p))

  -- Rows but for how they were found.
  abbrev pub shown_rows :
      Result DownloadRefusal (List InventoryRow) → Result DownloadRefusal (List InventoryRow)
  shown_rows r = r >>= λ rows. ok (map as_fresh rows)

  shown_rows_cons :
      (x y : InventoryRow) (r q : Result DownloadRefusal (List InventoryRow))
      → as_fresh x ≡ y
      → shown_rows r ≡ q
      → shown_rows (r >>= λ rows. ok (x ∷ rows)) ≡ (q >>= λ rows. ok (y ∷ rows))
  shown_rows_cons x y (ok rows) q e h =
      ap (λ (z : InventoryRow). ok (z ∷ map as_fresh rows)) e
      ∙ ap (λ (r : Result DownloadRefusal (List InventoryRow)). r >>= λ rows. ok (y ∷ rows)) h
  shown_rows_cons x y (err d) q e h =
      ap (λ (r : Result DownloadRefusal (List InventoryRow)). r >>= λ rows. ok (y ∷ rows)) h

  -- The rows agree, and the cache behind them is in order.
  abbrev AreAgreed : Step (List InventoryRow) → Step (List InventoryRow) → Type 0
  AreAgreed s t =
      (shown_rows s.result ≡ t.result)
      × AreFaithful m digest_json platform Seen Known stat_decides digest_decides disk states
          consents s.cache

  and_then-AreAgreed :
      (cache other : Table Entry) (r q : Result DownloadRefusal InventoryRow)
      (f g : Table Entry → Step (List InventoryRow))
      → AreFaithful m digest_json platform Seen Known stat_decides digest_decides disk states
          consents cache
      → shown r ≡ q
      → ((c d : Table Entry)
          → AreFaithful m digest_json platform Seen Known stat_decides digest_decides disk states
              consents c
          → AreAgreed (f c) (g d))
      → AreAgreed
          (and_then m digest_json platform disk states consents
            (record { cache = cache; result = r })
            f)
          (and_then m digest_json platform disk states consents
            (record { cache = other; result = q })
            g)
  and_then-AreAgreed cache other (ok x) (ok y) f g all same next =
      let rest = next cache other all in
      (shown_rows_cons x y (f cache).result (g other).result (ground (arith, same)) rest.0, rest.1)
  and_then-AreAgreed cache other (err d) (err e) f g all same next = (ground (arith, same), all)
  and_then-AreAgreed cache other (ok x) (err e) f g all same next = ground (arith, same)
  and_then-AreAgreed cache other (err d) (ok y) f g all same next = ground (arith, same)

  rows_with-AreAgreed :
      (cache other : Table Entry) (assets : List ManagedAsset)
      → AreFaithful m digest_json platform Seen Known stat_decides digest_decides disk states
          consents cache
      → All Known assets
      → ((p : String) (f : DiskFile) → disk p ≡ some f → Seen p f)
      → AreAgreed
          (rows_with m digest_json platform disk states consents
            (cached_asset_row m digest_json platform disk states consents true)
            cache
            assets)
          (rows_with m digest_json platform disk states consents
            (plain_asset_row m digest_json platform disk states consents true)
            other
            assets)
  unfolding rows_with
  rows_with-AreAgreed cache other [] all known seen = (refl, all)
  rows_with-AreAgreed cache other (a ∷ as') all known seen =
      let first =
        cached_asset_row-IsAgreed cache other a (destination_of m a) refl all known.0 seen in
      and_then-AreAgreed _ (plain other a).cache _ _ _
        (λ d. rows_with m digest_json platform disk states consents plain d as') first.keeps
        first.same (λ c d right. rows_with-AreAgreed c d as' right known.1 seen)
    where
      plain : Table Entry → ManagedAsset → Step InventoryRow
      plain = plain_asset_row m digest_json platform disk states consents true

  -- Where a file that changes at a path changes its metadata, and a manifest hashed decides the
  -- size: with a cache of entries that were right when they were made, the inventory has the same
  -- rows, or raises the same, as if each file were hashed, and the cache stays in order.
  pub inventory_cached-inventory :
      (cache : Table Entry) (assets : List ManagedAsset)
      → AreFaithful m digest_json platform Seen Known stat_decides digest_decides disk states
          consents cache
      → All Known assets
      → ((p : String) (f : DiskFile) → disk p ≡ some f → Seen p f)
      → (shown_rows
            (inventory_cached m digest_json platform disk states consents true cache assets).result
          ≡ inventory m digest_json platform disk states consents true assets)
        × AreFaithful m digest_json platform Seen Known stat_decides digest_decides disk states
            consents
            (inventory_cached m digest_json platform disk states consents true cache assets).cache
  unfolding inventory_cached inventory
  inventory_cached-inventory cache assets all known seen =
      rows_with-AreAgreed cache Table.empty assets all known seen
