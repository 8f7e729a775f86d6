-- ===== src/Downloads/Manager/Settled.antt =====
-- What a download leaves: the state of the asset, in memory and in the file, and the disk.
use clipgauge.Common.{
  ℕ, String, ◌≡◌, refl, ◌∙◌, Bool, true, false, Option, none, some, List, [], ◌∷◌, ◌=s=◌, eq_refl,
  arith, if_ind, Result, ok, err, Table, lookup, lookup-store_same, lookup-store_other,
}
use clipgauge.Json.{Fields}
use clipgauge.Transfer.{Network, PartFiles, TransferFailure}
use clipgauge.Transfer.Verified.{
  IsThere, IsInstalled, InstalledIfOk, download_verified-InstalledIfOk,
}
use clipgauge.Downloads.{
  ManagedAsset, DiskFile, Machine, DownloadRefusal, destination_of, download_destination_of,
  is_asset_ready,
}
use clipgauge.Downloads.Cache.{Entry}
use clipgauge.Downloads.Inventory.{
  AssetState, asset_status, is_present, InventoryRow, Step, inventory_cached,
}
use clipgauge.Downloads.Space.{estimate, lacks_space, needed_bytes}
use clipgauge.Downloads.Manager.{
  DownloadError, Manager, DownloadReply, wanted, placed, content_at, after_inventory,
  check_disk_space, begin, transfer, failed_state, conclude, fetch, reuse, if_ok, if_consent,
  permission, unless_ready, with_paths, download,
}

module _ (m : Machine) (digest_json : Fields → String) (platform : String)
    (new : List ℕ → DiskFile) where
  -- The state of the asset satisfies `P`.
  abbrev pub HasState : (AssetState → Type 0) → Manager → ManagedAsset → Type 0
  HasState P h a = (s : AssetState) × (lookup h.states a.asset_id ≡ some s) × P s

  -- By the result: after a success the state says so and the file that is returned is ready. After
  -- a failed transfer the state says how it failed. A refusal changes no state.
  abbrev pub Verdict : Manager → ManagedAsset → Manager → Result DownloadError String → Type 0
  Verdict g a h (ok path) =
      HasState (λ s. is_present (asset_status s) ≡ true) h a
      × (is_asset_ready m a (h.disk path) ≡ true)
      × ((q : String) → (path =s= q) ≡ false → (h.disk q ≡ g.disk q) × (h.parts q ≡ g.parts q))
  Verdict g a h (err (DownloadError.transfer_failed e)) =
      HasState (λ s. (dest : String) × (s ≡ failed_state m digest_json platform new dest e)) h a
      × (h.disk ≡ g.disk)
  Verdict g a h (err (DownloadError.refused e)) =
      (h.states ≡ g.states) × (h.disk ≡ g.disk) × (h.parts ≡ g.parts) × (h.events ≡ g.events)

  pub record IsSettled (g : Manager) (a : ManagedAsset) (r : DownloadReply) : Type 0 where
    pub verdict : Verdict g a r.0 r.1
    pub saved : r.0.saved_states ≡ r.0.states
    pub others : (j : String) → (a.asset_id =s= j) ≡ false → lookup r.0.states j ≡ lookup g.states j
    pub keeps_consents : r.0.consents ≡ g.consents

  -- `check_disk_space` touches the cache only.
  pub check_disk_space_ind :
      {A : Type 0} (P : Manager × Result DownloadError A → Type 0) (g : Manager)
      (assets : List ManagedAsset) (extra : ℕ) (next : Manager → Manager × Result DownloadError A)
      → ((c d : Table Entry) (e : DownloadRefusal)
          → P (record g { cache = c; saved_cache = d }, err (DownloadError.refused e)))
      → ((c d : Table Entry) → P (next (record g { cache = c; saved_cache = d })))
      → P (
          if_ok m digest_json platform new
            (check_disk_space m digest_json platform new g assets extra)
            next)
  unfolding check_disk_space
  check_disk_space_ind P g assets extra next stop go = on_step rows.cache rows.result
    where
      rows : Step (List InventoryRow)
      rows =
          inventory_cached m digest_json platform g.disk g.states g.consents.now true g.cache assets

      on_step :
          (c : Table Entry) (r : Result DownloadRefusal (List InventoryRow))
          → P (
              if_ok m digest_json platform new
                (after_inventory m digest_json platform new g
                  (record { cache = c; result = r })
                  extra)
                next)
      on_step c (err e) = stop c g.saved_cache e
      on_step c (ok found) =
          if_ind
            (λ r.
              P (
                if_ok m digest_json platform new (record g { cache = c; saved_cache = c }, r) next))
            (lacks_space (estimate m found).available_bytes (needed_bytes (estimate m found) extra))
            (λ _. stop c c DownloadRefusal.no_space) (λ _. go c c)

  -- A file that is installed is ready.
  placed-is_asset_ready :
      (a : ManagedAsset) (files : PartFiles)
      → IsInstalled m.hash (wanted a) files
      → is_asset_ready m a (placed new files.destination) ≡ true
  placed-is_asset_ready a files h = at files.destination h.1
    where
      at :
          (found : Option (List ℕ))
          → IsThere m.hash (wanted a) found
          → is_asset_ready m a (placed new found) ≡ true
      at none h = elim h [ ]
      at (some b) h = ground (arith, h.right_hash, h.right_size)

  conclude-IsSettled :
      (g : Manager) (a : ManagedAsset) (dest target : String) (files : PartFiles)
      (r : Result TransferFailure (Unit {0})) (c d : Table Entry)
      → InstalledIfOk m.hash (wanted a) files r
      → IsSettled g a (
          conclude m digest_json platform new
            (begin m digest_json platform new
              (record g { cache = c; saved_cache = d })
              a
              dest
              target)
            a
            dest
            target
            files
            r)
  conclude-IsSettled g a dest target files (ok u) c d h = record {
    verdict = (
      (_, lookup-store_same _ a.asset_id _, refl),
      rw (eq_refl target) (placed-is_asset_ready a files h),
      λ q apart. (rw apart refl, rw apart refl),
    );
    saved = refl;
    others =
        λ j ne. lookup-store_other _ a.asset_id j _ ne ∙ lookup-store_other _ a.asset_id j _ ne;
    keeps_consents = refl;
  }
  conclude-IsSettled g a dest target files (err e) c d h = record {
    verdict = ((_, lookup-store_same _ a.asset_id _, (dest, refl)), refl);
    saved = refl;
    others =
        λ j ne. lookup-store_other _ a.asset_id j _ ne ∙ lookup-store_other _ a.asset_id j _ ne;
    keeps_consents = refl;
  }

  refused-IsSettled :
      (g : Manager) (a : ManagedAsset) (c d : Table Entry) (e : DownloadRefusal)
      → g.saved_states ≡ g.states
      → IsSettled g a (record g { cache = c; saved_cache = d }, err (DownloadError.refused e))
  refused-IsSettled g a c d e saved = record {
    verdict = (refl, refl, refl, refl);
    saved = saved;
    others = λ j ne. refl;
    keeps_consents = refl;
  }

  fetch-IsSettled :
      (g : Manager) (a : ManagedAsset) (dest target : String) (net : Network) (c d : Table Entry)
      → IsSettled g a (
          fetch m digest_json platform new
            (record g { cache = c; saved_cache = d })
            a
            dest
            target
            net)
  fetch-IsSettled g a dest target net c d =
      let o = transfer m digest_json platform new g a target net in
      conclude-IsSettled g a dest target o.files o.result c d (
        download_verified-InstalledIfOk m.hash (wanted a) net
          (record { part = g.parts target; destination = content_at (g.disk target) }))

  reuse-IsSettled :
      (g : Manager) (a : ManagedAsset) (dest : String)
      → is_asset_ready m a (g.disk dest) ≡ true
      → IsSettled g a (reuse m digest_json platform new g a dest)
  reuse-IsSettled g a dest there = record {
    verdict = ((_, lookup-store_same _ a.asset_id _, refl), there, λ q apart. (refl, refl));
    saved = refl;
    others = λ j ne. lookup-store_other _ a.asset_id j _ ne;
    keeps_consents = refl;
  }

  unless_ready-IsSettled :
      (g : Manager) (a : ManagedAsset) (require_consent : Bool) (net : Network)
      (dest target : String)
      → g.saved_states ≡ g.states
      → IsSettled g a (unless_ready m digest_json platform new g a require_consent net dest target)
  unless_ready-IsSettled g a require_consent net dest target saved =
      if_ind (IsSettled g a) (is_asset_ready m a (g.disk dest)) (reuse-IsSettled g a dest)
        (λ _. permitted (permission m digest_json platform new g a require_consent))
    where
      permitted :
          (p : Result DownloadRefusal Bool)
          → IsSettled g a (
              if_consent m digest_json platform new g p (
                if_ok m digest_json platform new
                  (check_disk_space m digest_json platform new g (a ∷ []) 0)
                  (λ h. fetch m digest_json platform new h a dest target net)))
      permitted (err e) = refused-IsSettled g a g.cache g.saved_cache e saved
      permitted (ok false) =
          refused-IsSettled g a g.cache g.saved_cache DownloadRefusal.consent_required saved
      permitted (ok true) =
          check_disk_space_ind (IsSettled g a) g (a ∷ []) 0
            (λ h. fetch m digest_json platform new h a dest target net)
            (λ c d e. refused-IsSettled g a c d e saved) (fetch-IsSettled g a dest target net)

  -- Where the saved states agree with those in memory, however a download ends: a path that is
  -- returned holds a file that is ready, the asset is installed or reused, and the files and partial
  -- files at all other paths are as they were; a failed transfer leaves the disk's files and the
  -- asset as cancelled or failed, so that it never stays `downloading`; a refusal changes no state,
  -- file, partial file or event. The states of all other assets and the consents are kept, and the
  -- saved states agree with those in memory again.
  pub download-IsSettled :
      (g : Manager) (a : ManagedAsset) (require_consent : Bool) (net : Network)
      → g.saved_states ≡ g.states
      → IsSettled g a (download m digest_json platform new g a require_consent net)
  unfolding download
  download-IsSettled g a require_consent net saved =
      on_paths (destination_of m a) (download_destination_of m a)
    where
      on_paths :
          (dest target : Result DownloadRefusal String)
          → IsSettled g a (
              with_paths m digest_json platform new g dest target
                (unless_ready m digest_json platform new g a require_consent net))
      on_paths (err e) target = refused-IsSettled g a g.cache g.saved_cache e saved
      on_paths (ok dest) (err e) = refused-IsSettled g a g.cache g.saved_cache e saved
      on_paths (ok dest) (ok target) =
          unless_ready-IsSettled g a require_consent net dest target saved
