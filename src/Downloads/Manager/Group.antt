-- ===== src/Downloads/Manager/Group.antt =====
-- The states of assets behind the download of a group, in pipeline/clipgauge_pipeline/downloads.py.
use clipgauge.Common.{
  ℕ, ◌+◌, String, ◌≡◌, ◌≢◌, sym, ap, ◌∙◌, subst, inl, inr, Bool, true, false, some, List, [], ◌∷◌,
  ◌=s=◌, eq_iff, arith, Bool-cases, Result, ok, err, ◌>>=◌, All, Table, lookup,
}
use clipgauge.Json.{Fields}
use clipgauge.Transfer.{Network, TransferFailure}
use clipgauge.Downloads.{ManagedAsset, DiskFile, Machine, DownloadRefusal}
use clipgauge.Downloads.Cache.{Entry}
use clipgauge.Downloads.Consent.{has_consent}
use clipgauge.Downloads.Inventory.{AssetStatus, AssetState, asset_status, stored_status, is_present}
use clipgauge.Downloads.Manager.{
  DownloadError, Manager, DownloadReply, check_disk_space, failed_state, if_ok, if_consent,
  download, then_path, download_all, download_group,
}
use clipgauge.Downloads.Manager.Settled.{
  HasState, Verdict, IsSettled, check_disk_space_ind, download-IsSettled,
}

module _ (m : Machine) (digest_json : Fields → String) (platform : String)
    (new : List ℕ → DiskFile) where
  -- No asset is marked as being downloaded.
  abbrev pub IsIdle : Manager → Type 0
  IsIdle g = (j : String) → stored_status (lookup g.states j) ≢ AssetStatus.downloading

  abbrev pub IsPresent : Manager → ManagedAsset → Type 0
  IsPresent = HasState m digest_json platform new (λ s. is_present (asset_status s) ≡ true)

  failed_state_idle :
      (dest : String) (e : TransferFailure)
      → asset_status (failed_state m digest_json platform new dest e) ≢ AssetStatus.downloading
  failed_state_idle dest TransferFailure.cancelled h = ground arith
  failed_state_idle dest TransferFailure.no_digest h = ground arith
  failed_state_idle dest TransferFailure.interrupted h = ground arith
  failed_state_idle dest TransferFailure.too_large h = ground arith
  failed_state_idle dest TransferFailure.wrong_size h = ground arith
  failed_state_idle dest TransferFailure.wrong_hash h = ground arith
  failed_state_idle dest TransferFailure.retries_exhausted h = ground arith
  failed_state_idle dest (TransferFailure.http_status n) h = ground arith
  failed_state_idle dest (TransferFailure.http_status_after_retries n) h = ground arith

  -- The asset itself is not left as being downloaded.
  settled_here :
      (g : Manager) (a : ManagedAsset) (h : Manager) (r : Result DownloadError String)
      → Verdict m digest_json platform new g a h r
      → IsIdle g
      → stored_status (lookup h.states a.asset_id) ≢ AssetStatus.downloading
  settled_here g a h (ok path) ((s, at, present), there, kept) idle e =
      ground (arith, ap stored_status at, present, e)
  settled_here g a h (err (DownloadError.transfer_failed f)) ((s, at, (dest, is)), same) idle e =
      failed_state_idle dest f (sym (ap stored_status at ∙ ap asset_status is) ∙ e)
  settled_here g a h (err (DownloadError.refused f)) (same, disk, parts, events) idle e =
      idle a.asset_id (sym (ap (λ t. stored_status (lookup t a.asset_id)) same) ∙ e)

  settled-IsIdle :
      (g : Manager) (a : ManagedAsset) (r : DownloadReply)
      → IsSettled m digest_json platform new g a r
      → IsIdle g
      → IsIdle r.0
  settled-IsIdle g a r settled idle j = elim (Bool-cases (a.asset_id =s= j)) [
    | inl same ↦
        subst (λ k. stored_status (lookup r.0.states k) ≢ AssetStatus.downloading)
          ((eq_iff a.asset_id j).0 same) (settled_here g a r.0 r.1 settled.verdict idle)
    | inr other ↦ λ e. idle j (sym (ap stored_status (settled.others j other)) ∙ e)
  ]

  -- An asset that is there stays so.
  settled-IsPresent :
      (g : Manager) (a b : ManagedAsset) (h : Manager) (path : String)
      → IsSettled m digest_json platform new g a (h, ok path)
      → IsPresent g b
      → IsPresent h b
  settled-IsPresent g a b h path settled (s, at, present) =
      elim (Bool-cases (a.asset_id =s= b.asset_id)) [
        | inl same ↦
            subst
              (λ k.
                (s : AssetState) × (lookup h.states k ≡ some s)
                × (is_present (asset_status s) ≡ true))
              ((eq_iff a.asset_id b.asset_id).0 same) settled.verdict.0
        | inr other ↦ (s, settled.others b.asset_id other ∙ at, present)
      ]

  -- What a series of downloads leaves: file and memory agree, nothing is being downloaded, and if
  -- nothing was raised, then all of the assets are there, and those that were there still are.
  abbrev pub IfAll :
      Manager → List ManagedAsset → Manager → Result DownloadError (List String) → Type 0
  IfAll g assets h (ok paths) =
      All (IsPresent h) assets × ((b : ManagedAsset) → IsPresent g b → IsPresent h b)
  IfAll g assets h (err e) = Unit

  pub record IsOrderly (g : Manager) (assets : List ManagedAsset)
      (r : Manager × Result DownloadError (List String)) : Type 0 where
    pub saved : r.0.saved_states ≡ r.0.states
    pub idle : IsIdle r.0
    pub all_there : IfAll g assets r.0 r.1

  download_all-IsOrderly :
      (g : Manager) (assets : List ManagedAsset) (net : ℕ → Network)
      → g.saved_states ≡ g.states
      → IsIdle g
      → IsOrderly g assets (download_all m digest_json platform new g assets net)
  unfolding download_all
  download_all-IsOrderly g [] net saved idle = record {
    saved = saved;
    idle = idle;
    all_there = (tt, λ b h. h);
  }
  download_all-IsOrderly g (a ∷ as') net saved idle =
      step (download m digest_json platform new g a true (net 0)).0
        (download m digest_json platform new g a true (net 0)).1
        (download-IsSettled m digest_json platform new g a true (net 0) saved)
        (λ h. download_all-IsOrderly h as' (λ i. net (i + 1)))
    where
      rest : Manager → Manager × Result DownloadError (List String)
      rest h = download_all m digest_json platform new h as' (λ i. net (i + 1))

      with_first :
          (h : Manager) (path : String) (r : Manager × Result DownloadError (List String))
          → IsSettled m digest_json platform new g a (h, ok path)
          → IsOrderly h as' r
          → IsOrderly g (a ∷ as') (r.0, r.1 >>= λ paths. ok (path ∷ paths))
      with_first h path (k, ok paths) settled orderly = record {
        saved = orderly.saved;
        idle = orderly.idle;
        all_there = (
          (orderly.all_there.1 a settled.verdict.0, orderly.all_there.0),
          λ b there. orderly.all_there.1 b (settled-IsPresent g a b h path settled there),
        );
      }
      with_first h path (k, err e) settled orderly = record {
        saved = orderly.saved;
        idle = orderly.idle;
        all_there = tt;
      }

      step :
          (h : Manager) (r : Result DownloadError String)
          → IsSettled m digest_json platform new g a (h, r)
          → ((k : Manager) → k.saved_states ≡ k.states → IsIdle k → IsOrderly k as' (rest k))
          → IsOrderly g (a ∷ as') (then_path m digest_json platform new (h, r) rest)
      step h (err e) settled next = record {
        saved = settled.saved;
        idle = settled-IsIdle g a (h, err e) settled idle;
        all_there = tt;
      }
      step h (ok path) settled next =
          with_first h path (rest h) settled
            (next h settled.saved (settled-IsIdle g a (h, ok path) settled idle))

  -- Where file and memory agree and nothing is being downloaded, that is so again however a group's
  -- download ends, and if it raises nothing, then each asset of the group is installed or reused,
  -- and every asset that was so before still is.
  pub download_group-IsOrderly :
      (g : Manager) (assets : List ManagedAsset) (group : String) (net : ℕ → Network)
      → g.saved_states ≡ g.states
      → IsIdle g
      → IsOrderly g assets (download_group m digest_json platform new g assets group net)
  unfolding download_group
  download_group-IsOrderly g [] group net saved idle = record {
    saved = saved;
    idle = idle;
    all_there = (tt, λ b h. h);
  }
  download_group-IsOrderly g (a ∷ as') group net saved idle =
      permitted (has_consent m g.disk g.consents.now group (a ∷ as') [])
    where
      with_cache : Table Entry → Table Entry → Manager
      with_cache c d = record g { cache = c; saved_cache = d }

      -- Another cache is no other manager.
      as_before :
          (c d : Table Entry) (r : Manager × Result DownloadError (List String))
          → IsOrderly (with_cache c d) (a ∷ as') r
          → IsOrderly g (a ∷ as') r
      as_before c d (h, ok paths) o = record {
        saved = o.saved;
        idle = o.idle;
        all_there = o.all_there;
      }
      as_before c d (h, err e) o = record { saved = o.saved; idle = o.idle; all_there = tt }

      permitted :
          (p : Result DownloadRefusal Bool)
          → IsOrderly g (a ∷ as') (
              if_consent m digest_json platform new g p (
                if_ok m digest_json platform new
                  (check_disk_space m digest_json platform new g (a ∷ as') 0)
                  (λ h. download_all m digest_json platform new h (a ∷ as') net)))
      permitted (err e) = record { saved = saved; idle = idle; all_there = tt }
      permitted (ok false) = record { saved = saved; idle = idle; all_there = tt }
      permitted (ok true) =
          check_disk_space_ind m digest_json platform new (IsOrderly g (a ∷ as')) g (a ∷ as') 0
            (λ h. download_all m digest_json platform new h (a ∷ as') net)
            (λ c d e. record { saved = saved; idle = idle; all_there = tt })
            (λ c d.
              as_before c d (download_all m digest_json platform new (with_cache c d) (a ∷ as') net)
                (download_all-IsOrderly (with_cache c d) (a ∷ as') net saved idle))
