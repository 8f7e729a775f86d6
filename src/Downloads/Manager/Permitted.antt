-- ===== src/Downloads/Manager/Permitted.antt =====
-- Downloads and consents, in pipeline/clipgauge_pipeline/downloads.py.
use clipgauge.Common.{
  ℕ, String, ◌≡◌, refl, ◌⊎◌, inl, inr, Bool, true, false, List, [], ◌∷◌, Result, ok, err, if_ind,
  ◌≤◌, Option, none, some, All, arith, eq_iff, ◌=s=◌, Bool-cases, lookup,
}
use clipgauge.Json.{Fields}
use clipgauge.Transfer.{Network}
use clipgauge.Downloads.{
  ManagedAsset, DiskFile, Machine, DownloadRefusal, destination_of, download_destination_of,
  is_asset_ready,
}
use clipgauge.Collections.{contains, all_in}
use clipgauge.Downloads.Consent.{Consent, ids_of, has_consent, missing_bytes}
use clipgauge.Downloads.Manager.{
  DownloadError, Manager, DownloadReply, check_disk_space, fetch, if_ok, if_consent, unless_ready,
  with_paths, download, download_all, download_group,
}

-- An identifier stands in a list.
abbrev pub IsIn : String → List String → Type 0
IsIn x [] = ⊥
IsIn x (y ∷ ys) = (y ≡ x) ⊎ IsIn x ys

contains-IsIn : (x : String) (ys : List String) → contains ys x ≡ true → IsIn x ys
contains-IsIn x [] h = cc
contains-IsIn x (y ∷ ys) h = elim (Bool-cases (y =s= x)) [
  | inl same ↦ inl (ground (arith, eq_iff y x))
  | inr apart ↦ inr (contains-IsIn x ys (ground arith))
]

all_in-IsIn :
    (ids : List String) (assets : List ManagedAsset)
    → all_in ids (ids_of assets) ≡ true
    → All (λ a. IsIn a.asset_id ids) assets
all_in-IsIn ids [] h = tt
all_in-IsIn ids (a ∷ as') h =
    (contains-IsIn a.asset_id ids (ground arith), all_in-IsIn ids as' (ground arith))

module _ (m : Machine) (digest_json : Fields → String) (platform : String)
    (new : List ℕ → DiskFile) where
  -- The files and the partial files are those from before.
  abbrev pub IsUntouched : Manager → Manager → Type 0
  IsUntouched g h = (h.disk ≡ g.disk) × (h.parts ≡ g.parts)

  -- What needs a consent either touches no file or has it.
  if_consent-IsUntouched :
      {A : Type 0} (g : Manager) (p : Result DownloadRefusal Bool)
      (next : Manager × Result DownloadError A)
      → IsUntouched g (if_consent m digest_json platform new g p next).0 ⊎ (p ≡ ok true)
  if_consent-IsUntouched g (err e) next = inl (refl, refl)
  if_consent-IsUntouched g (ok false) next = inl (refl, refl)
  if_consent-IsUntouched g (ok true) next = inr refl

  -- A download that requires a consent touches neither a file nor a partial file, unless the asset's
  -- group has a consent that covers it.
  pub download-IsUntouched :
      (g : Manager) (a : ManagedAsset) (net : Network)
      → IsUntouched g (download m digest_json platform new g a true net).0
        ⊎ (has_consent m g.disk g.consents.now a.consent_group (a ∷ []) [] ≡ ok true)
  unfolding download
  download-IsUntouched g a net = on_paths (destination_of m a) (download_destination_of m a)
    where
      Permitted : DownloadReply → Type 0
      Permitted r =
          IsUntouched g r.0
          ⊎ (has_consent m g.disk g.consents.now a.consent_group (a ∷ []) [] ≡ ok true)

      on_paths :
          (dest target : Result DownloadRefusal String)
          → Permitted (
              with_paths m digest_json platform new g dest target
                (unless_ready m digest_json platform new g a true net))
      on_paths (err e) target = inl (refl, refl)
      on_paths (ok dest) (err e) = inl (refl, refl)
      on_paths (ok dest) (ok target) =
          if_ind Permitted (is_asset_ready m a (g.disk dest)) (λ _. inl (refl, refl))
            (λ _.
              if_consent-IsUntouched g
                (has_consent m g.disk g.consents.now a.consent_group (a ∷ []) [])
                (if_ok m digest_json platform new
                  (check_disk_space m digest_json platform new g (a ∷ []) 0)
                  (λ h. fetch m digest_json platform new h a dest target net)))

  -- The group has a consent that names each of the assets, and whose budget is enough for those that
  -- are not ready.
  pub record IsApproved (g : Manager) (group : String) (assets : List ManagedAsset) : Type 0 where
    pub consent : Consent
    pub total : ℕ
    pub found : lookup g.consents.now group ≡ some consent
    pub named : All (λ a. IsIn a.asset_id consent.asset_ids) assets
    pub counted : missing_bytes m g.disk [] assets ≡ ok total
    pub within : total ≤ consent.budget_bytes

  has_consent-IsApproved :
      (g : Manager) (group : String) (assets : List ManagedAsset)
      → has_consent m g.disk g.consents.now group assets [] ≡ ok true
      → IsApproved g group assets
  unfolding has_consent
  has_consent-IsApproved g group assets h =
      by_consent (lookup g.consents.now group) refl (missing_bytes m g.disk [] assets) refl
    where
      by_consent :
          (c : Option Consent)
          → lookup g.consents.now group ≡ c
          → (n : Result DownloadRefusal ℕ) → missing_bytes m g.disk [] assets ≡ n
          → IsApproved g group assets
      by_consent none e n k = absurd (ground (arith))
      by_consent (some c) e (err x) k = absurd (ground (arith))
      by_consent (some c) e (ok n) k = record {
        consent = c;
        total = n;
        found = e;
        named = all_in-IsIn c.asset_ids assets (ground (arith));
        counted = k;
        within = ground (arith);
      }

  -- The download of a group touches neither a file nor a partial file, unless the group has a consent
  -- that names each of the assets and whose budget is enough for the sizes of those that are not
  -- ready.
  pub download_group-IsUntouched :
      (g : Manager) (assets : List ManagedAsset) (group : String) (net : ℕ → Network)
      → IsUntouched g (download_group m digest_json platform new g assets group net).0
        ⊎ IsApproved g group assets
  unfolding download_group
  download_group-IsUntouched g [] group net = inl (refl, refl)
  download_group-IsUntouched g (a ∷ as') group net =
      elim (if_consent-IsUntouched g (has_consent m g.disk g.consents.now group (a ∷ as') []) (
        if_ok m digest_json platform new (check_disk_space m digest_json platform new g (a ∷ as') 0)
          (λ h. download_all m digest_json platform new h (a ∷ as') net))) [
            | inl untouched ↦ inl untouched
            | inr given ↦ inr (has_consent-IsApproved g group (a ∷ as') given)
          ]
