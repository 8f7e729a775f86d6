-- ===== src/Downloads/Inventory/Probes.antt =====
-- What the inventory finds of one asset, with the cache and without it.
use clipgauge.Common.{
  String, ◌≡◌, refl, sym, ap, inl, inr, true, ◌&&◌, not, Option, none, some, [], ◌∷◌, ◌=s=◌,
  eq_refl, arith, if◌then◌else◌, if_ind, Bool-cases, Option-cases, ok, Table, lookup, AllRows,
  store-AllRows,
}
use clipgauge.Json.{Fields}
use clipgauge.Downloads.{
  ManagedAsset, DiskFile, Disk, Machine, destination_of, is_asset_ready, digest_of,
}
use clipgauge.Downloads.Cache.{Entry, key_of, lookup_entry, record_entry}
use clipgauge.Downloads.Consent.{Consent, has_consent, missing_bytes}
use clipgauge.Downloads.Inventory.{AssetState, Probe, fresh_probe, recorded, from_entry}
use clipgauge.Downloads.Inventory.Faithful.{
  IsFaithful, StatDecides, DigestDecides, lookup_entry-IsFaithful,
}

module _ (m : Machine) (digest_json : Fields → String) (platform : String)
    (Seen : String → DiskFile → Type 0) (Known : ManagedAsset → Type 0)
    (stat_decides : StatDecides m digest_json platform Seen Known)
    (digest_decides : DigestDecides m digest_json platform Seen Known) (disk : Disk)
    (states : Table AssetState) (consents : Table Consent) where
  abbrev pub AreFaithful : Table Entry → Type 0
  AreFaithful = AllRows (IsFaithful m digest_json platform Seen Known)

  -- What a probe finds is what hashing the file finds, and the cache behind it is in order.
  pub record IsRight (a : ManagedAsset) (file : Option DiskFile) (p : Probe) : Type 0 where
    pub finds : p.installed ≡ is_asset_ready m a file
    pub hashes : p.hashed ≡ digest_of m file
    pub keeps : AreFaithful p.cache

  fresh_probe-IsRight :
      (cache : Table Entry) (a : ManagedAsset) (path : String) (f : DiskFile)
      → AreFaithful cache
      → Known a
      → Seen path f
      → IsRight a (some f) (
          recorded m digest_json platform disk states consents a path
            (some f)
            (fresh_probe m digest_json platform disk states consents cache a (some f)))
  unfolding record_entry
  fresh_probe-IsRight cache a path f all known seen =
      if_ind (IsRight a (some f)) (is_asset_ready m a (some f) && not (m.hash f.content =s= ""))
        (λ there. record {
          finds = refl;
          hashes = refl;
          keeps =
              store-AllRows (IsFaithful m digest_json platform Seen Known) cache (key_of a) _ all
                (record {
                  asset = a;
                  known = known;
                  file = f;
                  was_there = seen;
                  saw = refl;
                  of_asset = refl;
                  was_ready = ground (arith, there);
                  of_content = refl;
                });
        })
        (λ _. record { finds = refl; hashes = refl; keeps = all })

  from_entry-IsRight :
      (cache : Table Entry) (a : ManagedAsset) (path : String) (f : DiskFile) (found : Option Entry)
      → AreFaithful cache
      → Known a
      → Seen path f
      → ((e : Entry)
          → found ≡ some e
          → (is_asset_ready m a (some f) ≡ true) × (e.verified_hash ≡ m.hash f.content))
      → IsRight a
          (some f)
          (from_entry m digest_json platform disk states consents cache a path (some f) found)
  from_entry-IsRight cache a path f none all known seen right =
      fresh_probe-IsRight cache a path f all known seen
  from_entry-IsRight cache a path f (some e) all known seen right = record {
    finds = sym (right e refl).0;
    hashes = ap some (right e refl).1;
    keeps = all;
  }

  pub probe-IsRight :
      (cache : Table Entry) (a : ManagedAsset) (path : String) (file : Option DiskFile)
      → AreFaithful cache
      → Known a
      → ((f : DiskFile) → file ≡ some f → Seen path f)
      → IsRight a file (
          from_entry m digest_json platform disk states consents cache a path file
            (lookup_entry digest_json platform cache a path file))
  unfolding lookup_entry
  probe-IsRight cache a path none all known seen = record {
    finds = refl;
    hashes = refl;
    keeps = all;
  }
  probe-IsRight cache a path (some f) all known seen =
      from_entry-IsRight cache a path f _ all known (seen f refl) (λ e.
        lookup_entry-IsFaithful m digest_json platform Seen Known stat_decides digest_decides cache
          a path f e all known (seen f refl))

  missing_bytes-verified :
      (a : ManagedAsset) (path : String)
      → destination_of m a ≡ ok path
      → missing_bytes m disk
          (if is_asset_ready m a (disk path) then a.asset_id ∷ [] else [])
          (a ∷ [])
        ≡ missing_bytes m disk [] (a ∷ [])
  unfolding missing_bytes
  missing_bytes-verified a path h = elim (Bool-cases (is_asset_ready m a (disk path))) [
    | inl there ↦ rw (there, eq_refl a.asset_id, h, there) refl
    | inr missing ↦ rw missing refl
  ]

  pub has_consent-verified :
      (a : ManagedAsset) (path : String)
      → destination_of m a ≡ ok path
      → has_consent m disk consents a.consent_group
          (a ∷ [])
          (if is_asset_ready m a (disk path) then a.asset_id ∷ [] else [])
        ≡ has_consent m disk consents a.consent_group (a ∷ []) []
  unfolding has_consent
  has_consent-verified a path h = elim (Option-cases (lookup consents a.consent_group)) [
    | inl e ↦ rw e refl
    | inr (c, e) ↦ rw (e, missing_bytes-verified a path h) refl
  ]
