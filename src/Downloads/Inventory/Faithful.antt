-- ===== src/Downloads/Inventory/Faithful.antt =====
-- The cache of pipeline/clipgauge_pipeline/downloads.py: entries, and the files they were made of.
use clipgauge.Common.{
  String, ◌≡◌, refl, sym, ap, ◌∙◌, subst, inl, inr, true, Option, none, some, eq_iff, arith,
  Bool-cases, Table, lookup, AllRows, lookup-AllRows,
}
use clipgauge.Text.Lower.{same_lower}
use clipgauge.Json.{Fields}
use clipgauge.Downloads.{ManagedAsset, DiskFile, stat, Machine, is_asset_ready}
use clipgauge.Downloads.Cache.{
  Entry, key_of, same_stat, asset_manifest_digest, is_current, if_current, lookup_entry,
}

module _ (m : Machine) (digest_json : Fields → String) (platform : String)
    (Seen : String → DiskFile → Type 0) (Known : ManagedAsset → Type 0) where
  -- The entry was made when a file that was ready stood at its path, for an asset that is known.
  pub record IsFaithful (e : Entry) : Type 0 where
    pub asset : ManagedAsset
    pub known : Known asset
    pub file : DiskFile
    pub was_there : Seen e.canonical_path file
    pub saw : e.seen ≡ stat file
    pub of_asset : e.manifest_digest ≡ asset_manifest_digest digest_json platform asset
    pub was_ready : is_asset_ready m asset (some file) ≡ true
    pub of_content : e.verified_hash ≡ m.hash file.content

  -- A file that changes at a path changes its metadata, too.
  abbrev pub StatDecides : Type 0
  StatDecides =
      (p : String) (f g : DiskFile)
      → Seen p f
      → Seen p g
      → same_stat (stat f) (stat g) ≡ true
      → f.content ≡ g.content

  -- Known assets with one manifest hashed have one size.
  abbrev pub DigestDecides : Type 0
  DigestDecides =
      (a b : ManagedAsset)
      → Known a
      → Known b
      → asset_manifest_digest digest_json platform a ≡ asset_manifest_digest digest_json platform b
      → a.size_bytes ≡ b.size_bytes

  module _ (stat_decides : StatDecides) (digest_decides : DigestDecides) where
    is_current-IsFaithful :
        (a : ManagedAsset) (path : String) (f : DiskFile) (e : Entry)
        → Known a
        → Seen path f
        → IsFaithful e
        → is_current digest_json platform a path (stat f) e ≡ true
        → (is_asset_ready m a (some f) ≡ true) × (e.verified_hash ≡ m.hash f.content)
    is_current-IsFaithful a path f e known seen h current = (
      ground (arith, same_content, same_size, verified, h.of_content, h.was_ready),
      h.of_content ∙ ap m.hash same_content,
    )
      where
        same_path : e.canonical_path ≡ path
        same_path = (eq_iff e.canonical_path path).0 (ground (arith, current))

        same_digest : e.manifest_digest ≡ asset_manifest_digest digest_json platform a
        same_digest =
            (eq_iff e.manifest_digest (asset_manifest_digest digest_json platform a)).0
              (ground (arith, current))

        verified : same_lower e.verified_hash a.sha256 ≡ true
        verified = ground (arith, current)

        same_content : h.file.content ≡ f.content
        same_content =
            stat_decides path h.file f (subst (λ p. Seen p h.file) same_path h.was_there) seen
              (subst (λ s. same_stat s (stat f) ≡ true) h.saw (ground (arith, current)))

        same_size : h.asset.size_bytes ≡ a.size_bytes
        same_size = digest_decides h.asset a h.known known (sym h.of_asset ∙ same_digest)

    if_current-IsFaithful :
        (a : ManagedAsset) (path : String) (f : DiskFile) (found : Option Entry) (e : Entry)
        → Known a
        → Seen path f
        → ((d : Entry) → found ≡ some d → IsFaithful d)
        → if_current digest_json platform a path (stat f) found ≡ some e
        → (is_asset_ready m a (some f) ≡ true) × (e.verified_hash ≡ m.hash f.content)
    if_current-IsFaithful a path f none e known seen all h = ground arith
    if_current-IsFaithful a path f (some d) e known seen all h =
        elim (Bool-cases (is_current digest_json platform a path (stat f) d)) [
          | inl current ↦
              subst
                (λ (x : Entry).
                  (is_asset_ready m a (some f) ≡ true) × (x.verified_hash ≡ m.hash f.content))
                (same current) (is_current-IsFaithful a path f d known seen (all d refl) current)
          | inr stale ↦ ground (arith, stale, h)
        ]
      where
        same : is_current digest_json platform a path (stat f) d ≡ true → d ≡ e
        same current = ground (arith, current, h)

    pub lookup_entry-IsFaithful :
        (cache : Table Entry) (a : ManagedAsset) (path : String) (f : DiskFile) (e : Entry)
        → AllRows IsFaithful cache
        → Known a
        → Seen path f
        → lookup_entry digest_json platform cache a path (some f) ≡ some e
        → (is_asset_ready m a (some f) ≡ true) × (e.verified_hash ≡ m.hash f.content)
    unfolding lookup_entry
    lookup_entry-IsFaithful cache a path f e all known seen h =
        if_current-IsFaithful a path f (lookup cache (key_of a)) e known seen
          (λ d found. lookup-AllRows IsFaithful cache (key_of a) d all found) (ground (arith, h))
