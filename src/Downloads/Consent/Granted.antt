-- ===== src/Downloads/Consent/Granted.antt =====
-- What a granted consent allows, and what is left of a revoked one.
use clipgauge.Common.{
  ℕ, String, ◌≡◌, refl, ◌∙◌, true, false, Option, none, some, List, [], ◌∷◌, arith, leb, ◌=s=◌,
  eq_refl, ok, Table, lookup, store, lookup-store, lookup-drop_key,
}
use clipgauge.Collections.{contains, all_in}
use clipgauge.Downloads.{ManagedAsset, Disk, Machine}
use clipgauge.Downloads.Consent.{
  Consent, Consents, with_consents, ids_of, default_to, exceeds_budget, missing_bytes, has_consent,
  grant_consent, revoke_consent,
}

-- What `sorted` does to membership.
abbrev pub KeepsMembers : (List String → List String) → Type 0
KeepsMembers sorted = (xs : List String) (x : String) → contains (sorted xs) x ≡ contains xs x

all_in_of_contains :
    (valid xs : List String)
    → ((x : String) → contains xs x ≡ true → contains valid x ≡ true)
    → all_in valid xs ≡ true
all_in_of_contains valid [] h = refl
all_in_of_contains valid (x ∷ xs) h = ground (
  arith,
  h x (ground (arith, eq_refl x)),
  all_in_of_contains valid xs (λ y member. h y (ground (arith, member))),
)

-- All groups but one are as they were, in memory as in the file.
abbrev pub KeepsOthers : String → Table Consent → Consents → Type 0
KeepsOthers group before after =
    (after.saved ≡ after.now)
    × ((j : String) → (group =s= j) ≡ false → lookup after.now j ≡ lookup before j)

within_budget :
    (budget : Option ℕ) (total : ℕ)
    → exceeds_budget budget total ≡ false
    → leb total (default_to total budget) ≡ true
within_budget none total h = ground arith
within_budget (some b) total h = ground arith

module _ (m : Machine) (disk : Disk) (sorted : List String → List String) where
  -- Where `sorted` keeps the members, every destination lies inside the data root and what is
  -- missing is within the budget, if there is one: the consent is granted, it then covers these
  -- assets, it is in the file, and all other groups are as they were.
  pub grant_consent-covers :
      (consents : Consents) (group : String) (assets : List ManagedAsset) (budget : Option ℕ)
      (total : ℕ)
      → KeepsMembers sorted
      → missing_bytes m disk [] assets ≡ ok total
      → exceeds_budget budget total ≡ false
      → (after : Consents) × (grant_consent m disk sorted consents group assets budget ≡ ok after)
        × (has_consent m disk after.now group assets [] ≡ ok true)
        × KeepsOthers group consents.now after
  unfolding grant_consent has_consent
  grant_consent-covers consents group assets budget total keeps missing fits = (
    with_consents m disk (store consents.now group given),
    rw (missing, fits) refl,
    rw
        (
          lookup-store consents.now group group given,
          eq_refl group,
          all_in_of_contains (sorted (ids_of assets)) (ids_of assets)
              (λ x member. keeps (ids_of assets) x ∙ member),
          missing,
          within_budget budget total fits,
        )
        refl,
    (refl, λ j ne. rw (lookup-store consents.now group j given, ne) refl),
  )
    where
      given : Consent
      given = record {
        asset_ids = sorted (ids_of assets);
        download_bytes = total;
        budget_bytes = default_to total budget;
      }

  -- A consent that is revoked covers nothing, not even assets that are all verified; the file says
  -- so too, and all other groups are as they were.
  pub revoke_consent-covers :
      (consents : Consents) (group : String) (assets : List ManagedAsset) (verified : List String)
      → (has_consent m disk (revoke_consent m disk consents group).now group assets verified
          ≡ ok false)
        × KeepsOthers group consents.now (revoke_consent m disk consents group)
  unfolding revoke_consent has_consent
  revoke_consent-covers consents group assets verified = (
    rw (lookup-drop_key consents.now group group, eq_refl group) refl,
    (refl, λ j ne. rw (lookup-drop_key consents.now group j, ne) refl),
  )
