-- ===== src/Transfer/Verified.antt =====
-- pipeline/clipgauge_pipeline/runtime.py, `download_verified`: what it leaves on the disk.
use clipgauge.Common.{
  ℕ, ◌+◌, ◌≤◌, ◌≡◌, refl, String, true, false, not, Option, none, some, List, [], ◌++◌, ◌||◌,
  if◌then◌else◌, Result, ok, err, arith, length, length-append, ltb, ◌==◌, if_ind, Bool-cases, inl,
  inr,
}
use clipgauge.Text.{char_count}
use clipgauge.Text.Lower.{same_lower}
use clipgauge.Transfer.{
  Stream, Response, Network, PartFiles, TransferFailure, Written, write_chunks, part_size,
  part_bytes, exceeds, TransferOutcome, fail, Wanted, has_wrong_size, verify, finish, receive,
  restart, without_part, must_restart, continue_with, download_stream, download_verified,
}

-- What is written fits.
FitsIn : ℕ → Written → Type 0
FitsIn max_bytes w = length w.bytes ≤ max_bytes

write_chunks-FitsIn :
    (max_bytes : ℕ) (done : List ℕ) (s : Stream)
    → length done ≤ max_bytes
    → FitsIn max_bytes (write_chunks max_bytes done s)
unfolding FitsIn write_chunks
write_chunks-FitsIn m done Stream.finished h = h
write_chunks-FitsIn m done Stream.broken h = h
write_chunks-FitsIn m done (Stream.chunk b stop rest) h =
    if_ind (FitsIn m) stop (λ _. h)
      (λ _.
        if_ind (FitsIn m) (ltb m (length done + length b)) (λ _. h)
          (λ e. write_chunks-FitsIn m (done ++ b) rest (ground (arith, length-append done b))))

module _ (hash : List ℕ → String) (want : Wanted) where
  -- The file is the wanted one.
  pub record IsWanted (b : List ℕ) : Type 0 where
    pub right_hash : same_lower (hash b) want.sha256 ≡ true
    pub right_size : has_wrong_size want.size (length b) ≡ false
    pub fits : length b ≤ want.max_bytes

  abbrev pub IsThere : Option (List ℕ) → Type 0
  IsThere none = ⊥
  IsThere (some b) = IsWanted b

  abbrev pub IsInstalled : PartFiles → Type 0
  IsInstalled files = (files.part ≡ none) × IsThere files.destination

  abbrev pub IsKept : Option (List ℕ) → PartFiles → Type 0
  IsKept old files = (files.destination ≡ old) × (part_size files.part ≤ want.max_bytes)

  -- What a transfer promises, where `old` is the destination's content before.
  abbrev pub Promised : Option (List ℕ) → PartFiles → Result TransferFailure (Unit {0}) → Type 0
  Promised old files (ok u) = IsInstalled files
  Promised old files (err e) = IsKept old files

  abbrev pub IsSafe : Option (List ℕ) → TransferOutcome → Type 0
  IsSafe old o = Promised old o.files o.result

  verify-IsSafe :
      (old : Option (List ℕ)) (b : List ℕ)
      → length b ≤ want.max_bytes
      → IsSafe old (verify hash want old b)
  verify-IsSafe old b fits =
      if_ind (IsSafe old) (has_wrong_size want.size (length b)) (λ _. (refl, fits))
        (λ size.
          if_ind (IsSafe old) (not (same_lower (hash b) want.sha256)) (λ _. (refl, omega arith))
            (λ h. (refl, record { right_hash = ground arith; right_size = size; fits = fits })))

  receive-IsSafe :
      (files : PartFiles) (done : List ℕ) (r : Response)
      → part_size files.part ≤ want.max_bytes
      → length done ≤ want.max_bytes
      → IsSafe files.destination (receive hash want files done r)
  unfolding FitsIn
  receive-IsSafe files done r part fits =
      if_ind (IsSafe files.destination) (exceeds (length done) r.announced want.max_bytes)
        (λ _. (refl, part))
        (λ _.
          finished written.bytes written.stopped
            (write_chunks-FitsIn want.max_bytes done r.body fits))
    where
      written : Written
      written = write_chunks want.max_bytes done r.body

      finished :
          (b : List ℕ) (stopped : Option TransferFailure)
          → length b ≤ want.max_bytes
          → IsSafe files.destination (finish hash want files.destination b stopped)
      finished b none h = verify-IsSafe files.destination b h
      finished b (some e) h = (refl, h)

  restart-IsSafe :
      (files : PartFiles) (opened : Result TransferFailure Response)
      → part_size files.part ≤ want.max_bytes
      → IsSafe files.destination (restart hash want files opened)
  restart-IsSafe files (err e) part = (refl, part)
  restart-IsSafe files (ok r) part =
      if_ind (IsSafe files.destination) (not (r.status == 200)) (λ _. (refl, part))
        (λ _. receive-IsSafe files [] r part (omega arith))

  continue_with-IsSafe :
      (net : Network) (files : PartFiles) (opened : Result TransferFailure Response)
      → part_size files.part ≤ want.max_bytes
      → IsSafe files.destination (continue_with hash want net files opened)
  continue_with-IsSafe net files (err e) part = (refl, part)
  continue_with-IsSafe net files (ok r) part =
      if_ind (IsSafe files.destination) (must_restart (part_size files.part) r.status)
        (λ _. restart-IsSafe (without_part files) (download_stream net 1 0) (omega arith))
        (λ _.
          if_ind (IsSafe files.destination) (not (r.status == 200 || r.status == 206))
            (λ _. (refl, part))
            (λ _. receive-IsSafe files (part_bytes files.part) r part (of_bytes files.part part)))
    where
      of_bytes :
          (p : Option (List ℕ))
          → part_size p ≤ want.max_bytes
          → length (part_bytes p) ≤ want.max_bytes
      of_bytes none h = h
      of_bytes (some b) h = h

  started-IsSafe :
      (net : Network) (start : PartFiles)
      → part_size start.part ≤ want.max_bytes
      → IsSafe start.destination (
          if net.cancelled_at_start
          then fail start TransferFailure.cancelled
          else continue_with hash want net start (download_stream net 0 (part_size start.part)))
  started-IsSafe net start part =
      if_ind (IsSafe start.destination) net.cancelled_at_start (λ _. (refl, part))
        (λ _. continue_with-IsSafe net start (download_stream net 0 (part_size start.part)) part)

  -- Given a digest of 64 characters, whatever the network does: after a success the destination
  -- holds bytes with the wanted hash and size within the limit, and no partial file is left; after
  -- any failure the destination is what it was, and the partial file is within the limit.
  pub download_verified-IsSafe :
      (net : Network) (files : PartFiles)
      → (char_count want.sha256 == 64) ≡ true
      → IsSafe files.destination (download_verified hash want net files)
  unfolding download_verified
  download_verified-IsSafe net files h =
      if_ind (IsSafe files.destination) (not (char_count want.sha256 == 64)) (λ e. ground arith)
        (λ _.
          if_ind
            (λ start. IsSafe files.destination (
              if net.cancelled_at_start
              then fail start TransferFailure.cancelled
              else continue_with hash want net start
                  (download_stream net 0 (part_size start.part))))
            (ltb want.max_bytes (part_size files.part))
            (λ _. started-IsSafe net (without_part files) (omega arith))
            (λ e. started-IsSafe net files (ground arith)))

  -- After a success, whatever the digest.
  abbrev pub InstalledIfOk : PartFiles → Result TransferFailure (Unit {0}) → Type 0
  InstalledIfOk files (ok u) = IsInstalled files
  InstalledIfOk files (err e) = Unit

  pub download_verified-InstalledIfOk :
      (net : Network) (files : PartFiles)
      → let o = download_verified hash want net files in InstalledIfOk o.files o.result
  unfolding download_verified
  download_verified-InstalledIfOk net files = elim (Bool-cases (char_count want.sha256 == 64)) [
    | inl long ↦
        of_Promised (download_verified hash want net files).files
          (download_verified hash want net files).result (download_verified-IsSafe net files long)
    | inr short ↦ rw short tt
  ]
    where
      of_Promised :
          (f : PartFiles) (r : Result TransferFailure (Unit {0}))
          → Promised files.destination f r
          → InstalledIfOk f r
      of_Promised f (ok u) h = h
      of_Promised f (err e) h = tt
