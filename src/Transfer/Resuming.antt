-- ===== src/Transfer/Resuming.antt =====
-- pipeline/clipgauge_pipeline/runtime.py, `download_verified`: a transfer that is resumed.
use clipgauge.Common.{
  ℕ, zero, suc, ◌+◌, ◌≤◌, ◌≡◌, sym, ap, ◌∙◌, subst, ◌⊎◌, inl, inr, String, true, false, Option,
  none, some, List, [], ◌++◌, ok, arith, length, length-append, ltb, ◌==◌,
}
use mathlib.Core.List.{append_assoc, append-nil}
use clipgauge.Text.{char_count}
use clipgauge.Transfer.{
  Stream, Response, ServerReply, Network, retryable_http_status, write_chunks, is_last_attempt,
  must_restart, exceeds, Wanted, open_attempts, open_from, download_stream, download_verified,
}
use clipgauge.Transfer.Verified.{IsWanted}

more_left : (n : ℕ) → is_last_attempt (suc n) ≡ false
more_left n = ground arith

module _ (net : Network) (request offset : ℕ) where
  -- Within the attempts left, replies that are tried again and then `r`, and no cancellation.
  abbrev pub Answers : ℕ → ℕ → Response → Type 0
  Answers zero attempt r = ⊥
  Answers (suc left) attempt r =
      (net.cancelled_before request attempt ≡ false)
      × (((net.reply request offset attempt ≡ ServerReply.answers r)
            × (retryable_http_status r.status ≡ false))
          ⊎ (((s : Response) × (net.reply request offset attempt ≡ ServerReply.answers s)
                × (retryable_http_status s.status ≡ true))
              × Answers left (attempt + 1) r))

  pub open_from-Answers :
      (left attempt : ℕ) (r : Response)
      → Answers left attempt r
      → open_from net request offset left attempt ≡ ok r
  unfolding open_from
  open_from-Answers zero attempt r h = elim h [ ]
  open_from-Answers (suc left) attempt r (c, inl (h, t)) = rw (c, h, t)
  open_from-Answers (suc zero) attempt r (c, inr ((s, h, t), rest)) = elim rest [ ]
  open_from-Answers (suc (suc left)) attempt r (c, inr ((s, h, t), rest)) =
      rw (c, h, t, more_left left) (open_from-Answers (suc left) (attempt + 1) r rest)

-- The body is `b` in chunks, uncancelled and whole.
abbrev pub Delivers : Stream → List ℕ → Type 0
Delivers Stream.finished b = b ≡ []
Delivers Stream.broken b = ⊥
Delivers (Stream.chunk c stop rest) b =
    (stop ≡ false) × (d : List ℕ) × (b ≡ c ++ d) × Delivers rest d

write_chunks-Delivers :
    (max_bytes : ℕ) (done : List ℕ) (s : Stream) (b : List ℕ)
    → Delivers s b
    → length (done ++ b) ≤ max_bytes
    → write_chunks max_bytes done s ≡ record { bytes = done ++ b; stopped = none }
unfolding write_chunks
write_chunks-Delivers m done Stream.finished b e fits =
    ap (λ xs. record { bytes = xs; stopped = none })
      (sym (append-nil done) ∙ ap (λ xs. done ++ xs) (sym e))
write_chunks-Delivers m done Stream.broken b h fits = elim h [ ]
write_chunks-Delivers m done (Stream.chunk c stop rest) b (go, d, e, more) fits =
    rw (go, short)
      (write_chunks-Delivers m (done ++ c) rest d more (subst (λ xs. length xs ≤ m) split fits)
        ∙ ap (λ xs. record { bytes = xs; stopped = none }) (sym split))
  where
    split : done ++ b ≡ (done ++ c) ++ d
    split = ap (λ xs. done ++ xs) e ∙ sym (append_assoc done c d)

    short : ltb m (length done + length c) ≡ false
    short =
        ground (
          arith,
          length-append done c,
          length-append (done ++ c) d,
          ap (λ xs. length xs) split,
          fits,
        )

module _ (hash : List ℕ → String) (want : Wanted) (net : Network) where
  -- The partial file `pre` and what the server sends behind it are the wanted file: whatever the
  -- first attempts meet, if one of the four is answered with the rest, in any chunks, and nothing is
  -- cancelled, the transfer succeeds and the destination is the whole file.
  pub download_verified-resumed :
      (old : Option (List ℕ)) (pre rest : List ℕ) (r : Response)
      → (char_count want.sha256 == 64) ≡ true
      → IsWanted hash want (pre ++ rest)
      → net.cancelled_at_start ≡ false
      → Answers net 0 (length pre) open_attempts 0 r
      → r.status ≡ 206
      → exceeds (length pre) r.announced want.max_bytes ≡ false
      → Delivers r.body rest
      → download_verified hash want net (record { part = some pre; destination = old }) ≡ record {
        files = record { part = none; destination = some (pre ++ rest) };
        result = ok tt;
      }
  unfolding download_verified download_stream
  download_verified-resumed old pre rest r digest wanted go answered status small body = simp (
    short,
    digest,
    go,
    open_from-Answers net 0 (length pre) open_attempts 0 r answered,
    status,
    unbegun,
    small,
    write_chunks-Delivers want.max_bytes pre r.body rest body wanted.fits,
    wanted.right_size,
    wanted.right_hash,
  )
    where
      short : ltb want.max_bytes (length pre) ≡ false
      short = ground (arith, length-append pre rest, wanted.fits)

      unbegun : must_restart (length pre) 206 ≡ false
      unbegun = ground arith
