-- ===== src/Providers/Attempts.antt =====
-- What the attempts of a request come to.
use clipgauge.Common.{
  ℕ, zero, suc, ◌+◌, ◌≤◌, ◌<◌, ◌≡◌, ◌⊎◌, Bool, true, false, ◌&&◌, not, none, some, Result, ok, err,
}
use clipgauge.Providers.{ErrorCode, status_error, is_retried, Meeting, Posted, is_error_status}

module _ {A : Type 0} (meet : ℕ → Meeting A) (late : ℕ → Bool) where
  -- The last request explains the result: its response has the JSON, or its error is the one that is
  -- raised, unless the time was up behind it.
  abbrev pub Gives : Meeting A → Bool → Result ErrorCode A → Type 0
  Gives (Meeting.response status message payload) up (ok a) =
      (is_error_status status ≡ false) × (payload ≡ some a)
  Gives (Meeting.response status message payload) up (err c) =
      ((is_error_status status ≡ true)
        × ((c ≡ status_error status message) ⊎ ((up ≡ true) × (c ≡ ErrorCode.timed_out))))
      ⊎ ((is_error_status status ≡ false)
          × (payload ≡ none)
          × (c ≡ ErrorCode.provider_response_invalid))
  Gives (Meeting.refused e) up (err c) = c ≡ e
  Gives (Meeting.timeout aborted) up (err c) = c ≡ ErrorCode.timed_out
  Gives Meeting.http_error up (err c) =
      (c ≡ ErrorCode.network_failed) ⊎ ((up ≡ true) × (c ≡ ErrorCode.timed_out))
  Gives m up (ok a) = ⊥

  -- What may pass by itself: a status that stands for a busy server or a limit, a timeout of the
  -- connection, an error of the connection.
  abbrev pub is_temporary : Meeting A → Bool
  is_temporary (Meeting.response status message payload) =
      is_error_status status && is_retried (status_error status message)
  is_temporary (Meeting.refused e) = false
  is_temporary (Meeting.timeout aborted) = not aborted
  is_temporary Meeting.http_error = true

  -- The last request explains the result. All before it failed for a time only, with time left, and
  -- so did the last one only if it was the last that is allowed.
  pub record IsExplained (first bound : ℕ) (p : Posted A) : Type 0 where
    pub last : ℕ
    pub made : p.requests ≡ last + 1
    pub from : first ≤ last
    pub below : last < bound
    pub given : Gives (meet last) (late last) p.result
    pub earlier : (i : ℕ) → first ≤ i → i < last → (is_temporary (meet i) ≡ true) × (late i ≡ false)
    pub final : is_temporary (meet last) ≡ true → late last ≡ false → last + 1 ≡ bound

  -- What is known of the attempts that are left.
  abbrev Left : ℕ → ℕ → ℕ → Posted A → Type 0
  Left zero attempt bound again = Unit
  Left (suc left) attempt bound again = IsExplained (attempt + 1) bound again
