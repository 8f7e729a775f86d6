-- ===== src/Transfer/Opening.antt =====
-- pipeline/clipgauge_pipeline/runtime.py, `_download_stream`: what its attempts come to.
use clipgauge.Common.{
  ℕ, zero, suc, ◌+◌, ◌≤◌, ◌<◌, ◌≡◌, refl, true, false, Result, ok, err, arith, if_ind,
}
use clipgauge.Transfer.{
  Network, TransferFailure, Response, ServerReply, retryable_http_status, open_attempts,
  is_last_attempt, on_reply, open_from, download_stream,
}

-- A verdict over what an attempt comes to.
abbrev pub Opened :
    (TransferFailure → Type 0) → (Response → Type 0) → Result TransferFailure Response → Type 0
Opened P Q (err e) = P e
Opened P Q (ok r) = Q r

-- Neither the loop's last line, nor a reply that is worth an attempt more.
abbrev pub NotExhausted : TransferFailure → Type 0
NotExhausted TransferFailure.retries_exhausted = ⊥
NotExhausted (TransferFailure.http_status_after_retries s) = retryable_http_status s ≡ true
NotExhausted e = Unit

abbrev pub IsSettled : Result TransferFailure Response → Type 0
IsSettled = Opened NotExhausted λ r. retryable_http_status r.status ≡ false

-- Two networks that agree on the attempts of a request from `first` on, up to `bound`.
abbrev pub AgreeUpTo : ℕ → ℕ → Network → Network → ℕ → ℕ → Type 0
AgreeUpTo first bound net other request offset =
    (i : ℕ)
    → first ≤ i
    → i < bound
    → (other.cancelled_before request i ≡ net.cancelled_before request i)
      × (other.reply request offset i ≡ net.reply request offset i)

module _ (net : Network) (request offset : ℕ) where
  on_reply-IsSettled :
      (left : ℕ) (reply : ServerReply) (again : Result TransferFailure Response)
      → (is_last_attempt left ≡ false → IsSettled again)
      → IsSettled (on_reply net request offset left reply again)
  on_reply-IsSettled left ServerReply.unreachable again h = tt
  on_reply-IsSettled left (ServerReply.answers r) again h =
      if_ind IsSettled (retryable_http_status r.status)
        (λ e. if_ind IsSettled (is_last_attempt left) (λ _. e) (λ l. h l)) (λ e. e)

  open_from-IsSettled :
      (left attempt : ℕ)
      → is_last_attempt left ≡ false
      → IsSettled (open_from net request offset left attempt)
  unfolding open_from
  open_from-IsSettled zero attempt h = ground arith
  open_from-IsSettled (suc left) attempt h =
      if_ind IsSettled (net.cancelled_before request attempt) (λ _. tt)
        (λ _.
          on_reply-IsSettled left (net.reply request offset attempt)
            (open_from net request offset left (attempt + 1))
            (open_from-IsSettled left (attempt + 1)))

  -- The attempts that are left are all that is looked at.
  open_from-same :
      (other : Network) (left attempt : ℕ)
      → AgreeUpTo attempt (attempt + left) net other request offset
      → open_from other request offset left attempt ≡ open_from net request offset left attempt
  unfolding open_from
  open_from-same other zero attempt h = refl
  open_from-same other (suc left) attempt h =
      let here = h attempt (omega arith) (omega arith) in
      rw here.0 (
        rw here.1 (
          rw
            (open_from-same other left (attempt + 1)
              (λ i g l. h i (omega (arith, g)) (omega (arith, l))))
            refl))

  -- Opening a stream ends within four attempts: it gives the same over any other network that meets
  -- the first four in the same way, whatever comes later. It never comes to the assertion behind the
  -- loop, a reply that is handed on has no status that is tried again, and where the attempts are
  -- used up the error names a status that is.
  pub download_stream-IsSettled :
      IsSettled (download_stream net request offset)
      × ((other : Network)
          → AgreeUpTo 0 4 net other request offset
          → download_stream other request offset ≡ download_stream net request offset)
  unfolding download_stream
  download_stream-IsSettled =
      (open_from-IsSettled open_attempts 0 refl, λ other. open_from-same other open_attempts 0)
