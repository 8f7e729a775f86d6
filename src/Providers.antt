-- ===== src/Providers.antt =====
-- The requests of pipeline/clipgauge_pipeline/scoring/providers.py: `_status_error` and the attempts
-- of `_post_json`. Traces and the details of errors are left out.
pub mod Attempts
use clipgauge.Common.{
  ℕ, zero, suc, ◌+◌, String, Bool, true, false, ◌&&◌, ◌||◌, Option, none, some, ltb, leb, ◌==◌,
  if◌then◌else◌, Result, ok, err,
}
use clipgauge.Text.Lower.{has_lower}

pub data ErrorCode : Type 0 where
  auth_invalid model_not_found quota_exhausted rate_limited context_too_large : ErrorCode
  provider_unavailable provider_response_invalid network_failed timed_out : ErrorCode
  internal_provider_error : ErrorCode

abbrev pub quota_code : String → ErrorCode
quota_code message =
    if has_lower "quota" message || has_lower "credit" message || has_lower "billing" message
    then quota_exhausted
    else rate_limited

-- `_status_error`, of a status and the message in the body.
unfoldable pub status_error : ℕ → String → ErrorCode
unfolding has_lower
status_error status message =
    if status == 401 || status == 403
    then auth_invalid
    else if status == 404
    then model_not_found
    else if status == 429
    then quota_code message
    else if status == 413 || status == 422
    then context_too_large
    else if leb 500 status && ltb status 600
    then provider_unavailable
    else if leb 300 status && ltb status 400
    then provider_unavailable
    else provider_response_invalid

abbrev pub is_retried : ErrorCode → Bool
is_retried rate_limited = true
is_retried provider_unavailable = true
is_retried network_failed = true
is_retried timed_out = true
is_retried _ = false

abbrev pub is_error_status : ℕ → Bool
is_error_status status = leb 400 status || (leb 300 status && ltb status 400)

-- Of the local provider, and of any other.
abbrev pub max_attempts : Bool → ℕ
max_attempts true = 1
max_attempts false = 3

module _ {ℓ} (A : Type ℓ) where
  -- What a request meets: a response, with its JSON if it has some, or what is raised. A timeout
  -- says whether the scoring request has been aborted.
  pub data Meeting : Type ℓ where
    response : ℕ → String → Option A → Meeting
    refused : ErrorCode → Meeting
    timeout : Bool → Meeting
    http_error : Meeting

  -- The requests that were made, and what came of them.
  pub record Posted : Type ℓ where
    pub requests : ℕ
    pub result : Result ErrorCode A

module _ {ℓ} {A : Type ℓ} where
  abbrev pub raised_at : ℕ → ErrorCode → Posted A
  raised_at attempt c = record { requests = attempt + 1; result = err c }

  -- Behind an error: `retry_delay` raises a timeout if the time for scoring is used up.
  abbrev pub wait_or : Bool → ℕ → Posted A → Posted A
  wait_or true attempt again = raised_at attempt timed_out
  wait_or false attempt again = again

  -- An error that ends the loop, or is tried again unless no attempt is left.
  abbrev pub try_again : ℕ → Bool → ℕ → ErrorCode → Posted A → Posted A
  try_again zero late attempt c again = raised_at attempt c
  try_again (suc left) late attempt c again = wait_or late attempt again

  abbrev pub with_payload : ℕ → Option A → Posted A
  with_payload attempt none = raised_at attempt provider_response_invalid
  with_payload attempt (some a) = record { requests = attempt + 1; result = ok a }

  abbrev pub on_meeting : ℕ → Bool → ℕ → Meeting A → Posted A → Posted A
  on_meeting left late attempt (response status message payload) again =
      if is_error_status status
      then (if is_retried (status_error status message)
          then try_again left late attempt (status_error status message) again
          else raised_at attempt (status_error status message))
      else with_payload attempt payload
  on_meeting left late attempt (refused c) again = raised_at attempt c
  on_meeting left late attempt (timeout true) again = raised_at attempt timed_out
  on_meeting left late attempt (timeout false) again = try_again left late attempt timed_out again
  on_meeting left late attempt http_error again = try_again left late attempt network_failed again

  -- The loop, with the attempts left; `late` says where `retry_delay` raises.
  unfoldable pub post_from : (ℕ → Meeting A) → (ℕ → Bool) → ℕ → ℕ → Posted A
  unfolding status_error
  post_from meet late zero attempt = record {
    requests = attempt;
    result = err internal_provider_error;
  }
  post_from meet late (suc left) attempt =
      let again = post_from meet late left (attempt + 1) in
      on_meeting left (late attempt) attempt (meet attempt) again

  unfoldable pub post_json : Bool → (ℕ → Meeting A) → (ℕ → Bool) → Posted A
  unfolding post_from
  post_json is_local meet late = post_from meet late (max_attempts is_local) 0
