-- ===== src/Witnesses/Protocol.antt =====
-- The theorem about terminal events, at a concrete input.
use clipgauge.Common.{◌≡◌, Bool, true, false, none, some, List, [], ◌∷◌}
use clipgauge.Protocol.{Request, after_all}
use clipgauge.Protocol.Once.{fresh, first_event, after_all-sent}

abbrev a_request : Bool → Request
a_request returns = record {
  succeeded = true;
  code = "OK";
  message = "done";
  retryable = false;
  stage = none;
  diagnostic = some "";
  exit_code = none;
  emit_returns = returns;
}

abbrev three_requests : List Request
three_requests = a_request false ∷ a_request true ∷ a_request true ∷ []

after_all-sent_example :
    (after_all (λ s. s) (fresh (some "job") none) three_requests).sent
    ≡ first_event (λ s. s) (some "job") none three_requests
after_all-sent_example = after_all-sent (λ s. s) (some "job") none three_requests
