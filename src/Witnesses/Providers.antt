-- ===== src/Witnesses/Providers.antt =====
-- The theorem about requests to a provider, at a concrete input.
use clipgauge.Common.{ℕ, String, Bool, false, none, some, ◌==◌, if◌then◌else◌}
use clipgauge.Providers.{Meeting}

-- A server that is busy at first.
abbrev busy_server : ℕ → Meeting String
busy_server attempt =
    if attempt == 0
    then Meeting.response 503 "try later" none
    else Meeting.response 200 "" (some "{}")

abbrev in_time : ℕ → Bool
in_time attempt = false
