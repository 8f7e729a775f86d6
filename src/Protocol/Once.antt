-- ===== src/Protocol/Once.antt =====
-- A streamed operation has at most one terminal event
-- (pipeline/clipgauge_pipeline/protocol.py).
use clipgauge.Common.{String, ◌≡◌, refl, ap, ◌∙◌, Bool, true, false, Option, List, [], ◌∷◌}
use clipgauge.Json.{Fields}
use clipgauge.Protocol.{Request, Emitter, terminal_event, emit_event, unless_emitted, after_all}

-- A new emitter.
abbrev pub fresh : Option String → Option String → Emitter
fresh job attempt = record { job_id = job; attempt_id = attempt; emitted = false; sent = [] }

module _ (safe_message : String → String) (job attempt : Option String) where
  -- The event of the first request whose call of `emit` returns.
  abbrev pub first_event : List Request → List Fields
  first_event [] = []
  first_event (r ∷ rs) = elim r.emit_returns [
    | true ↦ terminal_event safe_message (fresh job attempt) r ∷ []
    | false ↦ first_event rs
  ]

  after_emitted :
      (e : Emitter) (rs : List Request) → e.emitted ≡ true → after_all safe_message e rs ≡ e
  unfolding after_all
  after_emitted e [] h = refl
  after_emitted e (r ∷ rs) h =
      ap (λ x. after_all safe_message x rs) (ap (λ b. (unless_emitted safe_message b e r).0) h)
      ∙ after_emitted e rs h

  -- However often a terminal event is asked for: what is sent is the event of the first request
  -- that could be sent, and nothing after it.
  pub after_all-sent :
      (rs : List Request) → (after_all safe_message (fresh job attempt) rs).sent ≡ first_event rs
  unfolding after_all
  after_all-sent [] = refl
  after_all-sent (r ∷ rs) = go r.emit_returns (after_all-sent rs)
    where
      event : Fields
      event = terminal_event safe_message (fresh job attempt) r

      go :
          (b : Bool)
          → (after_all safe_message (fresh job attempt) rs).sent ≡ first_event rs
          → (after_all safe_message (emit_event safe_message (fresh job attempt) event b).0 rs).sent
            ≡ elim b [ true ↦ event ∷ [] | false ↦ first_event rs ]
      go true ih =
          ap (λ (e : Emitter). e.sent)
            (after_emitted (record (fresh job attempt) { emitted = true; sent = event ∷ [] }) rs
              refl)
      go false ih = ih
