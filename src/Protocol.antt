-- ===== src/Protocol.antt =====
-- `TerminalEmitter` of pipeline/clipgauge_pipeline/protocol.py: the last event of a streamed
-- operation.
pub mod Once
use clipgauge.Common.{ℕ, String, Bool, true, false, Option, none, some, List, [], ◌∷◌, ◌++◌}
use clipgauge.Json.{Value, Fields}
use clipgauge.Text.{is_blank}

abbrev pub protocol_version : ℕ
protocol_version = 2

-- The arguments of `terminal`, and whether the call of `emit` returns.
pub record Request : Type 0 where
  pub succeeded : Bool
  pub code : String
  pub message : String
  pub retryable : Bool
  pub stage : Option String
  pub diagnostic : Option String
  pub exit_code : Option Value
  pub emit_returns : Bool

-- The emitter, with the events that `emit` has taken.
pub record Emitter : Type 0 where
  pub job_id : Option String
  pub attempt_id : Option String
  pub emitted : Bool
  pub sent : List Fields

-- `terminal` returns a Boolean, or passes on what `emit` raises.
pub data Reply : Type 0 where
  returned : Bool → Reply
  raised : Reply

-- A field that is left out if its value is None.
abbrev pub text_field : String → Option String → Fields → Fields
text_field key none rest = rest
text_field key (some s) rest = Fields.field key (Value.str s) rest

abbrev pub diagnostic_field : Option String → Fields → Fields
diagnostic_field none rest = rest
diagnostic_field (some s) rest = elim (is_blank s) [
  | true ↦ rest
  | false ↦ Fields.field "diagnostic_id" (Value.str s) rest
]

abbrev pub exit_field : Option Value → Fields
exit_field none = Fields.end
exit_field (some v) = Fields.field "exit_code" v Fields.end

-- `safe_message` redacts a text and cuts it to its last characters.
module _ (safe_message : String → String) where
  abbrev pub terminal_event : Emitter → Request → Fields
  terminal_event e r = Fields.field "event" (Value.str "terminal") (
      Fields.field "protocol_version" (Value.num protocol_version) (
        Fields.field "ok" (Value.bool r.succeeded) (
          text_field "job_id" e.job_id (
            text_field "attempt_id" e.attempt_id (
              text_field "stage" r.stage (
                Fields.field "code" (Value.str r.code) (
                  Fields.field "message" (Value.str (safe_message r.message)) (
                    Fields.field "retryable" (Value.bool r.retryable)
                      (diagnostic_field r.diagnostic (exit_field r.exit_code))))))))))

  abbrev pub emit_event : Emitter → Fields → Bool → Emitter × Reply
  emit_event e event true =
      (record e { emitted = true; sent = e.sent ++ event ∷ [] }, returned true)
  emit_event e event false = (e, raised)

  abbrev pub unless_emitted : Bool → Emitter → Request → Emitter × Reply
  unless_emitted true e r = (e, returned false)
  unless_emitted false e r = emit_event e (terminal_event e r) r.emit_returns

  unfoldable pub terminal : Emitter → Request → Emitter × Reply
  terminal e r = unless_emitted e.emitted e r

  -- One request after the other.
  unfoldable pub after_all : Emitter → List Request → Emitter
  unfolding terminal
  after_all e [] = e
  after_all e (r ∷ rs) = after_all (terminal e r).0 rs
