-- ===== src/Metrics/Events.antt =====
-- requestlog/log.go: execution events as keys of the map of metrics/commandmetrics.go.
use cuirass.Prelude.{Bool, ◌≡◌, ◌↔◌, true, arith, ◌==◌}
use cuirass.Prelude.Maps.{Eq}
use cuirass.RequestLog.{ExecutionEvent, code}

abbrev pub same_event : ExecutionEvent → ExecutionEvent → Bool
same_event a b = code a == code b

pub same_event_iff : (a b : ExecutionEvent) → (same_event a b ≡ true) ↔ (a ≡ b)
same_event_iff a b = ground arith

instance abbrev pub event_eq : Eq ExecutionEvent
event_eq = record { beq = same_event; beq_iff = same_event_iff }
