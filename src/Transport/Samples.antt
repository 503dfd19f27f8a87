-- ===== src/Transport/Samples.antt =====
-- Concrete envelopes, for the witnesses of the components that use them.
use ump.Prelude.{none, some}
use ump.Prelude.Int.{pos}
use ump.Models.Json.{obj, end, field, text}
use ump.Models.Codec.{assignment_payload}
use ump.Models.Samples.{carry_job}
use ump.Transport.Envelope.{Envelope, protocol_version, operational_stream, safety_stream}

abbrev pub state_update : Envelope
state_update = record {
  message_id = "message-1";
  message_type = "state";
  source_id = "robot-1";
  session_id = "session-1";
  sequence = pos 1;
  timestamp_ms = pos 1000;
  payload = obj (field "safety" (text "normal") end);
  correlation_id = some "message-0";
  protocol = protocol_version;
  stream = operational_stream;
}

-- the same state on the stream with priority
abbrev pub safety_update : Envelope
safety_update = record state_update { message_id = "message-2"; stream = safety_stream }

abbrev pub carry_message : Envelope
carry_message = record {
  message_id = "message-3";
  message_type = "assignment";
  source_id = "coordinator-1";
  session_id = "session-2";
  sequence = pos 1;
  timestamp_ms = pos 2000;
  payload = assignment_payload carry_job;
  correlation_id = none;
  protocol = protocol_version;
  stream = operational_stream;
}
