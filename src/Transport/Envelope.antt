-- ===== src/Transport/Envelope.antt =====
-- `Envelope`, `encode_envelope`, `decode_envelope` and `make_envelope` of transport.py. A fresh
-- UUID is an argument.
use Prim.Native.String.{len}
use ump.Prelude.{
  ℕ, String, not, ◌&&◌, ◌||◌, Option, none, some, List, [], ◌∷◌, all, elem, ◌==◌, if◌then◌else◌,
  is_some, ltb, Result, ok, err, ◌>>=◌, ◌>>◌, guard, refuse,
}
use ump.Prelude.Int.{ℤ, pos, ltb_ℤ}
use ump.Models.Json.{Json, null, num, text, arr, obj, Fields, end, field, get, json_eq}
use ump.Models.Outcome.{is_object}
use ump.Models.Outcome.Size.{json_size}
use ump.Models.Codec.{optional_text}

-- One constructor for each `raise`. `unhashable` is the TypeError of `in` on a frozenset.
pub data TransportError : Type 0 where
  unknown_stream safety_carries_state too_large bad_size not_json not_object : TransportError
  missing_fields unsupported_protocol unknown_message_type unhashable : TransportError
  invalid_field : String → TransportError
  bad_sequence bad_timestamp bad_payload bad_correlation : TransportError

abbrev pub protocol_version : String
protocol_version = "ump/0.1"

abbrev pub max_message_bytes : ℕ
max_message_bytes = 65536

abbrev pub operational_stream : String
operational_stream = "operational"

abbrev pub safety_stream : String
safety_stream = "safety"

abbrev pub streams : List String
streams = operational_stream ∷ safety_stream ∷ []

abbrev pub message_types : List String
message_types =
    "manifest" ∷ "state" ∷ "goal" ∷ "plan" ∷ "assignment" ∷ "assignment_ack" ∷ "assignment_query"
    ∷ "assignment_snapshot" ∷ "cancellation_request" ∷ "cancellation_ack" ∷ "outcome" ∷ []

pub record Envelope : Type 0 where
  pub message_id : String
  pub message_type : String
  pub source_id : String
  pub session_id : String
  pub sequence : ℤ
  pub timestamp_ms : ℤ
  pub payload : Json
  pub correlation_id : Option String
  pub protocol : String
  pub stream : String

-- A byte string: its length, and what `json.loads` makes of it.
pub record Encoded : Type 0 where
  pub size : ℕ
  pub document : Option Json

-- the key that a stream other than the operational one adds to the document
abbrev pub stream_field : String → Fields → Fields
stream_field stream rest =
    if stream == operational_stream then rest else field "stream" (text stream) rest

-- the document that `encode_envelope` writes
abbrev pub envelope_document : Envelope → Json
envelope_document e = obj (
    field "protocol" (text e.protocol) (
      field "message_id" (text e.message_id) (
        field "message_type" (text e.message_type) (
          field "source_id" (text e.source_id) (
            field "session_id" (text e.session_id) (
              field "sequence" (num e.sequence) (
                field "timestamp_ms" (num e.timestamp_ms) (
                  field "correlation_id" (optional_text e.correlation_id)
                    (field "payload" e.payload (stream_field e.stream end))))))))))

-- `encode_envelope`
unfoldable pub encode_envelope : Envelope → Result TransportError Encoded
encode_envelope e = do
  guard (elem e.stream streams) unknown_stream
  refuse (e.stream == safety_stream && not (e.message_type == "state")) safety_carries_state
  let size = json_size (envelope_document e)
  refuse (ltb max_message_bytes size) too_large
  ok (record { size = size; document = some (envelope_document e) })

abbrev pub required_keys : List String
required_keys =
    "protocol" ∷ "message_id" ∷ "message_type" ∷ "source_id" ∷ "session_id" ∷ "sequence"
    ∷ "timestamp_ms" ∷ "payload" ∷ []

abbrev pub parsed : Option Json → Result TransportError Json
parsed none = err not_json
parsed (some document) = ok document

abbrev pub as_dict : Json → Result TransportError Fields
as_dict (obj fields) = ok fields
as_dict _ = err not_object

-- `document[key]`, where `missing` has found the key
abbrev pub at_key : Option Json → Result TransportError Json
at_key none = err missing_fields
at_key (some value) = ok value

-- `value in names`, for a value of a document
abbrev pub one_of : Json → List String → TransportError → Result TransportError String
one_of (text s) names e = if elem s names then ok s else err e
one_of (arr _) names e = err unhashable
one_of (obj _) names e = err unhashable
one_of _ names e = err e

-- `document.get("stream", OPERATIONAL_STREAM)`
abbrev pub stream_or_operational : Option Json → Json
stream_or_operational none = text operational_stream
stream_or_operational (some value) = value

-- `not isinstance(value, str) or not value or len(value.encode()) > 128`
abbrev pub bounded_text : String → Json → Result TransportError String
bounded_text name (text s) = if s == "" || ltb 128 (len s) then err (invalid_field name) else ok s
bounded_text name _ = err (invalid_field name)

abbrev pub at_least : ℤ → TransportError → Json → Result TransportError ℤ
at_least low e (num n) = if ltb_ℤ n low then err e else ok n
at_least low e _ = err e

abbrev pub correlation : Option Json → Result TransportError (Option String)
correlation none = ok none
correlation (some null) = ok none
correlation (some (text s)) = if ltb 128 (len s) then err bad_correlation else ok (some s)
correlation (some _) = err bad_correlation

-- `decode_envelope`; the checks run in the source's order, and a value is read with its check
unfoldable pub decode_envelope : Encoded → Result TransportError Envelope
unfolding get json_eq
decode_envelope encoded = do
  refuse (ltb encoded.size 1 || ltb max_message_bytes encoded.size) bad_size
  document ← parsed encoded.document
  fields ← as_dict document
  guard (all (λ name. is_some (get name fields)) required_keys) missing_fields
  protocol ← at_key (get "protocol" fields)
  guard (json_eq protocol (text protocol_version)) unsupported_protocol
  message_type_value ← at_key (get "message_type" fields)
  message_type ← one_of message_type_value message_types unknown_message_type
  stream ← one_of (stream_or_operational (get "stream" fields)) streams unknown_stream
  refuse (stream == safety_stream && not (message_type == "state")) safety_carries_state
  message_id_value ← at_key (get "message_id" fields)
  message_id ← bounded_text "message_id" message_id_value
  source_id_value ← at_key (get "source_id" fields)
  source_id ← bounded_text "source_id" source_id_value
  session_id_value ← at_key (get "session_id" fields)
  session_id ← bounded_text "session_id" session_id_value
  sequence_value ← at_key (get "sequence" fields)
  sequence ← at_least (pos 1) bad_sequence sequence_value
  timestamp_value ← at_key (get "timestamp_ms" fields)
  timestamp_ms ← at_least (pos 0) bad_timestamp timestamp_value
  payload ← at_key (get "payload" fields)
  guard (is_object payload) bad_payload
  correlation_id ← correlation (get "correlation_id" fields)
  ok (record {
    message_id = message_id;
    message_type = message_type;
    source_id = source_id;
    session_id = session_id;
    sequence = sequence;
    timestamp_ms = timestamp_ms;
    payload = payload;
    correlation_id = correlation_id;
    protocol = protocol_version;
    stream = stream;
  })

-- `make_envelope`, with the identifier that `uuid4` gives
unfoldable pub make_envelope :
    String → String → String → String → ℤ → ℤ → Json → Option String → String → Envelope
make_envelope message_id message_type source_id session_id sequence timestamp_ms body correlation_id
      stream =
    record {
      message_id = message_id;
      message_type = message_type;
      source_id = source_id;
      session_id = session_id;
      sequence = sequence;
      timestamp_ms = timestamp_ms;
      payload = body;
      correlation_id = correlation_id;
      protocol = protocol_version;
      stream = stream;
    }
