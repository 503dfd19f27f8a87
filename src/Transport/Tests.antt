-- ===== src/Transport/Tests.antt =====
-- Runs of the envelope codec and the in-memory bus, and their theorems at concrete envelopes.
use ump.Prelude.{◌≡◌, ◌↔◌, refl, some, [], ◌∷◌, ◌++◌, ok, err}
use ump.Prelude.Int.{pos}
use ump.Models.Json.{Fields, text, arr, nil, num, obj, end, field, get, json_eq}
use ump.Models.Outcome.Size.{json_size}
use ump.Transport.Samples.{state_update, safety_update}
use ump.Transport.Envelope.{
  unhashable, Encoded, envelope_document, encode_envelope, decode_envelope,
}
use ump.Transport.RoundTrip.{IsWellFormed, decode_envelope-encode_envelope}
use ump.Transport.Decoded.{decode_envelope-IsWellFormed}
use ump.Transport.Errors.{Unhashable, decode_envelope-Unhashable_iff}
use ump.Transport.Bus.{Subscription, InMemoryBus, subscribe_all, publish, publish_canonical}

abbrev encoded_update : Encoded
encoded_update = record { size = 209; document = some (envelope_document state_update) }

encode_run : encode_envelope state_update ≡ ok encoded_update
unfolding encode_envelope json_size
encode_run = refl

state_update-IsWellFormed : IsWellFormed state_update
state_update-IsWellFormed = record {
  version = refl;
  known_type = refl;
  known_stream = refl;
  state_only = refl;
  message = refl;
  source = refl;
  session = refl;
  numbered = refl;
  timed = refl;
  body = refl;
  correlated = refl;
}

decode_envelope-encode_envelope_example : decode_envelope encoded_update ≡ ok state_update
decode_envelope-encode_envelope_example =
    decode_envelope-encode_envelope state_update encoded_update state_update-IsWellFormed encode_run

-- the stream of a document that names it
abbrev safety_bytes : Encoded
safety_bytes = record { size = 228; document = some (envelope_document safety_update) }

decode_run : decode_envelope safety_bytes ≡ ok safety_update
unfolding decode_envelope get json_eq
decode_run = refl

decode_envelope-IsWellFormed_example : IsWellFormed safety_update
decode_envelope-IsWellFormed_example =
    decode_envelope-IsWellFormed safety_bytes safety_update decode_run

-- the monitor subscribes after the log
abbrev monitor : Subscription
monitor = record { message_type = "state"; handler = "monitor" }

abbrev logging_bus : InMemoryBus
logging_bus = record {
  subscribers = record { message_type = "*"; handler = "log" } ∷ [];
  trace = [];
}

publish_canonical_example :
    publish state_update (subscribe_all (monitor ∷ []) logging_bus)
    ≡ ok (
      ("monitor", state_update) ∷ ("log", state_update) ∷ [],
      record { subscribers = logging_bus.subscribers ++ monitor ∷ []; trace = state_update ∷ [] },
    )
publish_canonical_example =
    publish_canonical state_update encoded_update (monitor ∷ []) logging_bus
      state_update-IsWellFormed encode_run

-- a document whose type is a list
abbrev listed_type : Fields
listed_type = field "protocol" (text "ump/0.1") (
    field "message_id" (text "m") (
      field "message_type" (arr nil) (
        field "source_id" (text "s") (
          field "session_id" (text "s") (
            field "sequence" (num (pos 1))
              (field "timestamp_ms" (num (pos 0)) (field "payload" (obj end) end)))))))

abbrev listed_bytes : Encoded
listed_bytes = record { size = 133; document = some (obj listed_type) }

listed_run : decode_envelope listed_bytes ≡ err unhashable
unfolding decode_envelope get json_eq
listed_run = refl

decode_envelope-Unhashable_iff_example :
    (decode_envelope listed_bytes ≡ err unhashable) ↔ Unhashable listed_bytes
decode_envelope-Unhashable_iff_example = decode_envelope-Unhashable_iff listed_bytes
