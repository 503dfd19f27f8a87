-- ===== src/Transport/RoundTrip.antt =====
-- `decode_envelope` after `encode_envelope`, for well-formed envelopes.
use Prim.Native.String.{len}
use ump.Prelude.{
  ℕ, ◌≤◌, String, ◌≡◌, refl, sym, ◌∙◌, ap, inl, inr, Bool, true, false, not, ◌&&◌, ◌||◌, Option,
  none, some, elem, ◌==◌, ltb, ok, guard, refuse, >>=-eq-ok, refuse-eq-ok, ok-injective, arith,
  eq_iff, Bool-cases,
}
use ump.Prelude.Int.{pos, ltb_ℤ}
use ump.Models.Json.{text, obj, Fields, end, field, get, json_eq}
use ump.Models.Outcome.{is_object}
use ump.Models.Outcome.Size.{json_size, fields_size}
use ump.Models.Codec.{optional_text}
use ump.Transport.Envelope.{
  Envelope, Encoded, encode_envelope, decode_envelope, envelope_document, stream_field,
  protocol_version, operational_stream, safety_carries_state, too_large, safety_stream, streams,
  message_types, max_message_bytes, one_of, correlation, unknown_stream, stream_or_operational,
}

-- `not value or len(value.encode()) > 128` fails
abbrev pub IsIdentifier : String → Type 0
IsIdentifier s = (s == "" || ltb 128 (len s)) ≡ false

-- `len(value.encode()) > 128`, of a value that may be missing
abbrev pub too_long : Option String → Bool
too_long none = false
too_long (some s) = ltb 128 (len s)

-- What the protocol asks of an envelope.
pub record IsWellFormed (e : Envelope) : Type 0 where
  pub version : e.protocol ≡ protocol_version
  pub known_type : elem e.message_type message_types ≡ true
  pub known_stream : elem e.stream streams ≡ true
  pub state_only : (e.stream == safety_stream && not (e.message_type == "state")) ≡ false
  pub message : IsIdentifier e.message_id
  pub source : IsIdentifier e.source_id
  pub session : IsIdentifier e.session_id
  pub numbered : ltb_ℤ e.sequence (pos 1) ≡ false
  pub timed : ltb_ℤ e.timestamp_ms (pos 0) ≡ false
  pub body : is_object e.payload ≡ true
  pub correlated : too_long e.correlation_id ≡ false

size_pos : (fs : Fields) → 2 ≤ fields_size fs
unfolding fields_size
size_pos end = omega arith
size_pos (field k v end) = omega arith
size_pos (field k v (field j w rest)) = omega (arith, size_pos (field j w rest))

-- the stream that a document has, its absence included
stream_read :
    (s : String)
    → elem s streams ≡ true
    → one_of (stream_or_operational (get "stream" (stream_field s end))) streams unknown_stream
      ≡ ok s
unfolding get
stream_read s known = elim (Bool-cases (s == operational_stream)) [
  | inl e ↦ rw e (ground (arith, eq_iff s operational_stream))
  | inr e ↦ rw e (rw known refl)
]

version_read : (p : String) → p ≡ protocol_version → json_eq (text p) (text protocol_version) ≡ true
unfolding json_eq
version_read p same = rw same refl

correlation_read :
    (c : Option String) → too_long c ≡ false → correlation (some (optional_text c)) ≡ ok c
correlation_read none short = refl
correlation_read (some s) short = rw short refl

-- the decoder on the document of an envelope, of any size in bounds
decode_document :
    (e : Envelope) (size : ℕ)
    → (ltb size 1 || ltb max_message_bytes size) ≡ false
    → IsWellFormed e
    → decode_envelope (record { size = size; document = some (envelope_document e) })
      ≡ ok (record e { protocol = protocol_version })
unfolding decode_envelope
decode_document e size fits w = simp (
  fits,
  version_read e.protocol w.version,
  w.known_type,
  stream_read e.stream w.known_stream,
  w.state_only,
  w.message,
  w.source,
  w.session,
  w.numbered,
  w.timed,
  w.body,
  correlation_read e.correlation_id w.correlated,
)

object_size : (fs : Fields) → 2 ≤ json_size (obj fs)
unfolding json_size
object_size fs = size_pos fs

in_range :
    (e : Envelope)
    → ltb max_message_bytes (json_size (envelope_document e)) ≡ false
    → (ltb (json_size (envelope_document e)) 1
        || ltb max_message_bytes (json_size (envelope_document e)))
      ≡ false
in_range e small =
    let big : 2 ≤ json_size (envelope_document e) = object_size _ in ground (arith, big)

encode-fits :
    (e : Envelope) (b : Encoded)
    → encode_envelope e ≡ ok b
    → ((ltb b.size 1 || ltb max_message_bytes b.size) ≡ false)
      × (b.document ≡ some (envelope_document e))
      × (b.size ≡ json_size (envelope_document e))
unfolding encode_envelope
encode-fits e b h =
    let (_, _, h₁) = >>=-eq-ok (guard (elem e.stream streams) unknown_stream) _ h in
    let (_, _, h₂) =
      >>=-eq-ok
        (refuse (e.stream == safety_stream && not (e.message_type == "state")) safety_carries_state)
        _ h₁ in
    let (_, fits, h₃) =
      >>=-eq-ok (refuse (ltb max_message_bytes (json_size (envelope_document e))) too_large) _ h₂ in
    let small =
      refuse-eq-ok (ltb max_message_bytes (json_size (envelope_document e))) too_large fits in
    let same = ok-injective h₃ in
    (
      ap (λ (x : Encoded). ltb x.size 1 || ltb max_message_bytes x.size) (sym same)
          ∙ in_range e small,
      ap (λ (x : Encoded). x.document) (sym same),
      ap (λ (x : Encoded). x.size) (sym same),
    )

-- A well-formed envelope that `encode_envelope` accepts is what `decode_envelope` makes of the
-- bytes.
pub decode_envelope-encode_envelope :
    (e : Envelope) (b : Encoded)
    → IsWellFormed e
    → encode_envelope e ≡ ok b
    → decode_envelope b ≡ ok e
decode_envelope-encode_envelope e b w h =
    let (fits, written, _) = encode-fits e b h in
    ap (λ d. decode_envelope (record { size = b.size; document = d })) written
    ∙ (decode_document e b.size fits w ∙ ap (λ p. ok (record e { protocol = p })) (sym w.version))
