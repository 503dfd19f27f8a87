-- ===== src/Transport/Errors.antt =====
-- Which documents make `decode_envelope` raise an error that is no ProtocolDecodeError.
use Prim.Native.String.{len}
use ump.Prelude.{
  String, ◌≡◌, ◌≢◌, ◌↔◌, refl, ◌∙◌, ap, ◌⊎◌, inl, inr, Bool, true, false, not, ◌&&◌, ◌||◌, Option,
  none, some, is_some, List, elem, all, ltb, ◌==◌, if◌then◌else◌, Bool-cases, Result, ok, err,
  err-injective, raises-bind, raises-guard, raises-refuse, guard-eq-ok, refuse-eq-ok, guard, refuse,
  arith,
}
use ump.Prelude.Int.{ℤ, pos, ltb_ℤ}
use ump.Models.Json.{Json, arr, obj, text, num, bool, null, Fields, get, json_eq}
use ump.Models.Outcome.{is_object}
use ump.Transport.Envelope.{
  Encoded, parsed, as_dict, at_key, stream_or_operational, bounded_text, at_least, correlation,
  streams, unknown_stream, safety_stream, safety_carries_state, bad_size, missing_fields,
  unsupported_protocol, bad_sequence, bad_timestamp, bad_payload, bad_correlation, invalid_field,
  TransportError, unhashable, protocol_version, max_message_bytes, required_keys, one_of,
  message_types, unknown_message_type, decode_envelope,
}

-- a list or a dict
abbrev pub is_container : Json → Bool
is_container (arr _) = true
is_container (obj _) = true
is_container _ = false

container-one_of :
    (v : Json) (names : List String) (own : TransportError)
    → is_container v ≡ true
    → one_of v names own ≡ err unhashable
container-one_of (arr _) names own h = refl
container-one_of (obj _) names own h = refl
container-one_of (text _) names own h = cc
container-one_of (num _) names own h = cc
container-one_of (bool _) names own h = cc
container-one_of null names own h = cc

-- What a document is like for which `decode_envelope` raises a TypeError.
pub record Unhashable (b : Encoded) : Type 0 where
  pub fields : Fields
  pub document : b.document ≡ some (obj fields)
  pub sized : (ltb b.size 1 || ltb max_message_bytes b.size) ≡ false
  pub present : all (λ name. is_some (get name fields)) required_keys ≡ true
  pub protocol : Json
  pub spoken : get "protocol" fields ≡ some protocol
  pub version : json_eq protocol (text protocol_version) ≡ true
  pub named : Json
  pub type_field : get "message_type" fields ≡ some named
  pub cause :
      (is_container named ≡ true)
      ⊎ ((name : String) × (one_of named message_types unknown_message_type ≡ ok name)
          × (is_container (stream_or_operational (get "stream" fields)) ≡ true))

-- the errors of the other checks
parsed-raises : (o : Option Json) (e : TransportError) → parsed o ≡ err e → e ≢ unhashable
parsed-raises none e h u = cc
parsed-raises (some d) e h u = cc

as_dict-raises : (d : Json) (e : TransportError) → as_dict d ≡ err e → e ≢ unhashable
as_dict-raises (obj fs) e h u = cc
as_dict-raises (arr xs) e h u = cc
as_dict-raises (text s) e h u = cc
as_dict-raises (num n) e h u = cc
as_dict-raises (bool b) e h u = cc
as_dict-raises null e h u = cc

at_key-raises : (o : Option Json) (e : TransportError) → at_key o ≡ err e → e ≢ unhashable
at_key-raises none e h u = cc
at_key-raises (some v) e h u = cc

checked-raises :
    (b : Bool) (own e : TransportError) {A : Type 0} (a : A)
    → own ≢ unhashable
    → (if b then err own else ok a) ≡ err e
    → e ≢ unhashable
checked-raises true own e a other h u = other (err-injective h ∙ u)
checked-raises false own e a other h u = cc

one_of-cause :
    (v : Json) (names : List String) (own e : TransportError)
    → own ≢ unhashable
    → one_of v names own ≡ err e
    → e ≡ unhashable
    → is_container v ≡ true
one_of-cause (arr xs) names own e other h u = refl
one_of-cause (obj fs) names own e other h u = refl
one_of-cause (text s) names own e other h u = elim (Bool-cases (elem s names)) [
  | inl known ↦ let impossible = rw known at h in cc
  | inr unknown ↦ absurd (other (err-injective (rw unknown at h) ∙ u))
]
one_of-cause (num n) names own e other h u = absurd (other (err-injective h ∙ u))
one_of-cause (bool b) names own e other h u = absurd (other (err-injective h ∙ u))
one_of-cause null names own e other h u = absurd (other (err-injective h ∙ u))

bounded_text-raises :
    (name : String) (v : Json) (e : TransportError) → bounded_text name v ≡ err e → e ≢ unhashable
bounded_text-raises name (text s) e h u =
    checked-raises (s == "" || ltb 128 (len s)) (invalid_field name) e s (λ p. cc) h u
bounded_text-raises name (arr xs) e h u = cc
bounded_text-raises name (obj fs) e h u = cc
bounded_text-raises name (num n) e h u = cc
bounded_text-raises name (bool b) e h u = cc
bounded_text-raises name null e h u = cc

at_least-raises :
    (low : ℤ) (own : TransportError) (v : Json) (e : TransportError)
    → own ≢ unhashable
    → at_least low own v ≡ err e
    → e ≢ unhashable
at_least-raises low own (num n) e other h u = checked-raises (ltb_ℤ n low) own e n other h u
at_least-raises low own (arr xs) e other h u = other (err-injective h ∙ u)
at_least-raises low own (obj fs) e other h u = other (err-injective h ∙ u)
at_least-raises low own (text s) e other h u = other (err-injective h ∙ u)
at_least-raises low own (bool b) e other h u = other (err-injective h ∙ u)
at_least-raises low own null e other h u = other (err-injective h ∙ u)

correlation-raises : (o : Option Json) (e : TransportError) → correlation o ≡ err e → e ≢ unhashable
correlation-raises none e h u = cc
correlation-raises (some null) e h u = cc
correlation-raises (some (text s)) e h u =
    checked-raises (ltb 128 (len s)) bad_correlation e (some s) (λ p. cc) h u
correlation-raises (some (arr xs)) e h u = cc
correlation-raises (some (obj fs)) e h u = cc
correlation-raises (some (num n)) e h u = cc
correlation-raises (some (bool b)) e h u = cc

parsed-eq-ok : (o : Option Json) (d : Json) → parsed o ≡ ok d → o ≡ some d
parsed-eq-ok o d h = ground arith

as_dict-eq-ok : (d : Json) (fs : Fields) → as_dict d ≡ ok fs → d ≡ obj fs
as_dict-eq-ok d fs h = ground arith

at_key-eq-ok : (o : Option Json) (v : Json) → at_key o ≡ ok v → o ≡ some v
at_key-eq-ok o v h = ground arith

-- no error of what is read after the two names
module _ (b : Encoded) where
  abbrev Explains : TransportError → Type 0
  Explains e = e ≡ unhashable → Unhashable b

  elsewhere :
      {A : Type 0} (first : Result TransportError A)
      → ((e : TransportError) → first ≡ err e → e ≢ unhashable)
      → (e : TransportError) → first ≡ err e
      → Explains e
  elsewhere first raises e h u = absurd (raises e h u)

  decode_envelope-Explains : (e : TransportError) → decode_envelope b ≡ err e → Explains e
  unfolding decode_envelope
  decode_envelope-Explains =
      raises-bind (refuse (ltb b.size 1 || ltb max_message_bytes b.size) bad_size)
        (raises-refuse Explains _ _ (λ u. cc))
        λ _ sized.
          raises-bind (parsed b.document) (elsewhere _ (parsed-raises b.document))
            λ document parses.
              raises-bind (as_dict document) (elsewhere _ (as_dict-raises document))
                λ fields is_dict.
                  raises-bind
                    (guard (all (λ name. is_some (get name fields)) required_keys) missing_fields)
                    (raises-guard Explains _ _ (λ u. cc))
                    λ _ present.
                      raises-bind (at_key (get "protocol" fields)) (elsewhere _ (at_key-raises _))
                        λ protocol spoken.
                          raises-bind
                            (guard (json_eq protocol (text protocol_version)) unsupported_protocol)
                            (raises-guard Explains _ _ (λ u. cc))
                            λ _ version.
                              raises-bind (at_key (get "message_type" fields))
                                (elsewhere _ (at_key-raises _))
                                λ named type_field.
                                  raises-bind (one_of named message_types unknown_message_type)
                                    (λ e h u. record {
                                      fields = fields;
                                      document =
                                          parsed-eq-ok b.document document parses
                                          ∙ ap some (as_dict-eq-ok document fields is_dict);
                                      sized = refuse-eq-ok _ bad_size sized;
                                      present = guard-eq-ok _ missing_fields present;
                                      protocol = protocol;
                                      spoken = at_key-eq-ok (get "protocol" fields) protocol spoken;
                                      version = guard-eq-ok _ unsupported_protocol version;
                                      named = named;
                                      type_field =
                                          at_key-eq-ok (get "message_type" fields) named type_field;
                                      cause = inl (
                                          one_of-cause named message_types unknown_message_type e
                                            (λ p. cc) h u);
                                    })
                                    λ message_type known.
                                      raises-bind
                                        (one_of (stream_or_operational (get "stream" fields))
                                          streams unknown_stream)
                                        (λ e h u. record {
                                          fields = fields;
                                          document =
                                              parsed-eq-ok b.document document parses
                                              ∙ ap some (as_dict-eq-ok document fields is_dict);
                                          sized = refuse-eq-ok _ bad_size sized;
                                          present = guard-eq-ok _ missing_fields present;
                                          protocol = protocol;
                                          spoken =
                                              at_key-eq-ok (get "protocol" fields) protocol spoken;
                                          version = guard-eq-ok _ unsupported_protocol version;
                                          named = named;
                                          type_field =
                                              at_key-eq-ok (get "message_type" fields) named
                                                type_field;
                                          cause = inr (
                                            message_type,
                                            known,
                                            one_of-cause
                                                (stream_or_operational (get "stream" fields))
                                                streams unknown_stream e (λ p. cc) h u,
                                          );
                                        })
                                        λ stream _.
                                          raises-bind
                                            (refuse
                                              (stream == safety_stream
                                                && not (message_type == "state"))
                                              safety_carries_state)
                                            (raises-refuse Explains _ _ (λ u. cc))
                                            λ _ _.
                                              raises-bind (at_key (get "message_id" fields))
                                                (elsewhere _ (at_key-raises _))
                                                λ message_value _.
                                                  raises-bind
                                                    (bounded_text "message_id" message_value)
                                                    (elsewhere _
                                                      (bounded_text-raises _ message_value))
                                                    λ _ _.
                                                      raises-bind (at_key (get "source_id" fields))
                                                        (elsewhere _ (at_key-raises _))
                                                        λ source_value _.
                                                          raises-bind
                                                            (bounded_text "source_id" source_value)
                                                            (elsewhere _
                                                            (bounded_text-raises _ source_value))
                                                            λ _ _.
                                                            raises-bind
                                                            (at_key (get "session_id" fields))
                                                            (elsewhere _ (at_key-raises _))
                                                            λ session_value _.
                                                            raises-bind
                                                            (bounded_text "session_id"
                                                            session_value)
                                                            (elsewhere _
                                                            (bounded_text-raises _ session_value))
                                                            λ _ _.
                                                            raises-bind
                                                            (at_key (get "sequence" fields))
                                                            (elsewhere _ (at_key-raises _))
                                                            λ sequence_value _.
                                                            raises-bind
                                                            (at_least (pos 1) bad_sequence
                                                            sequence_value)
                                                            (elsewhere _ (λ e.
                                                            at_least-raises (pos 1) bad_sequence
                                                            sequence_value e (λ p. cc)))
                                                            λ _ _.
                                                            raises-bind
                                                            (at_key (get "timestamp_ms" fields))
                                                            (elsewhere _ (at_key-raises _))
                                                            λ timestamp_value _.
                                                            raises-bind
                                                            (at_least (pos 0) bad_timestamp
                                                            timestamp_value)
                                                            (elsewhere _ (λ e.
                                                            at_least-raises (pos 0) bad_timestamp
                                                            timestamp_value e (λ p. cc)))
                                                            λ _ _.
                                                            raises-bind
                                                            (at_key (get "payload" fields))
                                                            (elsewhere _ (at_key-raises _))
                                                            λ payload _.
                                                            raises-bind
                                                            (guard (is_object payload) bad_payload)
                                                            (raises-guard Explains _ _ (λ u. cc))
                                                            λ _ _.
                                                            raises-bind
                                                            (correlation
                                                            (get "correlation_id" fields))
                                                            (elsewhere _ (
                                                            correlation-raises
                                                            (get "correlation_id" fields)))
                                                            (λ _ _ e h. cc)

raises-Unhashable : (b : Encoded) → Unhashable b → decode_envelope b ≡ err unhashable
unfolding decode_envelope
raises-Unhashable b u = elim u.cause [
  | inl container ↦
      rw (u.document, u.sized, u.present, u.spoken, u.version, u.type_field)
        (rw (container-one_of u.named message_types unknown_message_type container) refl)
  | inr (name, known, container) ↦
      rw (u.document, u.sized, u.present, u.spoken, u.version, u.type_field)
        (rw known (
          rw
            (container-one_of (stream_or_operational (get "stream" u.fields)) streams unknown_stream
              container)
            refl))
]

-- `decode_envelope` raises the TypeError of an unhashable value, which is no ProtocolDecodeError,
-- for exactly the documents of a valid size that have all required fields and the right protocol,
-- and whose `message_type` is a list or an object, or is known while the `stream` is one.
pub decode_envelope-Unhashable_iff :
    (b : Encoded) → (decode_envelope b ≡ err unhashable) ↔ Unhashable b
decode_envelope-Unhashable_iff b =
    (λ h. decode_envelope-Explains b unhashable h refl, raises-Unhashable b)
