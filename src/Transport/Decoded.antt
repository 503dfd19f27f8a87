-- ===== src/Transport/Decoded.antt =====
-- What a decoded envelope satisfies.
use Prim.Native.String.{len}
use ump.Prelude.{
  String, ◌≡◌, refl, sym, ◌∙◌, ap, inl, inr, Bool, true, false, not, ◌&&◌, ◌||◌, Option, none, some,
  List, all, elem, ◌==◌, if◌then◌else◌, ltb, is_some, ok, err, guard, refuse, guard-eq-ok,
  refuse-eq-ok, ok-injective, returns-bind, subst, Bool-cases,
}
use ump.Prelude.Int.{ℤ, pos, ltb_ℤ}
use ump.Models.Json.{Json, null, bool, num, text, arr, obj, get, json_eq}
use ump.Models.Outcome.{is_object}
use ump.Transport.Envelope.{
  TransportError, Envelope, Encoded, decode_envelope, protocol_version, safety_carries_state,
  safety_stream, streams, message_types, max_message_bytes, required_keys, one_of, bounded_text,
  at_least, correlation, unknown_stream, unknown_message_type, bad_sequence, bad_timestamp,
  invalid_field, bad_correlation, bad_size, bad_payload, missing_fields, unsupported_protocol,
  parsed, as_dict, at_key, stream_or_operational,
}
use ump.Transport.RoundTrip.{IsIdentifier, too_long, IsWellFormed}

one_of-elem :
    (v : Json) (names : List String) (e : TransportError) (s : String)
    → one_of v names e ≡ ok s
    → elem s names ≡ true
one_of-elem (text t) names e s h = elim (Bool-cases (elem t names)) [
  | inl known ↦ ap (λ n. elem n names) (sym (ok-injective (rw known at h))) ∙ known
  | inr other ↦ let impossible = rw other at h in cc
]
one_of-elem null names e s h = cc
one_of-elem (bool b) names e s h = cc
one_of-elem (num n) names e s h = cc
one_of-elem (arr xs) names e s h = cc
one_of-elem (obj fs) names e s h = cc

checked-ok :
    {A : Type 0} (test : Bool) (e : TransportError) (a s : A)
    → (if test then err e else ok a) ≡ ok s
    → (test ≡ false) × (a ≡ s)
checked-ok true e a s h = cc
checked-ok false e a s h = (refl, ok-injective h)

bounded_text-IsIdentifier :
    (name : String) (v : Json) (s : String) → bounded_text name v ≡ ok s → IsIdentifier s
bounded_text-IsIdentifier name (text t) s h =
    let (short, same) = checked-ok (t == "" || ltb 128 (len t)) (invalid_field name) t s h in
    ap (λ n. n == "" || ltb 128 (len n)) (sym same) ∙ short
bounded_text-IsIdentifier name null s h = cc
bounded_text-IsIdentifier name (bool b) s h = cc
bounded_text-IsIdentifier name (num n) s h = cc
bounded_text-IsIdentifier name (arr xs) s h = cc
bounded_text-IsIdentifier name (obj fs) s h = cc

at_least-bound :
    (low : ℤ) (e : TransportError) (v : Json) (n : ℤ)
    → at_least low e v ≡ ok n
    → ltb_ℤ n low ≡ false
at_least-bound low e (num m) n h =
    let (enough, same) = checked-ok (ltb_ℤ m low) e m n h in
    ap (λ k. ltb_ℤ k low) (sym same) ∙ enough
at_least-bound low e null n h = cc
at_least-bound low e (bool b) n h = cc
at_least-bound low e (text t) n h = cc
at_least-bound low e (arr xs) n h = cc
at_least-bound low e (obj fs) n h = cc

correlation-short :
    (o : Option Json) (c : Option String) → correlation o ≡ ok c → too_long c ≡ false
correlation-short none c h = ap too_long (sym (ok-injective h))
correlation-short (some null) c h = ap too_long (sym (ok-injective h))
correlation-short (some (text t)) c h =
    let (short, same) = checked-ok (ltb 128 (len t)) bad_correlation (some t) c h in
    ap too_long (sym same) ∙ short
correlation-short (some (bool b)) c h = cc
correlation-short (some (num n)) c h = cc
correlation-short (some (arr xs)) c h = cc
correlation-short (some (obj fs)) c h = cc

-- Every envelope that `decode_envelope` returns is well formed.
pub decode_envelope-IsWellFormed :
    (b : Encoded) (e : Envelope) → decode_envelope b ≡ ok e → IsWellFormed e
unfolding decode_envelope
decode_envelope-IsWellFormed b =
    returns-bind (refuse (ltb b.size 1 || ltb max_message_bytes b.size) bad_size) λ _ _.
      returns-bind (parsed b.document) λ document _. returns-bind (as_dict document) λ fields _.
        returns-bind (guard (all (λ name. is_some (get name fields)) required_keys) missing_fields)
          λ _ _. returns-bind (at_key (get "protocol" fields)) λ protocol _.
            returns-bind (guard (json_eq protocol (text protocol_version)) unsupported_protocol)
              λ _ _. returns-bind (at_key (get "message_type" fields)) λ type_value _.
                returns-bind (one_of type_value message_types unknown_message_type)
                  λ message_type known_type.
                    returns-bind
                      (one_of (stream_or_operational (get "stream" fields)) streams unknown_stream)
                      λ stream known_stream.
                        returns-bind
                          (refuse (stream == safety_stream && not (message_type == "state"))
                            safety_carries_state)
                          λ _ state_only.
                            returns-bind (at_key (get "message_id" fields)) λ message_value _.
                              returns-bind (bounded_text "message_id" message_value)
                                λ message_id message.
                                  returns-bind (at_key (get "source_id" fields)) λ source_value _.
                                    returns-bind (bounded_text "source_id" source_value)
                                      λ source_id source.
                                        returns-bind (at_key (get "session_id" fields))
                                          λ session_value _.
                                            returns-bind (bounded_text "session_id" session_value)
                                              λ session_id session.
                                                returns-bind (at_key (get "sequence" fields))
                                                  λ sequence_value _.
                                                    returns-bind
                                                      (at_least (pos 1) bad_sequence sequence_value)
                                                      λ sequence numbered.
                                                        returns-bind
                                                          (at_key (get "timestamp_ms" fields))
                                                          λ timestamp_value _.
                                                            returns-bind
                                                            (at_least (pos 0) bad_timestamp
                                                            timestamp_value)
                                                            λ timestamp_ms timed.
                                                            returns-bind
                                                            (at_key (get "payload" fields))
                                                            λ payload _.
                                                            returns-bind
                                                            (guard (is_object payload) bad_payload)
                                                            λ _ body.
                                                            returns-bind
                                                            (correlation
                                                            (get "correlation_id" fields))
                                                            λ correlation_id correlated. λ e h.
                                                            subst IsWellFormed (ok-injective h)
                                                            (record {
                                                            version = refl;
                                                            known_type =
                                                            one_of-elem type_value message_types
                                                            unknown_message_type message_type
                                                            known_type;
                                                            known_stream =
                                                            one_of-elem
                                                            (stream_or_operational
                                                            (get "stream" fields))
                                                            streams unknown_stream stream
                                                            known_stream;
                                                            state_only =
                                                            refuse-eq-ok _ safety_carries_state
                                                            state_only;
                                                            message =
                                                            bounded_text-IsIdentifier "message_id"
                                                            message_value message_id message;
                                                            source =
                                                            bounded_text-IsIdentifier "source_id"
                                                            source_value source_id source;
                                                            session =
                                                            bounded_text-IsIdentifier "session_id"
                                                            session_value session_id session;
                                                            numbered =
                                                            at_least-bound (pos 1) bad_sequence
                                                            sequence_value sequence numbered;
                                                            timed =
                                                            at_least-bound (pos 0) bad_timestamp
                                                            timestamp_value timestamp_ms timed;
                                                            body = guard-eq-ok _ bad_payload body;
                                                            correlated =
                                                            correlation-short
                                                            (get "correlation_id" fields)
                                                            correlation_id correlated;
                                                            })
