-- ===== src/Transport/Bus.antt =====
-- `InMemoryBus` of transport.py. A handler stands for itself as a name; `publish` gives the calls
-- that it makes, in order.
use ump.Prelude.{
  String, ◌≡◌, refl, List, [], ◌∷◌, ◌++◌, map, Result, ok, ◌>>=◌, ◌==◌, if◌then◌else◌, ap, sym, ◌∙◌,
  inl, inr, Bool-cases,
}
use mathlib.Core.List.{append_assoc, append-nil}
use ump.Prelude.Table.{select}
use ump.Transport.Envelope.{TransportError, Envelope, Encoded, encode_envelope, decode_envelope}
use ump.Transport.RoundTrip.{IsWellFormed, decode_envelope-encode_envelope}

pub record Subscription : Type 0 where
  pub message_type : String
  pub handler : String

pub record InMemoryBus : Type 0 where
  pub subscribers : List Subscription
  pub trace : List Envelope

-- `subscribe`
unfoldable pub subscribe : String → String → InMemoryBus → InMemoryBus
subscribe message_type handler bus = record bus {
  subscribers = bus.subscribers ++ record { message_type = message_type; handler = handler } ∷ [];
}

-- the handlers of one key, in the order of subscription
unfoldable pub handlers_of : String → List Subscription → List String
handlers_of key subscribers = map (λ s. s.handler) (select (λ s. s.message_type == key) subscribers)

abbrev pub calls_on : Envelope → List String → List (String × Envelope)
calls_on envelope handlers = map (λ h. (h, envelope)) handlers

abbrev pub deliver_to : InMemoryBus → Envelope → List (String × Envelope) × InMemoryBus
deliver_to bus canonical = (
  calls_on canonical (handlers_of canonical.message_type bus.subscribers)
      ++ calls_on canonical (handlers_of "*" bus.subscribers),
  record bus { trace = bus.trace ++ canonical ∷ [] },
)

-- `publish`; an envelope that does not encode and decode leaves the bus as it was
unfoldable pub publish :
    Envelope → InMemoryBus → Result TransportError (List (String × Envelope) × InMemoryBus)
publish envelope bus = do
  encoded ← encode_envelope envelope
  canonical ← decode_envelope encoded
  ok (deliver_to bus canonical)

-- calls of `subscribe`, in order
unfoldable pub subscribe_all : List Subscription → InMemoryBus → InMemoryBus
unfolding subscribe
subscribe_all [] bus = bus
subscribe_all (s ∷ rest) bus = subscribe_all rest (subscribe s.message_type s.handler bus)

subscribe_all-adds :
    (subscriptions : List Subscription) (bus : InMemoryBus)
    → subscribe_all subscriptions bus
      ≡ record { subscribers = bus.subscribers ++ subscriptions; trace = bus.trace }
unfolding subscribe_all
subscribe_all-adds [] bus =
    ap (λ l. record { subscribers = l; trace = bus.trace }) (sym (append-nil bus.subscribers))
subscribe_all-adds (s ∷ rest) bus =
    subscribe_all-adds rest (subscribe s.message_type s.handler bus)
    ∙ ap (λ l. record { subscribers = l; trace = bus.trace })
        (append_assoc bus.subscribers (s ∷ []) rest)

-- the calls with `e` by the handlers under one key
abbrev pub called : String → Envelope → List Subscription → List (String × Envelope)
called key e [] = []
called key e (s ∷ rest) =
    if s.message_type == key then (s.handler, e) ∷ called key e rest else called key e rest

called-calls_on :
    (key : String) (e : Envelope) (subscribers : List Subscription)
    → calls_on e (handlers_of key subscribers) ≡ called key e subscribers
unfolding handlers_of select
called-calls_on key e [] = refl
called-calls_on key e (s ∷ rest) = elim (Bool-cases (s.message_type == key)) [
  | inl same ↦ rw same (ap (λ l. (s.handler, e) ∷ l) (called-calls_on key e rest))
  | inr other ↦ rw other (called-calls_on key e rest)
]

-- After any calls of `subscribe`, publishing a well-formed envelope that `encode_envelope` accepts
-- calls, with exactly that envelope, the handlers that subscribed to its type, in the order of
-- their subscriptions, and after them those that subscribed to the wildcard. It appends the envelope
-- to the trace, and leaves the subscriptions as they were.
pub publish_canonical :
    (e : Envelope) (b : Encoded) (subscriptions : List Subscription) (bus : InMemoryBus)
    → IsWellFormed e
    → encode_envelope e ≡ ok b
    → publish e (subscribe_all subscriptions bus)
      ≡ ok (
        called e.message_type e (bus.subscribers ++ subscriptions)
            ++ called "*" e (bus.subscribers ++ subscriptions),
        record { subscribers = bus.subscribers ++ subscriptions; trace = bus.trace ++ e ∷ [] },
      )
unfolding publish
publish_canonical e b subscriptions bus w encoded = rw (subscribe_all-adds subscriptions bus) (
    rw encoded (
      rw (decode_envelope-encode_envelope e b w encoded) (
        rw
          (
            called-calls_on e.message_type e (bus.subscribers ++ subscriptions),
            called-calls_on "*" e (bus.subscribers ++ subscriptions),
          )
          refl)))
