-- ===== src/EventBus.antt =====
-- roboserver/shared/event_bus/event_bus.go, call by call: who listens to which event type, and the
-- handler of each. A handler is of any type; a subscriber is its id. Calls that overlap, of which
-- event_bus.go warns itself, are not modelled.
pub mod View
pub mod Called
pub mod Delivered
pub mod Unsubscribed
use robomesh.Prelude.{
  ℕ, zero, suc, Bool, true, false, Option, none, some, List, [], ◌∷◌, Text, and_then, if◌then◌else◌,
}
use robomesh.Prelude.Bytes.{is_empty}
use robomesh.Prelude.Assoc.{Map, lookup, insert, delete, keys}
use robomesh.DataStructures.Set.{add, remove}

pub record EventBus (H : Type 0) : Type 0 where
  pub subscriptions : Map (List Text)
  pub handlers : Map (Map H)

-- GetOrDefault with an empty default.
abbrev pub entry {ℓ} : {A : Type ℓ} → Text → Map (List A) → List A
entry k m = elim (lookup k m) [ none ↦ [] | some v ↦ v ]

-- The value of a key is replaced, and then deleted if it is empty: DeleteIfEmpty.
abbrev pub put_or_delete {ℓ} : {A : Type ℓ} → Text → List A → Map (List A) → Map (List A)
put_or_delete k [] m = delete k m
put_or_delete k (x ∷ xs) m = insert k (x ∷ xs) m

-- The subscriber that is used: a new one where none is given or the event type is empty.
unfoldable pub chosen : Text → Option Text → Text → Text
chosen event_type none fresh = fresh
chosen event_type (some id) fresh = if is_empty event_type then fresh else id

-- What Publish does: the handlers that it starts, by subscriber, and the subscribers that it has
-- unsubscribed in the background as they have no handler.
pub record Published (H : Type 0) : Type 0 where
  pub started : List (Text × H)
  pub stale : List Text

module _ {H : Type 0} where
  unfoldable pub new_event_bus : EventBus H
  new_event_bus = record { subscriptions = []; handlers = [] }

  unfoldable pub subscribe_as : Text → Text → H → EventBus H → EventBus H
  unfolding add
  subscribe_as event_type id handler eb = record {
    subscriptions = insert event_type (add id (entry event_type eb.subscriptions)) eb.subscriptions;
    handlers = insert id (insert event_type handler (entry id eb.handlers)) eb.handlers;
  }

  unfoldable pub subscribe : Text → Option Text → Text → H → EventBus H → EventBus H × Text
  unfolding chosen subscribe_as
  subscribe event_type subscriber fresh handler eb =
      let id = chosen event_type subscriber fresh in (subscribe_as event_type id handler eb, id)

  -- Unsubscribe for one event type: nothing is done about an entry that is missing.
  unfoldable pub unsubscribe_one : Text → Text → EventBus H → EventBus H
  unfolding remove
  unsubscribe_one event_type id eb = record {
    subscriptions = elim (lookup event_type eb.subscriptions) [
      | none ↦ eb.subscriptions
      | some set ↦ put_or_delete event_type (remove id set) eb.subscriptions
    ];
    handlers = elim (lookup id eb.handlers) [
      | none ↦ eb.handlers
      | some events ↦ put_or_delete id (delete event_type events) eb.handlers
    ];
  }

  -- A loop of calls, the first that does not return ends it.
  unfoldable pub each :
      (Text → EventBus H → Option (EventBus H)) → List Text → EventBus H → Option (EventBus H)
  each f [] eb = some eb
  each f (k ∷ ks) eb = and_then (f k eb) λ eb'. each f ks eb'

  -- Unsubscribe, with fuel for the calls that it makes of itself; `none` means that it ran out.
  unfoldable pub unsubscribe : ℕ → Text → Text → EventBus H → Option (EventBus H)
  unfolding unsubscribe_one each
  unsubscribe zero event_type id eb = none
  unsubscribe (suc fuel) event_type id eb =
      let all : Option (EventBus H) = elim (lookup id eb.handlers) [
        | none ↦ some eb
        | some events ↦ each (λ k b. unsubscribe fuel k id b) (keys events) eb
      ] in
      if is_empty event_type then all else some (unsubscribe_one event_type id eb)

  abbrev handler_in : Text → Option (Map H) → Option H
  handler_in event_type none = none
  handler_in event_type (some events) = lookup event_type events

  -- The handler of a subscriber for an event type.
  unfoldable pub handler_of : EventBus H → Text → Text → Option H
  handler_of eb id event_type = handler_in event_type (lookup id eb.handlers)

  abbrev start_or_drop : Bool → Text → H → Published H → Published H
  start_or_drop true id h p = p
  start_or_drop false id h p = record p { started = (id, h) ∷ p.started }

  -- The loop over the snapshot; `saturated` says for which subscribers inFlight is at its limit.
  unfoldable pub deliver : (Text → Bool) → EventBus H → Text → List Text → Published H
  unfolding handler_of
  deliver saturated eb event_type [] = record { started = []; stale = [] }
  deliver saturated eb event_type (id ∷ rest) =
      let p = deliver saturated eb event_type rest in
      elim (handler_of eb id event_type) [
        | none ↦ record p { stale = id ∷ p.stale }
        | some h ↦ start_or_drop (saturated id) id h p
      ]

  unfoldable pub publish : (Text → Bool) → Text → EventBus H → Published H
  unfolding deliver
  publish saturated event_type eb =
      if is_empty event_type
      then record { started = []; stale = [] }
      else deliver saturated eb event_type (entry event_type eb.subscriptions)
