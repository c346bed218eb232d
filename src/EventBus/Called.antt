-- ===== src/EventBus/Called.antt =====
-- Sequences of calls of roboserver/shared/event_bus/event_bus.go from NewEventBus on, and the two
-- tables of the bus after them. Unsubscribe gets fuel 2, for the call and the calls that it makes.
use robomesh.Prelude.{
  ℕ, zero, suc, Option, none, some, List, [], ◌∷◌, ◌≡◌, inl, inr, Bool-cases, ◌&&◌, ◌||◌, Text,
  text_eq, and_then, and_then-some, some_inj, none≢some, Option-cases, arith, if◌then◌else◌,
}
use mathlib.Core.Path.{subst}
use robomesh.Prelude.Bytes.{is_empty}
use robomesh.Prelude.Assoc.{lookup, keys, is_some}
use robomesh.DataStructures.Set.{mem, Distinct, mem-remove, remove-Distinct}
use robomesh.EventBus.{
  EventBus, entry, chosen, subscribe, subscribe_as, unsubscribe, unsubscribe_one, each, handler_of,
}
use robomesh.EventBus.View.{
  handler_of-subscribe_as, handler_of-unsubscribe_one, mem-subscribe_as, subscribe_as-Distinct,
  entry-unsubscribe_one,
}

pub data Call (H : Type 0) : Type 0 where
  subscribes : Text → Option Text → Text → H → Call H
  unsubscribes : Text → Text → Call H

module _ {H : Type 0} where
  unfoldable pub call : Call H → EventBus H → Option (EventBus H)
  unfolding subscribe unsubscribe
  call (subscribes event_type subscriber fresh handler) eb =
      some (subscribe event_type subscriber fresh handler eb).0
  call (unsubscribes event_type id) eb = unsubscribe 2 event_type id eb

  unfoldable pub calls : List (Call H) → EventBus H → Option (EventBus H)
  unfolding call
  calls [] eb = some eb
  calls (c ∷ cs) eb = and_then (call c eb) λ eb'. calls cs eb'

  -- The handler of a subscriber for an event type as one call after the other leaves it.
  unfoldable pub now : Call H → Text → Text → Option H → Option H
  unfolding chosen
  now (subscribes k s fresh h) id e before =
      if text_eq (chosen k s fresh) id && text_eq k e then some h else before
  now (unsubscribes k id') id e before =
      if text_eq id' id && (is_empty k || text_eq k e) then none else before

  unfoldable pub last_handler : List (Call H) → Text → Text → Option H → Option H
  unfolding now
  last_handler [] id e before = before
  last_handler (c ∷ cs) id e before = last_handler cs id e (now c id e before)

  -- The sets have no duplicates, and hold exactly the subscribers that have a handler.
  pub record Agrees (eb : EventBus H) : Type 0 where
    pub distinct : (e : Text) → Distinct (entry e eb.subscriptions)
    pub listed : (id e : Text) → mem id (entry e eb.subscriptions) ≡ is_some (handler_of eb id e)

  pub subscribe_as-Agrees :
      (k id : Text) (h : H) (eb : EventBus H) → Agrees eb → Agrees (subscribe_as k id h eb)
  subscribe_as-Agrees k id h eb a = record {
    distinct = λ e. subscribe_as-Distinct k id h eb e (a.distinct e) (a.distinct k);
    listed = λ j e. ground (
      arith,
      mem-subscribe_as k id h eb j e,
      handler_of-subscribe_as k id h eb j e,
      a.listed j e,
    );
  }

  pub unsubscribe_one-Agrees :
      (k id : Text) (eb : EventBus H) → Agrees eb → Agrees (unsubscribe_one k id eb)
  unsubscribe_one-Agrees k id eb a = record {
    distinct = λ e. ground (
      arith,
      entry-unsubscribe_one k id eb e,
      a.distinct e,
      remove-Distinct id (entry e eb.subscriptions) (a.distinct e),
    );
    listed = λ j e. ground (
      arith,
      entry-unsubscribe_one k id eb e,
      mem-remove id j (entry e eb.subscriptions),
      handler_of-unsubscribe_one k id eb j e,
      a.listed j e,
    );
  }

  -- What every removal of one handler of the subscriber keeps, the calls of a loop keep.
  module _ (P : EventBus H → Type 0) where
    pub each-keeps :
        (f : Text → EventBus H → Option (EventBus H))
        → ((k : Text) (eb eb' : EventBus H) → f k eb ≡ some eb' → P eb → P eb')
        → (ks : List Text) (eb : EventBus H) {eb' : EventBus H} → each f ks eb ≡ some eb'
        → P eb
        → P eb'
    unfolding each
    each-keeps f keep [] eb h p = subst P (some_inj h) p
    each-keeps f keep (k ∷ ks) eb h p =
        let (b, e, rest) = and_then-some (f k eb) (λ eb'. each f ks eb') h in
        each-keeps f keep ks b rest (keep k eb b e p)

    pub unsubscribe-keeps :
        (id : Text)
        → ((k : Text) (eb : EventBus H) → P eb → P (unsubscribe_one k id eb))
        → (fuel : ℕ) (k : Text) (eb : EventBus H) {eb' : EventBus H}
        → unsubscribe fuel k id eb ≡ some eb'
        → P eb
        → P eb'
    unfolding unsubscribe
    unsubscribe-keeps id keep zero k eb h p = absurd (none≢some h)
    unsubscribe-keeps id keep (suc fuel) k eb {eb' = eb'} h p = elim (Bool-cases (is_empty k)) [
      | inl e ↦ elim (Option-cases (lookup id eb.handlers)) [
        | inl f ↦ let same : some eb ≡ some eb' = rw (e, f) at h in subst P (some_inj same) p
        | inr (events, f) ↦
            let loop : each (λ k b. unsubscribe fuel k id b) (keys events) eb ≡ some eb' =
              rw (e, f) at h in
            each-keeps (λ k b. unsubscribe fuel k id b)
              (λ k b b' r q. unsubscribe-keeps id keep fuel k b r q) (keys events) eb loop p
      ]
      | inr e ↦
          let one : some (unsubscribe_one k id eb) ≡ some eb' = rw e at h in
          subst P (some_inj one) (keep k eb p)
    ]

  pub unsubscribe-Agrees :
      (id : Text) (fuel : ℕ) (k : Text) (eb : EventBus H) {eb' : EventBus H}
      → unsubscribe fuel k id eb ≡ some eb'
      → Agrees eb
      → Agrees eb'
  unsubscribe-Agrees id = unsubscribe-keeps Agrees id (λ k eb. unsubscribe_one-Agrees k id eb)
