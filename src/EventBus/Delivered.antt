-- ===== src/EventBus/Delivered.antt =====
-- roboserver/shared/event_bus/event_bus.go: what Publish starts after any calls, against what the
-- calls alone say, and that a bus that was never subscribed to with an empty event type returns.
use mathlib.Core.Path.{ap, sym, ◌∙◌}
use robomesh.Prelude.{
  Bool, true, false, not, Option, none, some, List, [], ◌∷◌, ◌≡◌, refl, inl, inr, Bool-cases,
  Option-cases, ◌&&◌, Text, text_eq_iff, text_eq_refl, arith, if◌then◌else◌,
}
use robomesh.Prelude.Bytes.{is_empty}
use robomesh.Prelude.Assoc.{lookup, keys, is_some}
use robomesh.DataStructures.Set.{mem, Distinct}
use robomesh.EventBus.{
  EventBus, Published, entry, new_event_bus, chosen, subscribe, subscribe_as, unsubscribe_one,
  publish, deliver, handler_of,
}
use robomesh.EventBus.View.{handler_of-subscribe_as, handler_of-unsubscribe_one}
use robomesh.EventBus.Called.{
  Call, subscribes, unsubscribes, call, calls, now, last_handler, Agrees, subscribe_as-Agrees,
  unsubscribe-Agrees,
}
use robomesh.EventBus.Unsubscribed.{mem-keys, unsubscribe-leaves, unsubscribe_named}

module _ {H : Type 0} where
  -- Each subscriber whose handler the event type has, and that is not held back, is started once
  -- with that handler, and none is found to be stale.
  pub record Delivered (saturated : Text → Bool) (handler : Text → Option H) (p : Published H)
      : Type 0 where
    pub started : (id : Text) → lookup id p.started ≡ (if saturated id then none else handler id)
    pub once : Distinct (keys p.started)
    pub no_stale : p.stale ≡ []

  deliver-started :
      (saturated : Text → Bool) (eb : EventBus H) (e : Text) (ids : List Text) (j : Text)
      → lookup j (deliver saturated eb e ids).started
        ≡ (if mem j ids && not (saturated j) then handler_of eb j e else none)
  unfolding deliver mem lookup
  deliver-started saturated eb e [] j = refl
  deliver-started saturated eb e (id ∷ ids) j = elim (Option-cases (handler_of eb id e)) [
    | inl f ↦ ground (arith, deliver-started saturated eb e ids j, text_eq_iff id j)
    | inr (h, f) ↦ elim (Bool-cases (saturated id)) [
      | inl s ↦ ground (arith, deliver-started saturated eb e ids j, text_eq_iff id j)
      | inr s ↦ ground (arith, deliver-started saturated eb e ids j, text_eq_iff id j)
    ]
  ]

  deliver-once :
      (saturated : Text → Bool) (eb : EventBus H) (e : Text) (ids : List Text)
      → Distinct ids
      → Distinct (keys (deliver saturated eb e ids).started)
  unfolding deliver keys
  deliver-once saturated eb e [] d = tt
  deliver-once saturated eb e (id ∷ ids) d =
      let rest = deliver-once saturated eb e ids d.1 in
      let p = (deliver saturated eb e ids).started in
      ground (arith, rest, mem-keys id p, deliver-started saturated eb e ids id)

  deliver-no_stale :
      (saturated : Text → Bool) (eb : EventBus H) (e : Text) (ids : List Text)
      → ((id : Text) → mem id ids ≡ true → is_some (handler_of eb id e) ≡ true)
      → (deliver saturated eb e ids).stale ≡ []
  unfolding deliver mem
  deliver-no_stale saturated eb e [] all = refl
  deliver-no_stale saturated eb e (id ∷ ids) all =
      let rest = deliver-no_stale saturated eb e ids (λ j m. all j (ground (arith, m))) in
      ground (arith, rest, all id (ground (arith, text_eq_refl id)))

  deliver-Delivered :
      (saturated : Text → Bool) (eb : EventBus H) (e : Text)
      → Agrees eb
      → Delivered saturated
          (λ id. handler_of eb id e)
          (deliver saturated eb e (entry e eb.subscriptions))
  deliver-Delivered saturated eb e a =
      let ids = entry e eb.subscriptions in
      record {
        started = λ id. ground (arith, deliver-started saturated eb e ids id, a.listed id e);
        once = deliver-once saturated eb e ids (a.distinct e);
        no_stale = deliver-no_stale saturated eb e ids (λ id m. sym (a.listed id e) ∙ m);
      }

  abbrev named : Call H → Bool
  named (subscribes k s fresh h) = not (is_empty k)
  named (unsubscribes k id) = true

  -- No call subscribes to the empty event type.
  abbrev pub all_named : List (Call H) → Bool
  all_named [] = true
  all_named (c ∷ cs) = named c && all_named cs

  abbrev Nameless : EventBus H → Type 0
  Nameless eb = (id : Text) → handler_of eb id [] ≡ none

  -- One call that is made of a bus with no handler for the empty event type.
  record Step (c : Call H) (eb : EventBus H) : Type 0 where
    after : EventBus H
    returns : call c eb ≡ some after
    agrees : Agrees after
    handler : (id e : Text) → handler_of after id e ≡ now c id e (handler_of eb id e)

  call-Step : (c : Call H) (eb : EventBus H) → Agrees eb → Nameless eb → Step c eb
  unfolding call subscribe now
  call-Step (subscribes k s fresh h) eb a n =
      let id = chosen k s fresh in
      record {
        after = subscribe_as k id h eb;
        returns = refl;
        agrees = subscribe_as-Agrees k id h eb a;
        handler = λ j e. handler_of-subscribe_as k id h eb j e;
      }
  call-Step (unsubscribes [] id) eb a n =
      let (after, returns, left) = unsubscribe-leaves 0 id eb (n id) in
      record {
        after = after;
        returns = returns;
        agrees = unsubscribe-Agrees id 2 [] eb returns a;
        handler = λ j e. ground (arith, left j e);
      }
  call-Step (unsubscribes (x ∷ k) id) eb a n =
      let returns = unsubscribe_named 1 (x ∷ k) id eb refl in
      record {
        after = unsubscribe_one (x ∷ k) id eb;
        returns = returns;
        agrees = unsubscribe-Agrees id 2 (x ∷ k) eb returns a;
        handler = λ j e. handler_of-unsubscribe_one (x ∷ k) id eb j e;
      }

  now-nameless : (c : Call H) (id : Text) → named c ≡ true → now c id [] none ≡ none
  unfolding now
  now-nameless (subscribes k s fresh h) id n = ground (arith, text_eq_iff k [])
  now-nameless (unsubscribes k id') id n = ground arith

  Step-Nameless :
      {c : Call H} {eb : EventBus H} (s : Step c eb)
      → named c ≡ true
      → Nameless eb
      → Nameless s.after
  Step-Nameless {c = c} s h n id =
      let handler = s.handler id [] in handler ∙ ap (now c id []) (n id) ∙ now-nameless c id h

  -- The tables after a sequence of calls that returns.
  record Run (cs : List (Call H)) (eb : EventBus H) : Type 0 where
    after : EventBus H
    returns : calls cs eb ≡ some after
    agrees : Agrees after
    handler : (id e : Text) → handler_of after id e ≡ last_handler cs id e (handler_of eb id e)

  calls-Run :
      (cs : List (Call H)) (eb : EventBus H)
      → Agrees eb
      → Nameless eb
      → all_named cs ≡ true
      → Run cs eb
  unfolding calls last_handler
  calls-Run [] eb a n h = record { after = eb; returns = refl; agrees = a; handler = λ id e. refl }
  calls-Run (c ∷ cs) eb a n h =
      let s = call-Step c eb a n in
      let rest = calls-Run cs s.after s.agrees (Step-Nameless s (ground arith) n) (ground arith) in
      record {
        after = rest.after;
        returns = let returns = rest.returns in rw s.returns returns;
        agrees = rest.agrees;
        handler = λ id e. let handler = rest.handler id e in rw (← s.handler id e) handler;
      }

  new_event_bus-Agrees : Agrees {H = H} new_event_bus
  unfolding new_event_bus handler_of lookup mem
  new_event_bus-Agrees = record { distinct = λ e. tt; listed = λ id e. refl }

  -- After any calls from a new bus, none of which subscribes to the empty event type, the calls have
  -- returned, and publishing an event of a type that is not empty starts the handler that the calls
  -- leave each subscriber with, once for each subscriber that has one and is not held back by the
  -- limit on running handlers, and finds no subscriber without a handler.
  pub publish-Delivered :
      (cs : List (Call H)) (saturated : Text → Bool) (e : Text)
      → all_named cs ≡ true
      → is_empty e ≡ false
      → (eb : EventBus H) × (calls cs new_event_bus ≡ some eb)
        × Delivered saturated (λ id. last_handler cs id e none) (publish saturated e eb)
  unfolding publish handler_of lookup new_event_bus
  publish-Delivered cs saturated e h n =
      let r = calls-Run cs new_event_bus new_event_bus-Agrees (λ id. refl) h in
      let returns = r.returns in
      let d = deliver-Delivered saturated r.after e r.agrees in
      let handler : (id : Text) → handler_of r.after id e ≡ last_handler cs id e none =
        λ id. r.handler id e in
      (
        r.after,
        returns,
        rw n record {
          started = λ id. ground (arith, d.started id, handler id);
          once = d.once;
          no_stale = d.no_stale;
        },
      )
