-- ===== src/EventBus/Unsubscribed.antt =====
-- Unsubscribe of roboserver/shared/event_bus/event_bus.go without an event type: when it returns,
-- and what is left then.
use mathlib.Core.Path.{sym, subst}
use robomesh.Prelude.{
  ℕ, zero, suc, true, false, none, some, List, [], ◌∷◌, ◌≡◌, refl, ◌⊎◌, inl, inr, Bool-cases,
  Option-cases, ◌&&◌, Text, text_eq, text_eq_iff, arith, if◌then◌else◌,
}
use robomesh.Prelude.Bytes.{is_empty}
use robomesh.Prelude.Assoc.{Map, lookup, keys, is_some}
use robomesh.DataStructures.Set.{mem}
use robomesh.EventBus.{EventBus, unsubscribe, unsubscribe_one, each, handler_of}
use robomesh.EventBus.View.{handler_of-unsubscribe_one}

pub mem-keys {ℓ} : {V : Type ℓ} (k : Text) (m : Map V) → mem k (keys m) ≡ is_some (lookup k m)
unfolding mem keys lookup
mem-keys k [] = refl
mem-keys k ((j, v) ∷ m) = ground (arith, mem-keys k m, text_eq_iff j k)

is_empty-nil : (k : Text) → is_empty k ≡ true → k ≡ []
is_empty-nil [] h = refl
is_empty-nil (x ∷ k) h = cc

module _ {H : Type 0} where
  abbrev removed : List Text → Text → EventBus H → EventBus H
  removed [] id eb = eb
  removed (k ∷ ks) id eb = removed ks id (unsubscribe_one k id eb)

  handler_of-removed :
      (ks : List Text) (id : Text) (eb : EventBus H) (j e : Text)
      → handler_of (removed ks id eb) j e
        ≡ (if text_eq id j && mem e ks then none else handler_of eb j e)
  unfolding mem
  handler_of-removed [] id eb j e = ground arith
  handler_of-removed (k ∷ ks) id eb j e = ground (
    arith,
    handler_of-removed ks id (unsubscribe_one k id eb) j e,
    handler_of-unsubscribe_one k id eb j e,
    text_eq_iff k e,
  )

  pub unsubscribe_named :
      (fuel : ℕ) (k id : Text) (eb : EventBus H)
      → is_empty k ≡ false
      → unsubscribe (suc fuel) k id eb ≡ some (unsubscribe_one k id eb)
  unfolding unsubscribe
  unsubscribe_named fuel k id eb h = rw h refl

  each-removed :
      (fuel : ℕ) (id : Text) (ks : List Text) (eb : EventBus H)
      → mem [] ks ≡ false
      → each (λ k b. unsubscribe (suc fuel) k id b) ks eb ≡ some (removed ks id eb)
  unfolding each mem
  each-removed fuel id [] eb h = refl
  each-removed fuel id (k ∷ ks) eb h =
      let rest = each-removed fuel id ks (unsubscribe_one k id eb) (ground arith) in
      rw (unsubscribe_named fuel k id eb (ground (arith, text_eq_iff k []))) rest

  -- The subscriber has no handler, and every other subscriber has the ones it had.
  abbrev pub Left : Text → EventBus H → EventBus H → Type 0
  Left id before after =
      (j e : Text) → handler_of after j e ≡ (if text_eq id j then none else handler_of before j e)

  abbrev pub LeavesWithin : ℕ → Text → EventBus H → Type 0
  LeavesWithin fuel id eb =
      (after : EventBus H) × (unsubscribe fuel [] id eb ≡ some after) × Left id eb after

  -- Unsubscribing a subscriber from all event types returns, if it has no handler for the empty event
  -- type: one level of calls is enough, it has no handler left then, and every other subscriber has
  -- the handlers that it had.
  pub unsubscribe-leaves :
      (fuel : ℕ) (id : Text) (eb : EventBus H)
      → handler_of eb id [] ≡ none
      → LeavesWithin (suc (suc fuel)) id eb
  unfolding unsubscribe handler_of
  unsubscribe-leaves fuel id eb h = elim (Option-cases (lookup id eb.handlers)) [
    | inl f ↦ (eb, rw f refl, λ j e. ground (arith, text_eq_iff id j))
    | inr (events, f) ↦
        let clean : mem [] (keys events) ≡ false = ground (arith, mem-keys [] events) in
        let loop = each-removed fuel id (keys events) eb clean in
        (
          removed (keys events) id eb,
          rw f loop,
          λ j e. ground (
            arith,
            handler_of-removed (keys events) id eb j e,
            mem-keys e events,
            text_eq_iff id j,
          ),
        )
  ]

  named_or_out_of_fuel :
      (fuel : ℕ) (k id : Text) (eb : EventBus H)
      → is_empty k ≡ false
      → (unsubscribe fuel k id eb ≡ none)
        ⊎ (unsubscribe fuel k id eb ≡ some (unsubscribe_one k id eb))
  unfolding unsubscribe
  named_or_out_of_fuel zero k id eb h = inl refl
  named_or_out_of_fuel (suc fuel) k id eb h = inr (unsubscribe_named fuel k id eb h)

  never_returns :
      (fuel : ℕ) (id : Text) (ks : List Text) (eb : EventBus H)
      → ((b : EventBus H) → is_some (handler_of b id []) ≡ true → unsubscribe fuel [] id b ≡ none)
      → mem [] ks ≡ true
      → is_some (handler_of eb id []) ≡ true
      → each (λ k b. unsubscribe fuel k id b) ks eb ≡ none
  unfolding each mem
  never_returns fuel id [] eb again h s = absurd (ground arith)
  never_returns fuel id (k ∷ ks) eb again h s = elim (Bool-cases (is_empty k)) [
    | inl e ↦
        let stuck : unsubscribe fuel k id eb ≡ none =
          subst (λ x. unsubscribe fuel x id eb ≡ none) (sym (is_empty-nil k e)) (again eb s) in
        rw stuck refl
    | inr e ↦ elim (named_or_out_of_fuel fuel k id eb e) [
      | inl stuck ↦ rw stuck refl
      | inr one ↦
          let after = unsubscribe_one k id eb in
          let listed : mem [] ks ≡ true = ground (arith, text_eq_iff k []) in
          let kept : is_some (handler_of after id []) ≡ true =
            ground (arith, handler_of-unsubscribe_one k id eb id [], text_eq_iff k []) in
          let rest = never_returns fuel id ks after again listed kept in rw one rest
    ]
  ]

  -- Unsubscribing a subscriber from all event types does not return, if it has a handler for the empty
  -- event type: no number of nested calls is enough.
  pub unsubscribe-never_returns :
      (fuel : ℕ) (id : Text) (eb : EventBus H)
      → is_some (handler_of eb id []) ≡ true
      → unsubscribe fuel [] id eb ≡ none
  unfolding unsubscribe handler_of
  unsubscribe-never_returns zero id eb s = refl
  unsubscribe-never_returns (suc fuel) id eb s = elim (Option-cases (lookup id eb.handlers)) [
    | inl f ↦ absurd (ground arith)
    | inr (events, f) ↦
        let stuck =
          never_returns fuel id (keys events) eb (λ b. unsubscribe-never_returns fuel id b)
            (ground (arith, mem-keys [] events)) s in
        rw f stuck
  ]
