-- ===== src/EventBus/View.antt =====
-- roboserver/shared/event_bus/event_bus.go: what each call does to the handlers and to the sets.
use robomesh.Prelude.{
  true, none, some, List, [], ◌∷◌, ◌≡◌, Option-cases, inl, inr, ◌&&◌, Text, text_eq, text_eq_iff,
  arith, if◌then◌else◌,
}
use robomesh.Prelude.Assoc.{Map, lookup, insert, delete, lookup-insert, lookup-delete}
use robomesh.DataStructures.Set.{mem, add, remove, Distinct, mem-add, add-Distinct}
use robomesh.EventBus.{
  EventBus, entry, put_or_delete, subscribe_as, unsubscribe_one, handler_in, handler_of,
}

module _ {ℓ} {A : Type ℓ} where
  pub entry-insert :
      (k j : Text) (v : List A) (m : Map (List A))
      → entry j (insert k v m) ≡ (if text_eq k j then v else entry j m)
  entry-insert k j v m = ground (arith, lookup-insert k j v m)

  pub entry-put :
      (k j : Text) (v : List A) (m : Map (List A))
      → entry j (put_or_delete k v m) ≡ (if text_eq k j then v else entry j m)
  entry-put k j [] m = ground (arith, lookup-delete k j m)
  entry-put k j (x ∷ xs) m = ground (arith, lookup-insert k j (x ∷ xs) m)

pub handler_in-entry :
    {H : Type 0} (e : Text) (id : Text) (m : Map (Map H))
    → handler_in e (lookup id m) ≡ lookup e (entry id m)
unfolding lookup
handler_in-entry e id m = ground arith

module _ {H : Type 0} where
  pub handler_of-subscribe_as :
      (k id : Text) (h : H) (eb : EventBus H) (j e : Text)
      → handler_of (subscribe_as k id h eb) j e
        ≡ (if text_eq id j && text_eq k e then some h else handler_of eb j e)
  unfolding handler_of subscribe_as
  handler_of-subscribe_as k id h eb j e = ground (
    arith,
    handler_in-entry e j eb.handlers,
    lookup-insert id j (insert k h (entry id eb.handlers)) eb.handlers,
    lookup-insert k e h (entry id eb.handlers),
    text_eq_iff id j,
    text_eq_iff k e,
  )

  pub handler_of-unsubscribe_one :
      (k id : Text) (eb : EventBus H) (j e : Text)
      → handler_of (unsubscribe_one k id eb) j e
        ≡ (if text_eq id j && text_eq k e then none else handler_of eb j e)
  unfolding handler_of unsubscribe_one lookup
  handler_of-unsubscribe_one k id eb j e = elim (Option-cases (lookup id eb.handlers)) [
    | inl f ↦ ground (arith, handler_in-entry e j eb.handlers, text_eq_iff id j, text_eq_iff k e)
    | inr (m, f) ↦ ground (
      arith,
      handler_in-entry e j eb.handlers,
      handler_in-entry e j (put_or_delete id (delete k m) eb.handlers),
      entry-put id j (delete k m) eb.handlers,
      lookup-delete k e m,
      f,
      text_eq_iff id j,
      text_eq_iff k e,
    )
  ]

  pub mem-subscribe_as :
      (k id : Text) (h : H) (eb : EventBus H) (j e : Text)
      → mem j (entry e (subscribe_as k id h eb).subscriptions)
        ≡ (if text_eq id j && text_eq k e then true else mem j (entry e eb.subscriptions))
  unfolding subscribe_as
  mem-subscribe_as k id h eb j e =
      let ks = entry k eb.subscriptions in
      ground (
        arith,
        entry-insert k e (add id ks) eb.subscriptions,
        mem-add id j ks,
        text_eq_iff id j,
        text_eq_iff k e,
      )

  pub subscribe_as-Distinct :
      (k id : Text) (h : H) (eb : EventBus H) (e : Text)
      → Distinct (entry e eb.subscriptions)
      → Distinct (entry k eb.subscriptions)
      → Distinct (entry e (subscribe_as k id h eb).subscriptions)
  unfolding subscribe_as
  subscribe_as-Distinct k id h eb e d d2 =
      let ks = entry k eb.subscriptions in
      ground (arith, entry-insert k e (add id ks) eb.subscriptions, add-Distinct id ks d2)

  -- The sets once one subscriber is gone from the set of an event type.
  pub entry-unsubscribe_one :
      (k id : Text) (eb : EventBus H) (e : Text)
      → entry e (unsubscribe_one k id eb).subscriptions
        ≡ (if text_eq k e then remove id (entry e eb.subscriptions) else entry e eb.subscriptions)
  unfolding unsubscribe_one lookup remove
  entry-unsubscribe_one k id eb e = elim (Option-cases (lookup k eb.subscriptions)) [
    | inl f ↦ ground (arith, text_eq_iff k e)
    | inr (s, f) ↦ ground (arith, entry-put k e (remove id s) eb.subscriptions, f, text_eq_iff k e)
  ]
