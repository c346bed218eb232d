-- ===== src/Comms.antt =====
-- roboserver/comms/local.go, call by call: the events of the local bus, which the event bus carries,
-- and the groups of competing consumers. A handler is of any type and is returned where the code
-- calls it; what the bus passes on to Redis is in Database/Redis.antt. `nil` data is `none`.
pub mod RoundRobin
pub mod Membership
use robomesh.Prelude.{
  ℕ, ◌+◌, ◌^◌, ◌%◌, ◌==◌, Bool, Option, none, some, List, [], ◌∷◌, ◌++◌, Text, codes, length,
  get_elem?, if◌then◌else◌,
}
use robomesh.Prelude.Bytes.{is_empty}
use robomesh.Prelude.Assoc.{Map, lookup, insert}
use robomesh.EventBus.{EventBus, Published, subscribe, unsubscribe, publish}

pub record ConsumerGroupEntry (H : Type 0) : Type 0 where
  pub id : ℕ
  pub handler : H

pub record ConsumerGroup (H : Type 0) : Type 0 where
  pub handlers : List (ConsumerGroupEntry H)
  pub counter : ℕ
  pub next_id : ℕ

pub record LocalBus (H : Type 0) : Type 0 where
  pub eb : EventBus H
  pub groups : Map (ConsumerGroup H)

unfoldable pub group_key : Text → Text → Text
group_key group event_type = group ++ (codes "::" ++ event_type)

module _ {H : Type 0} where
  unfoldable pub new_local_bus : EventBus H → LocalBus H
  new_local_bus eb = record { eb = eb; groups = [] }

  -- PublishEvent, which is PublishData of the event bus.
  unfoldable pub publish_event {ℓ} :
      {D : Type ℓ} → (Text → Bool) → Text → Option D → LocalBus H → Published H
  unfolding publish
  publish_event saturated event_type none bus = record { started = []; stale = [] }
  publish_event saturated event_type (some event_data) bus =
      if is_empty event_type
      then record { started = []; stale = [] }
      else publish saturated event_type bus.eb

  -- SubscribeEvent makes a subscriber, `fresh`; the subscriber that it cancels for is this one.
  unfoldable pub subscribe_event : Text → Text → H → LocalBus H → LocalBus H
  unfolding subscribe
  subscribe_event fresh event_type handler bus = record bus {
    eb = (subscribe event_type (some fresh) fresh handler bus.eb).0;
  }

  -- `none` where Unsubscribe does not return.
  unfoldable pub cancel_event : Text → Text → LocalBus H → Option (LocalBus H)
  unfolding unsubscribe
  cancel_event fresh event_type bus = elim (unsubscribe 2 event_type fresh bus.eb) [
    | none ↦ none
    | some eb ↦ some (record bus { eb = eb })
  ]

  -- The entry that the next event of a group goes to. The counter has 64 bits.
  unfoldable pub pick : ConsumerGroup H → Option (ConsumerGroupEntry H) × ConsumerGroup H
  pick cg =
      let n = length cg.handlers in
      if n == 0 then (none, cg) else (
        get_elem? cg.handlers (cg.counter % n),
        record cg { counter = (cg.counter + 1) % 2 ^ 64 },
      )

  -- PublishToGroup: the entry whose handler is called, if any.
  unfoldable pub publish_to_group :
      Text → Text → LocalBus H → Option (ConsumerGroupEntry H) × LocalBus H
  unfolding group_key pick
  publish_to_group group event_type bus =
      let key = group_key group event_type in
      elim (lookup key bus.groups) [
        | none ↦ (none, bus)
        | some cg ↦
            let (entry, cg') = pick cg in (entry, record bus { groups = insert key cg' bus.groups })
      ]

  unfoldable pub join : H → ConsumerGroup H → ConsumerGroup H × ℕ
  join handler cg =
      let id = (cg.next_id + 1) % 2 ^ 64 in
      (
        record cg {
          next_id = id;
          handlers = cg.handlers ++ (record { id = id; handler = handler } ∷ []);
        },
        id,
      )

  -- The first entry with the id is taken out.
  unfoldable pub drop_entry : ℕ → List (ConsumerGroupEntry H) → List (ConsumerGroupEntry H)
  drop_entry id [] = []
  drop_entry id (e ∷ es) = let rest = drop_entry id es in if e.id == id then es else e ∷ rest

  unfoldable pub leave : ℕ → ConsumerGroup H → ConsumerGroup H
  unfolding drop_entry
  leave id cg = record cg { handlers = drop_entry id cg.handlers }

  abbrev pub group_at : Text → Map (ConsumerGroup H) → ConsumerGroup H
  group_at key groups = elim (lookup key groups) [
    | none ↦ record { handlers = []; counter = 0; next_id = 0 }
    | some cg ↦ cg
  ]

  -- SubscribeAsGroup: the bus, and the id that its cancel takes out.
  unfoldable pub subscribe_as_group : Text → Text → H → LocalBus H → LocalBus H × ℕ
  unfolding group_key join
  subscribe_as_group group event_type handler bus =
      let key = group_key group event_type in
      let (cg, id) = join handler (group_at key bus.groups) in
      (record bus { groups = insert key cg bus.groups }, id)

  -- What the cancel of SubscribeAsGroup does to the group that it was made with, which no call takes
  -- from the table.
  unfoldable pub cancel_group : Text → Text → ℕ → LocalBus H → LocalBus H
  unfolding group_key leave
  cancel_group group event_type id bus =
      let key = group_key group event_type in
      elim (lookup key bus.groups) [
        | none ↦ bus
        | some cg ↦ record bus { groups = insert key (leave id cg) bus.groups }
      ]
