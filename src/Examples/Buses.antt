-- ===== src/Examples/Buses.antt =====
-- The theorems of EventBus and Comms on small buses, whose handlers are numbers.
use robomesh.Prelude.{
  ℕ, suc, ◌<◌, true, false, Option, none, some, List, [], ◌∷◌, ◌≡◌, refl, Text, codes, get_elem?,
  arith,
}
use robomesh.Prelude.Assoc.{insert, lookup}
use robomesh.EventBus.{EventBus, new_event_bus, subscribe_as, unsubscribe, publish, handler_of}
use robomesh.EventBus.Called.{Call, subscribes, unsubscribes, calls, last_handler}
use robomesh.EventBus.Delivered.{Delivered, publish-Delivered}
use robomesh.EventBus.Unsubscribed.{LeavesWithin, unsubscribe-leaves, unsubscribe-never_returns}
use robomesh.Comms.{ConsumerGroup, LocalBus, group_key, join}
use robomesh.Comms.RoundRobin.{published, published-each_member}
use robomesh.Comms.Membership.{joins, picks, group_after}

-- Two subscribers, one of which leaves.
abbrev history : List (Call ℕ)
history =
    subscribes (codes "robot.arm") none (codes "1") 10
    ∷ (subscribes (codes "robot.arm") none (codes "2") 20
        ∷ (unsubscribes (codes "robot.arm") (codes "1") ∷ []))

publish-Delivered_example :
    (eb : EventBus ℕ) × (calls history new_event_bus ≡ some eb)
    × Delivered
        (λ id. false)
        (λ id. last_handler history id (codes "robot.arm") none)
        (publish (λ id. false) (codes "robot.arm") eb)
publish-Delivered_example = publish-Delivered history (λ id. false) (codes "robot.arm") refl refl

abbrev one : Text → EventBus ℕ
one event_type = subscribe_as event_type (codes "1") 10 new_event_bus

unsubscribe-leaves_example : LeavesWithin 2 (codes "1") (one (codes "robot.arm"))
unfolding handler_of lookup subscribe_as insert robomesh.Prelude.Bytes.text_eq new_event_bus
unsubscribe-leaves_example = unsubscribe-leaves 0 (codes "1") (one (codes "robot.arm")) refl

unsubscribe-never_returns_example : unsubscribe 100 [] (codes "1") (one []) ≡ none
unfolding handler_of lookup subscribe_as insert robomesh.Prelude.Bytes.text_eq
unsubscribe-never_returns_example = unsubscribe-never_returns 100 (codes "1") (one []) refl

abbrev pair : ConsumerGroup ℕ
pair = record {
  handlers = record { id = 1; handler = 10 } ∷ (record { id = 2; handler = 20 } ∷ []);
  counter = 5;
  next_id = 2;
}

abbrev bus : LocalBus ℕ
bus = record {
  eb = new_event_bus;
  groups = insert (group_key (codes "workers") (codes "job")) pair [];
}

published-each_member_example :
    (j : ℕ) × (j < 2)
    × (get_elem? (published 2 (codes "workers") (codes "job") bus) j
        ≡ some (some (record { id = 1; handler = 10 })))
unfolding lookup insert robomesh.Prelude.Bytes.text_eq group_key
published-each_member_example =
    published-each_member (codes "workers") (codes "job") bus pair 0 refl (omega arith)
      (omega arith)

abbrev newcomer : ConsumerGroup ℕ × ℕ
newcomer = join 30 (group_after (picks ∷ (joins 10 ∷ [])))
