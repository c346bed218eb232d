-- ===== src/Comms/RoundRobin.antt =====
-- roboserver/comms/local.go: in which order PublishToGroup goes through the members of a group.
use native.Mathlib.Nat.{mod-add-mod, mod-eq_of_lt, add-mod_left, mod-lt}
use robomesh.Prelude.{
  ℕ, zero, suc, ◌+◌, ◌-◌, ◌^◌, ◌%◌, ◌<◌, ◌≤◌, Option, some, List, [], ◌∷◌, ◌≡◌, refl, sym, ap, ◌∙◌,
  Text, text_eq_refl, leb, Bool-cases, inl, inr, length, get_elem?, arith,
}
use robomesh.Prelude.Assoc.{lookup, insert, lookup-insert}
use robomesh.Comms.{ConsumerGroupEntry, ConsumerGroup, LocalBus, group_key, pick, publish_to_group}

-- Any n successive numbers have every remainder.
remainder : (c n i : ℕ) → i < n → (j : ℕ) × (j < n) × ((c + j) % n ≡ i)
remainder c n i h =
    let r = c % n in
    let below : r < n = mod-lt c (omega arith) in
    elim (Bool-cases (leb r i)) [
      | inl e ↦
          let at : r + (i - r) ≡ i = ground arith in
          (i - r, ground arith, sym (mod-add-mod c n (i - r)) ∙ ap (λ x. x % n) at ∙ mod-eq_of_lt h)
      | inr e ↦
          let at : r + (n + i - r) ≡ n + i = ground arith in
          (
            n + i - r,
            ground arith,
            sym (mod-add-mod c n (n + i - r))
                ∙ ap (λ x. x % n) at
                ∙ add-mod_left n i
                ∙ mod-eq_of_lt h,
          )
    ]

module _ {H : Type 0} where
  -- The entries that events of one type, published to one group one after the other, go to.
  unfoldable pub published : ℕ → Text → Text → LocalBus H → List (Option (ConsumerGroupEntry H))
  unfolding publish_to_group
  published zero group event_type bus = []
  published (suc k) group event_type bus =
      let (entry, bus') = publish_to_group group event_type bus in
      entry ∷ published k group event_type bus'

  pick-member :
      (cg : ConsumerGroup H)
      → 0 < length cg.handlers
      → pick cg ≡ (
        get_elem? cg.handlers (cg.counter % length cg.handlers),
        record cg { counter = (cg.counter + 1) % 2 ^ 64 },
      )
  unfolding pick
  pick-member cg h = ground arith

  publish_to_group-member :
      (group event_type : Text) (bus : LocalBus H) (cg : ConsumerGroup H)
      → lookup (group_key group event_type) bus.groups ≡ some cg
      → 0 < length cg.handlers
      → publish_to_group group event_type bus ≡ (
        get_elem? cg.handlers (cg.counter % length cg.handlers),
        record bus {
          groups =
              insert
                (group_key group event_type)
                (record cg { counter = (cg.counter + 1) % 2 ^ 64 })
                bus.groups;
        },
      )
  unfolding publish_to_group
  publish_to_group-member group event_type bus cg f h =
      rw (publish_to_group, f, pick-member cg h) refl

  found :
      (key : Text) (cg : ConsumerGroup H) (bus : LocalBus H)
      → lookup key (insert key cg bus.groups) ≡ some cg
  found key cg bus = ground (arith, lookup-insert key key cg bus.groups, text_eq_refl key)

  nth-published :
      (k j : ℕ) (group event_type : Text) (bus : LocalBus H) (cg : ConsumerGroup H)
      → lookup (group_key group event_type) bus.groups ≡ some cg
      → cg.counter + k ≤ 2 ^ 64
      → j < k
      → 0 < length cg.handlers
      → get_elem? (published k group event_type bus) j
        ≡ some (get_elem? cg.handlers ((cg.counter + j) % length cg.handlers))
  unfolding published
  nth-published zero j group event_type bus cg f w h n = absurd (omega arith)
  nth-published (suc k) zero group event_type bus cg f w h n =
      let count : cg.counter ≡ cg.counter + 0 = omega arith in
      let here = ap (λ x. some (get_elem? cg.handlers (x % length cg.handlers))) count in
      rw (publish_to_group-member group event_type bus cg f n) here
  nth-published (suc k) (suc j) group event_type bus cg f w h n =
      let key = group_key group event_type in
      let next : ConsumerGroup H = record cg { counter = (cg.counter + 1) % 2 ^ 64 } in
      let no_wrap : (cg.counter + 1) % 2 ^ 64 ≡ cg.counter + 1 = mod-eq_of_lt (omega arith) in
      let rest =
        nth-published k j group event_type (record bus { groups = insert key next bus.groups }) next
          (found key next bus) (omega (arith, no_wrap)) (omega arith) n in
      let count : next.counter + j ≡ cg.counter + suc j = omega (arith, no_wrap) in
      let later = rest ∙ ap (λ x. some (get_elem? cg.handlers (x % length cg.handlers))) count in
      rw (publish_to_group-member group event_type bus cg f n) later

  -- In a group of n members whose counter does not wrap around over the next n events (it is at most
  -- 2 ^ 64 - n), each member is given one of these n events.
  pub published-each_member :
      (group event_type : Text) (bus : LocalBus H) (cg : ConsumerGroup H) (i : ℕ)
      → lookup (group_key group event_type) bus.groups ≡ some cg
      → cg.counter + length cg.handlers ≤ 2 ^ 64
      → i < length cg.handlers
      → (j : ℕ) × (j < length cg.handlers)
        × (get_elem? (published (length cg.handlers) group event_type bus) j
            ≡ some (get_elem? cg.handlers i))
  published-each_member group event_type bus cg i f w h =
      let n = length cg.handlers in
      let (j, below, turn) = remainder cg.counter n i h in
      (
        j,
        below,
        nth-published n j group event_type bus cg f w below (omega arith)
            ∙ ap (λ x. some (get_elem? cg.handlers x)) turn,
      )
