-- ===== src/Comms/Membership.antt =====
-- roboserver/comms/local.go: the members of a group after any calls of SubscribeAsGroup, of its
-- cancel functions and of PublishToGroup, while fewer than 2^64 members have joined.
use mathlib.Core.Path.{subst}
use robomesh.Prelude.{
  ℕ, suc, ◌+◌, ◌^◌, ◌%◌, ◌<◌, ◌≤◌, ◌==◌, List, [], ◌∷◌, ◌++◌, ◌≡◌, refl, ◌≢◌, sym, ap, Bool-cases,
  inl, inr, length, arith, if◌then◌else◌, All,
}
use robomesh.Comms.{ConsumerGroupEntry, ConsumerGroup, pick, join, drop_entry, leave}

pub data GroupCall (H : Type 0) : Type 0 where
  joins : H → GroupCall H
  leaves : ℕ → GroupCall H
  picks : GroupCall H

module _ {H : Type 0} where
  unfoldable pub group_call : GroupCall H → ConsumerGroup H → ConsumerGroup H
  unfolding join leave pick
  group_call (joins h) g = (join h g).0
  group_call (leaves id) g = leave id g
  group_call picks g = (pick g).1

  -- The group after the calls, the last of them in front.
  unfoldable pub group_after : List (GroupCall H) → ConsumerGroup H
  unfolding group_call
  group_after [] = record { handlers = []; counter = 0; next_id = 0 }
  group_after (c ∷ cs) = group_call c (group_after cs)

  -- The entries that do not have the id.
  unfoldable pub others : ℕ → List (ConsumerGroupEntry H) → List (ConsumerGroupEntry H)
  others id [] = []
  others id (e ∷ es) = let rest = others id es in if e.id == id then rest else e ∷ rest

  abbrev Absent : ℕ → List (ConsumerGroupEntry H) → Type 0
  Absent id es = All (λ e. e.id ≢ id) es

  abbrev Once : List (ConsumerGroupEntry H) → Type 0
  Once [] = Unit {0}
  Once (e ∷ es) = Absent e.id es × Once es

  -- The ids are those that were given out, and each stands once.
  record Numbered (n : ℕ) (g : ConsumerGroup H) : Type 0 where
    given : All (λ e. e.id ≤ g.next_id) g.handlers
    once : Once g.handlers
    few : g.next_id ≤ n

  All-mono :
      {P Q : ConsumerGroupEntry H → Type 0} (f : (e : ConsumerGroupEntry H) → P e → Q e)
      (es : List (ConsumerGroupEntry H))
      → All P es
      → All Q es
  All-mono f [] a = tt
  All-mono f (e ∷ es) a = (f e a.0, All-mono f es a.1)

  All-snoc :
      (P : ConsumerGroupEntry H → Type 0) (es : List (ConsumerGroupEntry H))
      (e : ConsumerGroupEntry H)
      → All P es
      → P e
      → All P (es ++ (e ∷ []))
  All-snoc P [] e a p = (p, tt)
  All-snoc P (x ∷ es) e a p = (a.0, All-snoc P es e a.1 p)

  All-drop_entry :
      (P : ConsumerGroupEntry H → Type 0) (id : ℕ) (es : List (ConsumerGroupEntry H))
      → All P es
      → All P (drop_entry id es)
  unfolding drop_entry
  All-drop_entry P id [] a = tt
  All-drop_entry P id (e ∷ es) a = elim (Bool-cases (e.id == id)) [
    | inl h ↦ rw h a.1
    | inr h ↦
        let rest : P e × All P (drop_entry id es) = (a.0, All-drop_entry P id es a.1) in rw h rest
  ]

  drop_entry-Once : (id : ℕ) (es : List (ConsumerGroupEntry H)) → Once es → Once (drop_entry id es)
  unfolding drop_entry
  drop_entry-Once id [] o = tt
  drop_entry-Once id (e ∷ es) o = elim (Bool-cases (e.id == id)) [
    | inl h ↦ rw h o.1
    | inr h ↦
        let rest : Absent e.id (drop_entry id es) × Once (drop_entry id es) =
          (All-drop_entry (λ x. x.id ≢ e.id) id es o.0, drop_entry-Once id es o.1) in
        rw h rest
  ]

  snoc-Once :
      (es : List (ConsumerGroupEntry H)) (e : ConsumerGroupEntry H)
      → Once es
      → Absent e.id es
      → Once (es ++ (e ∷ []))
  snoc-Once [] e o a = (tt, tt)
  snoc-Once (x ∷ es) e o a =
      (All-snoc (λ y. y.id ≢ x.id) es e o.0 (λ h. a.0 (sym h)), snoc-Once es e o.1 a.1)

  others-Absent : (id : ℕ) (es : List (ConsumerGroupEntry H)) → Absent id es → others id es ≡ es
  unfolding others
  others-Absent id [] a = refl
  others-Absent id (e ∷ es) a = ground (arith, others-Absent id es a.1, a.0)

  drop_entry-others :
      (id : ℕ) (es : List (ConsumerGroupEntry H)) → Once es → drop_entry id es ≡ others id es
  unfolding drop_entry others
  drop_entry-others id [] o = refl
  drop_entry-others id (e ∷ es) o = elim (Bool-cases (e.id == id)) [
    | inl h ↦
        let same : e.id ≡ id = ground arith in
        let gone = sym (others-Absent id es (subst (λ i. Absent i es) same o.0)) in rw h gone
    | inr h ↦ let rest = ap (λ r. e ∷ r) (drop_entry-others id es o.1) in rw h rest
  ]

  others-snoc :
      (es : List (ConsumerGroupEntry H)) (e : ConsumerGroupEntry H)
      → Absent e.id es
      → others e.id (es ++ (e ∷ [])) ≡ es
  unfolding others
  others-snoc [] e a = ground arith
  others-snoc (x ∷ es) e a = ground (arith, others-snoc es e a.1, a.0)

  join-next :
      (n : ℕ) (h : H) (g : ConsumerGroup H)
      → suc n < 2 ^ 64
      → Numbered n g
      → (g.next_id + 1) % 2 ^ 64 ≡ suc g.next_id
  join-next n h g w g_ok = let few = g_ok.few in omega arith

  unused : (n : ℕ) (g : ConsumerGroup H) → Numbered n g → Absent (suc g.next_id) g.handlers
  unused n g ok = All-mono (λ e below same. omega arith) g.handlers ok.given

  join-Numbered :
      (n : ℕ) (h : H) (g : ConsumerGroup H)
      → suc n < 2 ^ 64
      → Numbered n g
      → Numbered (suc n) (join h g).0
  unfolding join
  join-Numbered n h g w ok =
      let next = join-next n h g w ok in
      let few = ok.few in
      let entry : ConsumerGroupEntry H = record { id = suc g.next_id; handler = h } in
      rw next record {
        given =
            All-snoc (λ e. e.id ≤ suc g.next_id) g.handlers entry
              (All-mono (λ e below. omega arith) g.handlers ok.given) (omega arith);
        once = snoc-Once g.handlers entry ok.once (unused n g ok);
        few = omega arith;
      }

  leave-Numbered : (n id : ℕ) (g : ConsumerGroup H) → Numbered n g → Numbered (suc n) (leave id g)
  unfolding leave
  leave-Numbered n id g ok =
      let few = ok.few in
      record {
        given = All-drop_entry (λ e. e.id ≤ g.next_id) id g.handlers ok.given;
        once = drop_entry-Once id g.handlers ok.once;
        few = omega arith;
      }

  pick-Numbered : (n : ℕ) (g : ConsumerGroup H) → Numbered n g → Numbered (suc n) (pick g).1
  unfolding pick
  pick-Numbered n g ok =
      let few = ok.few in
      elim (Bool-cases (length g.handlers == 0)) [
        | inl e ↦ rw e record { given = ok.given; once = ok.once; few = omega arith }
        | inr e ↦ rw e record { given = ok.given; once = ok.once; few = omega arith }
      ]

  group_after-Numbered :
      (cs : List (GroupCall H)) → length cs < 2 ^ 64 → Numbered (length cs) (group_after cs)
  unfolding group_after
  group_after-Numbered [] h = record { given = tt; once = tt; few = omega arith }
  group_after-Numbered (joins handler ∷ cs) h =
      join-Numbered (length cs) handler (group_after cs) h (group_after-Numbered cs (omega arith))
  group_after-Numbered (leaves id ∷ cs) h =
      leave-Numbered (length cs) id (group_after cs) (group_after-Numbered cs (omega arith))
  group_after-Numbered (picks ∷ cs) h =
      pick-Numbered (length cs) (group_after cs) (group_after-Numbered cs (omega arith))

  -- A cancel takes out exactly the entry with its id.
  leave-others :
      (cs : List (GroupCall H)) (id : ℕ)
      → length cs < 2 ^ 64
      → (leave id (group_after cs)).handlers ≡ others id (group_after cs).handlers
  unfolding leave
  leave-others cs id h =
      drop_entry-others id (group_after cs).handlers (group_after-Numbered cs h).once

  -- After any calls fewer than 2^64, the id that a new member gets is of no other member: the members
  -- without that id are those from before the member joined, and its cancel leaves exactly them.
  pub cancel-join :
      (cs : List (GroupCall H)) (handler : H)
      → suc (length cs) < 2 ^ 64
      → let (g, id) = join handler (group_after cs) in
        ((leave id g).handlers ≡ others id g.handlers)
        × (others id g.handlers ≡ (group_after cs).handlers)
  unfolding join group_after
  cancel-join cs handler h =
      let g = group_after cs in
      let ok = group_after-Numbered cs (omega arith) in
      let next = join-next (length cs) handler g h ok in
      let entry : ConsumerGroupEntry H = record { id = suc g.next_id; handler = handler } in
      let left = leave-others (joins handler ∷ cs) ((g.next_id + 1) % 2 ^ 64) h in
      let old = others-snoc g.handlers entry (unused (length cs) g ok) in (left, rw next old)
