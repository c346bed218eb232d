-- ===== src/Terminal/Balanced.antt =====
-- roboserver/terminal: the subscriptions of a terminal connection over its whole life.
use robomesh.Prelude.{
  ℕ, ◌+◌, ◌==◌, Bool, true, false, Option, none, some, List, [], ◌∷◌, ◌++◌, ◌≡◌, refl, inl, inr,
  Option-cases, Text, text_eq_iff, text_eq_refl, if◌then◌else◌, arith,
}
use robomesh.Prelude.Assoc.{Map, lookup, insert, delete, lookup-delete}
use robomesh.Prelude.Bytes.{fields}
use robomesh.Auth.Handshake.{AuthEnv}
use robomesh.Terminal.Commands.{Moment, Command, subscribe, unsubscribe, command_of}
use robomesh.Terminal.{
  Call, subscribed, cancelled, Session, perform, cancel_existing, subscribe_command,
  unsubscribe_command, cancel_all, end_session, dispatch, execute_command, run_line, report, ends,
  terminal_loop, terminal_connection,
}

-- How often a subscription was made, how often it was cancelled, and how often it is held.
unfoldable pub made : ℕ → List Call → ℕ
made i [] = 0
made i (subscribed j ∷ r) = let rest = made i r in if i == j then 1 + rest else rest
made i (cancelled j ∷ r) = made i r

unfoldable pub dropped : ℕ → List Call → ℕ
dropped i [] = 0
dropped i (subscribed j ∷ r) = dropped i r
dropped i (cancelled j ∷ r) = let rest = dropped i r in if i == j then 1 + rest else rest

unfoldable held : ℕ → Map ℕ → ℕ
held i [] = 0
held i ((k, j) ∷ r) = let rest = held i r in if i == j then 1 + rest else rest

abbrev Distinct : Map ℕ → Type 0
Distinct [] = Unit {0}
Distinct ((k, j) ∷ r) = (lookup k r ≡ none) × Distinct r

made-append : (i : ℕ) (a b : List Call) → made i (a ++ b) ≡ made i a + made i b
unfolding made
made-append i [] b = ground arith
made-append i (subscribed j ∷ a) b = ground (arith, made-append i a b)
made-append i (cancelled j ∷ a) b = made-append i a b

dropped-append : (i : ℕ) (a b : List Call) → dropped i (a ++ b) ≡ dropped i a + dropped i b
unfolding dropped
dropped-append i [] b = ground arith
dropped-append i (cancelled j ∷ a) b = ground (arith, dropped-append i a b)
dropped-append i (subscribed j ∷ a) b = dropped-append i a b

abbrev one : ℕ → Option ℕ → ℕ
one i none = 0
one i (some j) = if i == j then 1 else 0

held-delete :
    (i : ℕ) (k : Text) (m : Map ℕ)
    → Distinct m
    → held i m ≡ held i (delete k m) + one i (lookup k m)
unfolding held delete lookup
held-delete i k [] d = refl
held-delete i k ((l, j) ∷ m) d = ground (arith, held-delete i k m d.1, text_eq_iff l k, d.0)

delete-Distinct : (k : Text) (m : Map ℕ) → Distinct m → Distinct (delete k m)
unfolding delete
delete-Distinct k [] d = tt
delete-Distinct k ((l, j) ∷ m) d = ground (arith, delete-Distinct k m d.1, lookup-delete k l m, d.0)

-- The subscriptions that are held are those that were made and not cancelled.
record Inv (s : Session) : Type 0 where
  distinct : Distinct s.subscriptions
  balance : (i : ℕ) → made i s.calls ≡ dropped i s.calls + held i s.subscriptions

made-cancel_existing : (i : ℕ) (o : Option ℕ) → made i (cancel_existing o) ≡ 0
unfolding made
made-cancel_existing i none = refl
made-cancel_existing i (some j) = refl

dropped-cancel_existing : (i : ℕ) (o : Option ℕ) → dropped i (cancel_existing o) ≡ one i o
unfolding dropped
dropped-cancel_existing i none = refl
dropped-cancel_existing i (some j) = ground arith

subscribe_command-Inv :
    (answer : Option ℕ) (args : List Text) (s : Session)
    → Inv s
    → Inv (subscribe_command answer args s).0
unfolding subscribe_command perform insert made dropped held
subscribe_command-Inv answer [] s v = v
subscribe_command-Inv none (t ∷ args) s v = v
subscribe_command-Inv (some a) (t ∷ args) s v = record {
  distinct = (
    ground (arith, lookup-delete t t s.subscriptions, text_eq_refl t),
    delete-Distinct t s.subscriptions v.distinct,
  );
  balance = λ i. ground (
    arith,
    v.balance i,
    held-delete i t s.subscriptions v.distinct,
    made-append i s.calls (subscribed a ∷ cancel_existing (lookup t s.subscriptions)),
    dropped-append i s.calls (subscribed a ∷ cancel_existing (lookup t s.subscriptions)),
    made-cancel_existing i (lookup t s.subscriptions),
    dropped-cancel_existing i (lookup t s.subscriptions),
  );
}

unsubscribe_command-Inv :
    (args : List Text) (s : Session) → Inv s → Inv (unsubscribe_command args s).0
unfolding unsubscribe_command perform made dropped
unsubscribe_command-Inv [] s v = v
unsubscribe_command-Inv (t ∷ args) s v = elim (Option-cases (lookup t s.subscriptions)) [
  | inl n ↦ rw (unsubscribe_command, n) (record { distinct = v.distinct; balance = v.balance })
  | inr (a, n) ↦
      rw (unsubscribe_command, n)
        (record {
          distinct = delete-Distinct t s.subscriptions v.distinct;
          balance = λ i. ground (
            arith,
            n,
            v.balance i,
            held-delete i t s.subscriptions v.distinct,
            made-append i s.calls (cancelled a ∷ []),
            dropped-append i s.calls (cancelled a ∷ []),
          );
        })
]

dropped-cancel_all : (i : ℕ) (m : Map ℕ) → dropped i (cancel_all m) ≡ held i m
unfolding dropped cancel_all held
dropped-cancel_all i [] = refl
dropped-cancel_all i ((k, j) ∷ m) = ground (arith, dropped-cancel_all i m)

made-cancel_all : (i : ℕ) (m : Map ℕ) → made i (cancel_all m) ≡ 0
unfolding made cancel_all
made-cancel_all i [] = refl
made-cancel_all i ((k, j) ∷ m) = made-cancel_all i m

either : (b : Bool) {x y : Session} → Inv x → Inv y → Inv (if b then x else y)
either true v w = v
either false v w = w

module _ {S D : Type 0} (env : AuthEnv S D) (scan : S → Text → List Text × Bool) where
  dispatch-Inv :
      (c : Option Command) (name : Text) (at : Moment S D) (args : List Text) (s : Session)
      → Inv s
      → Inv (dispatch env scan c name at args s).0
  unfolding perform
  dispatch-Inv none name at args s v = v
  dispatch-Inv (some subscribe) name at args s v = subscribe_command-Inv at.subscription args s v
  dispatch-Inv (some unsubscribe) name at args s v = unsubscribe_command-Inv args s v
  dispatch-Inv (some c) name at args s v = record { distinct = v.distinct; balance = v.balance }

  run_line-Inv :
      (at : Moment S D) (words : List Text) (s : Session)
      → Inv s
      → Inv (run_line env scan at words s).0
  unfolding run_line execute_command
  run_line-Inv at [] s v = v
  run_line-Inv at (name ∷ args) s v = dispatch-Inv (command_of name) name at args s v

  report-Inv : (e : Option Text) (s : Session) → Inv s → Inv (report env scan e s)
  unfolding report perform
  report-Inv none s v = record { distinct = v.distinct; balance = v.balance }
  report-Inv (some e) s v = record { distinct = v.distinct; balance = v.balance }

  terminal_loop-Inv :
      (lines : List (Moment S D × Text)) (s : Session)
      → Inv s
      → Inv (terminal_loop env scan lines s)
  unfolding terminal_loop perform
  terminal_loop-Inv [] s v = v
  terminal_loop-Inv ((at, line) ∷ rest) s v =
      let after = run_line env scan at (fields line) s in
      let now = run_line-Inv at (fields line) s v in
      let later =
        terminal_loop-Inv rest (report env scan after.1 after.0) (report-Inv after.1 after.0 now) in
      either at.shutting_down (record { distinct = v.distinct; balance = v.balance })
        (either (ends env scan after.1) now later)

  end_session-balanced :
      (s : Session) (i : ℕ) → Inv s → made i (end_session s).calls ≡ dropped i (end_session s).calls
  unfolding end_session
  end_session-balanced s i v = ground (
    arith,
    v.balance i,
    made-append i s.calls (cancel_all s.subscriptions),
    dropped-append i s.calls (cancel_all s.subscriptions),
    made-cancel_all i s.subscriptions,
    dropped-cancel_all i s.subscriptions,
  )

  -- Whatever lines a terminal connection reads and however it ends, each of its subscriptions on the bus
  -- has been cancelled as often as it was made when the connection is over, also one that a second
  -- subscription to the same event type replaced.
  pub terminal_connection-balanced :
      (lines : List (Moment S D × Text)) (i : ℕ)
      → made i (terminal_connection env scan lines).calls
        ≡ dropped i (terminal_connection env scan lines).calls
  unfolding terminal_connection perform made dropped held
  terminal_connection-balanced lines i =
      end_session-balanced _ i
        (terminal_loop-Inv lines _ (record { distinct = tt; balance = λ j. refl }))
