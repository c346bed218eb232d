-- ===== src/HandlerEngine/Route/Outcome.antt =====
-- What a request of a script (roboserver/handler_engine/process.go) may come to, a response or a
-- reverse connection, and how this is put together along the branches of a handler.
use robomesh.Prelude.{
  ◌<◌, Bool, true, false, Option, none, some, [], ◌∷◌, ◌++◌, ◌≡◌, refl, Text, length, arith,
  if◌then◌else◌,
}
use robomesh.Database.Client.{Codec, Reply, found, missing, failed}
use robomesh.HandlerEngine.Message.{Value, Answer, nothing, Failure, from_error, response}
use robomesh.HandlerEngine.Process.{send_to_script, write_capacity}
use robomesh.HandlerEngine.Route.{
  Context, Action, Dial, send_response, need, attempt, attempt_write, answer_data,
}

-- The process runs and its queue has room.
pub record IsLive {S : Type 0} (c : Context S) : Type 0 where
  pub open_queue : c.hp.closed ≡ false
  pub room : length c.hp.write_ch < write_capacity

pub data Outcome {S : Type 0} (P : Context S → Dial → Type 0) (id : Text) (c c' : Context S)
    : Type 0 where
  -- one response is queued and nothing else
  replied :
      (a : Answer) (f : Failure)
      → c'.hp.write_ch ≡ c.hp.write_ch ++ response id a f ∷ []
      → c'.dials ≡ c.dials
      → Outcome P id c c'
  -- the request waits for one reverse connection, which it may ask for, and the process is as it was
  dialled :
      (x : Dial)
      → P c x
      → x.request_id ≡ id
      → c'.dials ≡ c.dials ++ x ∷ []
      → c'.hp ≡ c.hp
      → Outcome P id c c'

pub record Answers {S : Type 0} (P : Context S → Dial → Type 0) (id : Text) (f : Action S)
    : Type 0 where
  pub at : (c : Context S) → IsLive c → Outcome P id c (f c)

module _ {S : Type 0} {P : Context S → Dial → Type 0} (id : Text) where
  pub if-Answers :
      {f g : Action S} (b : Bool)
      → Answers P id f
      → Answers P id g
      → Answers P id (if b then f else g)
  if-Answers true p q = p
  if-Answers false p q = q

  pub if_true-Answers :
      {f g : Action S} (b : Bool)
      → (b ≡ true → Answers P id f)
      → Answers P id g
      → Answers P id (if b then f else g)
  if_true-Answers true p q = p refl
  if_true-Answers false p q = q

  pub send_response-Answers :
      (a : Answer) (f : Failure) → Answers {S = S} P id (send_response id a f)
  unfolding send_response send_to_script
  send_response-Answers a f = record { at = λ c l. replied a f (ground arith) (ground arith) }

  pub need-Answers :
      {A : Type 0} (text : Text) (o : Option A) (k : A → Action S)
      → ((a : A) → Answers P id (k a))
      → Answers P id (need id o text k)
  unfolding need
  need-Answers text none k p = send_response-Answers _ _
  need-Answers text (some a) k p = p a

  pub attempt-Answers :
      {A : Type 0} (o : Option A) (k : A → Action S)
      → ((a : A) → Answers P id (k a))
      → Answers P id (attempt id o k)
  unfolding attempt
  attempt-Answers none k p = send_response-Answers _ _
  attempt-Answers (some a) k p = p a

  -- What is done before the response may change all but the queue and the dials.
  pub after-Answers :
      (g : Action S) (a : Answer) (f : Failure) (c : Context S)
      → IsLive c
      → (g c).hp.write_ch ≡ c.hp.write_ch
      → (g c).hp.closed ≡ c.hp.closed
      → (g c).dials ≡ c.dials
      → Outcome P id c (send_response id a f (g c))
  unfolding send_response send_to_script
  after-Answers g a f c l q o d = replied a f (ground arith) (ground arith)

  pub attempt_write-Answers :
      (p : S × Bool) (a : Answer) (f : Failure)
      → Answers P id (attempt_write id p (send_response id a f))
  unfolding attempt_write
  attempt_write-Answers (s, true) a f = record {
    at = λ c l. after-Answers (λ x. record x { redis = s }) a f c l refl refl refl;
  }
  attempt_write-Answers (s, false) a f = record {
    at = λ c l. after-Answers (λ x. record x { redis = s }) nothing from_error c l refl refl refl;
  }

  pub option-Outcome :
      {A : Type 0} (c : Context S) (o : Option A) {x : Context S} {k : A → Context S}
      → Outcome P id c x
      → ((a : A) → o ≡ some a → Outcome P id c (k a))
      → Outcome P id c (elim o [ none ↦ x | some a ↦ k a ])
  option-Outcome c none p q = p
  option-Outcome c (some a) p q = q a refl

  pub if-Outcome :
      (c : Context S) (b : Bool) {x y : Context S}
      → (b ≡ true → Outcome P id c x)
      → (b ≡ false → Outcome P id c y)
      → Outcome P id c (if b then x else y)
  if-Outcome c true p q = p refl
  if-Outcome c false p q = q refl

  pub answer_data-Answers :
      (json : Codec Value) (r : Reply) → Answers {S = S} P id (answer_data id json r)
  unfolding answer_data
  answer_data-Answers json missing = record { at = (send_response-Answers _ _).at }
  answer_data-Answers json failed = record { at = (send_response-Answers _ _).at }
  answer_data-Answers json (found t) = record {
    at = λ c l.
        option-Outcome c (json.unmarshal t) ((send_response-Answers _ _).at c l)
          (λ v _. (send_response-Answers _ _).at c l);
  }
