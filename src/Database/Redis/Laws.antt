-- ===== src/Database/Redis/Laws.antt =====
-- What the operations of roboserver/database/redis.go promise, from the documented behaviour of the
-- client: reading back what was stored, what stays untouched, registrations that are refused, and
-- tickets that are good for one use.
use robomesh.Prelude.{
  Bool, true, false, false, Option, none, some, ◌≡◌, ◌≢◌, inl, inr, refl, sym, ◌∙◌, ap, Text,
  text_eq, arith, none≢some, Option-cases,
}
use robomesh.Prelude.Int.{ℤ}
use robomesh.Prelude.Results.{ok}
use robomesh.Database.Client.{RedisLaws, Reply, found, missing, failed, Codec, RoundTrips}
use robomesh.Database.Keys.{robot_key, pending_key, ticket_key, user_session_key}
use robomesh.Database.Redis.{
  decode_reply, text_reply, error_of, marshal_failed, RedisHandler, ActiveRobot, PendingRobot,
  DbError, store, fetch, set_active_robot, get_active_robot, set_pending_robot, consume_ticket,
  get_user_session, remove_user_session, fetch_text,
}

decode_reply-ok :
    {A : Type 0} (c : Codec A) (r : Reply) {a : A}
    → decode_reply c r ≡ ok a
    → (t : Text) × (r ≡ found t) × (c.unmarshal t ≡ some a)
unfolding decode_reply
decode_reply-ok c (found t) e = (t, refl, ground arith)
decode_reply-ok c missing e = cc
decode_reply-ok c failed e = cc

pub text_reply-ok : (r : Reply) {v : Text} → text_reply r ≡ ok v → r ≡ found v
unfolding text_reply
text_reply-ok (found t) e = ground arith
text_reply-ok missing e = cc
text_reply-ok failed e = cc

error_of-none :
    {S : Type 0} (p : S × Bool) → (error_of p).1 ≡ none → (p.1 ≡ true) × ((error_of p).0 ≡ p.0)
error_of-none (s, true) e = (refl, refl)
error_of-none (s, false) e = cc

module _ {S : Type 0} (h : RedisHandler S) (l : RedisLaws h.client) where
  open l use {contents, get_found, set_done, set_other, exists_lem, get_del_found}

  -- A value that is read was stored, as its encoding.
  pub fetch_found :
      {A : Type 0} (c : Codec A) (s : S) (k : Text) {a : A}
      → fetch h c s k ≡ ok a
      → (t : Text) × (contents s k ≡ some t) × (c.unmarshal t ≡ some a)
  unfolding fetch
  fetch_found c s k e =
      let (t, got, dec) = decode_reply-ok c (h.client.get s k) e in (t, get_found s k t got, dec)

  pub store_done :
      {A : Type 0} (c : Codec A) (s : S) (k : Text) (a : A) (ttl : ℤ)
      → (store h c s k a ttl).1 ≡ none
      → (t : Text) × (c.marshal a ≡ some t) × (contents (store h c s k a ttl).0 k ≡ some t)
  unfolding store
  store_done c s k a ttl e = elim (Option-cases (c.marshal a)) [
    | inl m ↦ absurd (none≢some (sym e ∙ ap (λ r. (go r).1) m))
    | inr (t, m) ↦ (t, m, rw (m, store) (ground (arith, set_done s k t ttl, m)))
  ]
    where
      go : Option Text → S × Option DbError
      go r = elim r [ none ↦ (s, some marshal_failed) | some t ↦ error_of (h.client.set s k t ttl) ]

  pub store_other :
      {A : Type 0} (c : Codec A) (s : S) (k : Text) (a : A) (ttl : ℤ) (j : Text)
      → text_eq k j ≡ false
      → contents (store h c s k a ttl).0 j ≡ contents s j
  unfolding store
  store_other c s k a ttl j ne = elim (Option-cases (c.marshal a)) [
    | inl m ↦ ground arith
    | inr (t, m) ↦ ground (arith, set_other s k t ttl j)
  ]

  -- What was stored is what is read back, if the read succeeds.
  pub fetch-store :
      {A : Type 0} (c : Codec A) (rt : RoundTrips c) (s : S) (k : Text) (a b : A) (ttl : ℤ)
      → (store h c s k a ttl).1 ≡ none
      → fetch h c (store h c s k a ttl).0 k ≡ ok b
      → b ≡ a
  fetch-store c rt s k a b ttl done got =
      let (t, m, there) = store_done c s k a ttl done in
      let (u, there', dec) = fetch_found c (store h c s k a ttl).0 k got in cc (rt a t m)

  -- With a client that keeps the laws of Redis and sessions that survive JSON, what is read for
  -- the UUID of a session that was just stored with success is that session, if the read succeeds.
  pub get_active_robot-set_active_robot :
      RoundTrips h.active_codec
      → (s : S) (robot r : ActiveRobot) (ttl : ℤ) → (set_active_robot h s robot ttl).1 ≡ none
      → get_active_robot h (set_active_robot h s robot ttl).0 robot.uuid ≡ ok r
      → r ≡ robot
  unfolding set_active_robot get_active_robot
  get_active_robot-set_active_robot rt s robot r ttl done got =
      fetch-store h.active_codec rt s (robot_key robot.uuid) robot r ttl done got

  -- With a client that keeps the laws of Redis, a registration is stored as pending only if
  -- neither a pending entry nor a session of its UUID was in the store.
  pub set_pending_robot_fresh :
      (s : S) (robot : PendingRobot) (ttl : ℤ)
      → (set_pending_robot h s robot ttl).1 ≡ none
      → (contents s (pending_key robot.uuid) ≡ none) × (contents s (robot_key robot.uuid) ≡ none)
  unfolding set_pending_robot
  set_pending_robot_fresh s robot ttl e = ground (
    arith,
    exists_lem s (pending_key robot.uuid) false,
    exists_lem s (robot_key robot.uuid) false,
  )

  -- A session of a user that was deleted cannot be read.
  pub get_user_session-remove_user_session :
      (s : S) (token user : Text)
      → (remove_user_session h s token).1 ≡ none
      → get_user_session h (remove_user_session h s token).0 token ≢ ok user
  unfolding remove_user_session get_user_session fetch_text
  get_user_session-remove_user_session s token user gone got =
      let (done, same) = error_of-none (h.client.del s (user_session_key token)) gone in
      none≢some (
        sym (l.del_done s (user_session_key token) done)
        ∙ ap (λ x. contents x (user_session_key token)) (sym same)
        ∙ get_found _ (user_session_key token) user (text_reply-ok _ got))

  -- With a client that keeps the laws of Redis, a ticket is good for one use: once it was
  -- consumed, consuming it again right away gives no user.
  pub consume_ticket_once :
      (s : S) (ticket user again : Text)
      → (consume_ticket h s ticket).1 ≡ ok user
      → (consume_ticket h (consume_ticket h s ticket).0 ticket).1 ≢ ok again
  unfolding consume_ticket
  consume_ticket_once s ticket user again first second = none≢some (
      sym (get_del_found s k user (text_reply-ok _ first)).1
      ∙ (get_del_found (h.client.get_del s k).0 k again (text_reply-ok _ second)).0)
    where
      k : Text
      k = ticket_key ticket
