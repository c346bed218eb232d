-- ===== src/Auth/Heartbeat/Accepted.antt =====
-- What an accepted heartbeat (roboserver/auth/heartbeat_handler.go) was checked for, and what a
-- rejected one leaves behind.
use robomesh.Prelude.{
  ℕ, true, false, not, some, ◌≡◌, ◌≢◌, inl, inr, refl, sym, ◌∙◌, ap, Text, arith,
}
use robomesh.Prelude.Int.{ℤ, ◌<ℤ◌}
use robomesh.Prelude.Hex.{hex_encode}
use robomesh.Prelude.Results.{Result, ok, err, or_fail-ok, guard-ok, >>=-ok, Result-cases, err≢ok}
use robomesh.Database.Redis.{HeartbeatState, DbError, get_heartbeat}
use robomesh.Database.Postgres.{RobotRecord}
use robomesh.Auth.Verify.{VerifyError, verify_robot_signature}
use robomesh.Auth.Verify.Sound.{Authentic, verify_robot_signature_iff}
use robomesh.Auth.Heartbeat.{
  HeartbeatEnv, HeartbeatPayload, HeartbeatResult, HeartbeatError, bad_signature, store_failed,
  is_fresh, lift_verify, check_heartbeat, commit_heartbeat, process_heartbeat,
}

lift_verify-ok :
    {E : Type 0} (r : Result VerifyError (Unit {0})) (e : E) {u : Unit {0}}
    → lift_verify r e ≡ ok u
    → r ≡ ok tt
lift_verify-ok (ok u) e h = refl
lift_verify-ok (err x) e h = cc

module _ {S D : Type 0} (env : HeartbeatEnv S D) (d : D) (s : S)
    (uuid payload_json signature : Text) where
  -- The robot is registered and not blacklisted, its key signs the very bytes of the payload, and
  -- the payload's number is above the last one that can be read.
  pub record Checked (payload : HeartbeatPayload) : Type 0 where
    pub robot : RobotRecord
    pub registered : env.pg.get_robot_by_uuid d uuid ≡ some robot
    pub allowed : robot.is_blacklisted ≡ false
    pub authentic : Authentic env.crypto robot.public_key (hex_encode payload_json) signature
    pub parsed : env.parse_payload payload_json ≡ some payload
    pub fresh :
        (existing : HeartbeatState)
        → get_heartbeat env.redis s uuid ≡ ok existing
        → existing.last_seq <ℤ payload.seq

  is_fresh-lt :
      (seq : ℤ) (r : Result DbError HeartbeatState) (existing : HeartbeatState)
      → is_fresh seq r ≡ true
      → r ≡ ok existing
      → existing.last_seq <ℤ seq
  unfolding is_fresh
  is_fresh-lt seq (err e) existing h k = cc
  is_fresh-lt seq (ok x) existing h k = ground arith

  pub check_heartbeat-Checked :
      (payload : HeartbeatPayload)
      → check_heartbeat env d s uuid payload_json signature ≡ ok payload
      → Checked payload
  unfolding check_heartbeat
  check_heartbeat-Checked payload h =
      let (robot, e₁, h₁) = or_fail-ok (env.pg.get_robot_by_uuid d uuid) _ _ h in
      let (e₂, h₂) = guard-ok (not robot.is_blacklisted) _ _ h₁ in
      let (u, e₃, h₃) =
        >>=-ok
          (lift_verify
            (verify_robot_signature env.crypto robot.public_key (hex_encode payload_json) signature)
            bad_signature)
          _ h₂ in
      let (p, e₄, h₄) = or_fail-ok (env.parse_payload payload_json) _ _ h₃ in
      let (e₅, h₅) = guard-ok (is_fresh p.seq (get_heartbeat env.redis s uuid)) _ _ h₄ in
      let same : p ≡ payload = cc in
      record {
        robot = robot;
        registered = e₁;
        allowed = ground arith;
        authentic = (verify_robot_signature_iff env.crypto _ _ _).0 (lift_verify-ok _ _ e₃);
        parsed = e₄ ∙ ap some same;
        fresh = λ x k. rw (← same) (is_fresh-lt p.seq _ x e₅ k);
      }

pub commit_heartbeat-ok :
    {S D : Type 0} (env : HeartbeatEnv S D) (s : S) (uuid ip : Text) (now : ℕ)
    (p : HeartbeatPayload) {r : HeartbeatResult}
    → (commit_heartbeat env s uuid ip now p).1 ≡ ok r
    → (r.uuid ≡ uuid) × (r.ip ≡ ip) × (r.payload ≡ p)
unfolding commit_heartbeat
commit_heartbeat-ok env s uuid ip now p h = ground arith

module _ {S D : Type 0} (env : HeartbeatEnv S D) (d : D) (s : S) (uuid json sig ip : Text)
    (now : ℕ) where
  -- A heartbeat is accepted only from a registered robot that is not blacklisted, with a signature
  -- by its key over the very bytes of the payload and a number above the last one that can be read;
  -- the result names that robot, its address and the payload.
  pub process_heartbeat-Checked :
      (r : HeartbeatResult)
      → (process_heartbeat env d s uuid json sig ip now).1 ≡ ok r
      → Checked env d s uuid json sig r.payload × (r.uuid ≡ uuid) × (r.ip ≡ ip)
  unfolding process_heartbeat
  process_heartbeat-Checked r h = elim (Result-cases (check_heartbeat env d s uuid json sig)) [
    | inr (e, c) ↦ absurd (err≢ok (rw (c, process_heartbeat) at h))
    | inl (p, c) ↦
        let (u, i, same) =
          commit_heartbeat-ok env s uuid ip now p (rw (c, process_heartbeat) at h) in
        (check_heartbeat-Checked env d s uuid json sig r.payload (c ∙ ap ok (sym same)), u, i)
  ]

  -- A heartbeat that is rejected for any reason but a failed write leaves Redis as it was.
  pub process_heartbeat_rejected :
      (e : HeartbeatError)
      → (process_heartbeat env d s uuid json sig ip now).1 ≡ err e
      → e ≢ store_failed
      → (process_heartbeat env d s uuid json sig ip now).0 ≡ s
  unfolding process_heartbeat commit_heartbeat
  process_heartbeat_rejected e h k = ground arith
