-- ===== src/Transport/Tcp/Session/Persisted.antt =====
-- What PERSIST achieves, over handlePersist of roboserver/tcp_server/tcp_server.go.
use robomesh.Prelude.{
  ℕ, false, none, some, [], ◌∷◌, ◌++◌, ◌≡◌, ◌⊎◌, inl, inr, refl, Text, codes, Bool-cases,
  Option-cases,
}
use robomesh.Prelude.Bytes.{is_empty, text_eq}
use robomesh.Prelude.Results.{ok, Result-cases}
use robomesh.Conn.{Conn}
use robomesh.Database.Redis.{get_robot_public_key}
use robomesh.Database.Postgres.{PostgresLaws}
use robomesh.Auth.Handshake.{HandshakeResult}
use robomesh.Transport.World.{World, ServerEnv}
use robomesh.Transport.Tcp.Session.{persist_key, handle_persist, say}

module _ {S D : Type 0} (env : ServerEnv S D) (l : PostgresLaws env.auth.pg) where
  -- The registry after a PERSIST: the key that Redis kept for the robot is in a new row.
  pub record Stored (result : HandshakeResult) (c : Conn (World S D)) (d' : D) : Type 0 where
    pub public_key : Text
    pub created_at : ℕ
    pub kept : get_robot_public_key env.auth.redis c.world.redis result.uuid ≡ ok public_key
    pub given : is_empty public_key ≡ false
    pub fresh : l.row c.world.pg result.uuid ≡ none
    pub row_of :
        l.row d' result.uuid
        ≡ some (record {
          uuid = result.uuid;
          public_key = public_key;
          device_type = result.device_type;
          is_blacklisted = false;
          created_at = created_at;
        })

  -- The two ways in which PERSIST ends.
  abbrev pub Outcome : HandshakeResult → Conn (World S D) → Conn (World S D) → Type 0
  Outcome result c c' =
      (c'.output ≡ c.output ++ codes "PERSIST_OK" ∷ []) × Stored result c c'.world.pg
      ⊎ (c'.world.pg ≡ c.world.pg)
        × ((line : Text) × (c'.output ≡ c.output ++ line ∷ [])
            × (text_eq line (codes "PERSIST_OK") ≡ false))

  refused :
      (result : HandshakeResult) (c : Conn (World S D)) (line : Text)
      → text_eq line (codes "PERSIST_OK") ≡ false
      → Outcome result c (say env line c)
  refused result c line h = inr (refl, (line, refl, h))

  persist_key-Outcome :
      (result : HandshakeResult) (c : Conn (World S D)) (key : Text)
      → get_robot_public_key env.auth.redis c.world.redis result.uuid ≡ ok key
      → is_empty key ≡ false
      → Outcome result c (persist_key env result key c)
  unfolding persist_key text_eq
  persist_key-Outcome result c key k g =
      let reg = env.auth.pg.register_robot c.world.pg result.uuid key result.device_type in
      elim (Bool-cases reg.1) [
        | inl e ↦
            let (n, row) = l.register_done c.world.pg result.uuid key result.device_type e in
            rw (e, persist_key)
              (inl (
                refl,
                record {
                  public_key = key;
                  created_at = n;
                  kept = k;
                  given = g;
                  fresh = l.register_fresh c.world.pg result.uuid key result.device_type e;
                  row_of = row;
                },
              ))
        | inr e ↦
            rw (e, persist_key)
              (inr (
                l.register_failed c.world.pg result.uuid key result.device_type e,
                (codes "ERROR PERSIST_FAILED", refl, refl),
              ))
      ]

  -- With a registry that keeps the laws of the table of robots, PERSIST either stores the robot in
  -- a new row, with the key that Redis kept, and says PERSIST_OK, or leaves the registry as it was
  -- and says one other line.
  pub handle_persist-Outcome :
      (result : HandshakeResult) (c : Conn (World S D))
      → Outcome result c (handle_persist env result c)
  unfolding handle_persist text_eq
  handle_persist-Outcome result c =
      elim (Option-cases (env.auth.pg.get_robot_by_uuid c.world.pg result.uuid)) [
        | inr (r, e) ↦
            rw (e, handle_persist) (refused result c (codes "PERSIST_OK ALREADY_PERSISTED") refl)
        | inl e ↦
            elim (Result-cases (get_robot_public_key env.auth.redis c.world.redis result.uuid)) [
              | inr (x, f) ↦
                  rw (e, f, handle_persist) (refused result c (codes "ERROR NO_PUBLIC_KEY") refl)
              | inl (key, f) ↦ elim (Bool-cases (is_empty key)) [
                | inl g ↦
                    rw (e, f, g, handle_persist)
                      (refused result c (codes "ERROR NO_PUBLIC_KEY") refl)
                | inr g ↦ rw (e, f, g, handle_persist) (persist_key-Outcome result c key f g)
              ]
            ]
      ]
