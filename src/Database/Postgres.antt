-- ===== src/Database/Postgres.antt =====
-- roboserver/database/postgres.go: the registry of robots. The database behind the SQL statements is
-- not part of the repository, so each statement is a parameter; the table is that of db/init.sql.
use robomesh.Prelude.{ℕ, Bool, true, false, List, Option, none, some, ◌≡◌, Text, text_eq}

pub record RobotRecord : Type 0 where
  pub uuid : Text
  pub public_key : Text
  pub device_type : Text
  pub is_blacklisted : Bool
  pub created_at : ℕ

-- The statements of GetRobotByUUID, GetAllRobots, GetRobotsByType, RegisterRobot and BlacklistRobot.
-- A query gives `none` where it fails; that for one robot also where it finds no row. The others give
-- the new state and whether they succeeded.
pub record Postgres (D : Type 0) : Type 0 where
  pub get_robot_by_uuid : D → Text → Option RobotRecord
  pub get_all_robots : D → Option (List RobotRecord)
  pub get_robots_by_type : D → Text → Option (List RobotRecord)
  pub register_robot : D → Text → Text → Text → D × Bool
  pub blacklist_robot : D → Text → Bool → D × Bool

-- The table of robots, with uuid as its primary key and is_blacklisted false by default.
pub record PostgresLaws {D : Type 0} (p : Postgres D) : Type 0 where
  pub row : D → Text → Option RobotRecord
  pub get_robot_row :
      (d : D) (u : Text) (r : RobotRecord) → p.get_robot_by_uuid d u ≡ some r → row d u ≡ some r
  pub get_robot_uuid : (d : D) (u : Text) (r : RobotRecord) → row d u ≡ some r → r.uuid ≡ u
  pub register_fresh : (d : D) (u k t : Text) → (p.register_robot d u k t).1 ≡ true → row d u ≡ none
  pub register_done :
      (d : D) (u k t : Text)
      → (p.register_robot d u k t).1 ≡ true
      → (n : ℕ) × (row (p.register_robot d u k t).0 u
          ≡ some (record {
            uuid = u;
            public_key = k;
            device_type = t;
            is_blacklisted = false;
            created_at = n;
          }))
  pub register_failed :
      (d : D) (u k t : Text)
      → (p.register_robot d u k t).1 ≡ false
      → (p.register_robot d u k t).0 ≡ d
  pub register_other :
      (d : D) (u k t v : Text) → text_eq u v ≡ false → row (p.register_robot d u k t).0 v ≡ row d v
