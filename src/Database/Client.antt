-- ===== src/Database/Client.antt =====
-- The commands of the go-redis client that roboserver/database/redis.go issues, and what it relies
-- on of them. The client and the server behind it are not part of the repository, so they are a
-- parameter; `Store` in the other modules is whatever state they keep.
use robomesh.Prelude.{Bool, true, false, Option, none, some, ◌≡◌, ◌⊎◌, Text, text_eq}
use robomesh.Prelude.Int.{ℤ}

-- The reply to GET: `redis.Nil` is `missing`, any other error is `failed`.
pub data Reply : Type 0 where
  found : Text → Reply
  missing : Reply
  failed : Reply

-- A command that writes returns the new state and whether it reported success. Times to live are in
-- nanoseconds; 0 means that the key does not expire.
pub record RedisClient (S : Type 0) : Type 0 where
  pub get : S → Text → Reply
  pub set : S → Text → Text → ℤ → S × Bool
  pub del : S → Text → S × Bool
  pub exists : S → Text → Option Bool
  pub get_del : S → Text → S × Reply

-- A read never returns anything but the contents; a write that reports success has been made, and
-- one that reports an error may or may not have been made, at its own key only.
pub record RedisLaws {S : Type 0} (c : RedisClient S) : Type 0 where
  pub contents : S → Text → Option Text
  pub get_found : (s : S) (k v : Text) → c.get s k ≡ found v → contents s k ≡ some v
  pub get_missing : (s : S) (k : Text) → c.get s k ≡ missing → contents s k ≡ none
  pub exists_lem :
      (s : S) (k : Text) (b : Bool)
      → c.exists s k ≡ some b
      → b ≡ elim (contents s k) [ none ↦ false | some v ↦ true ]
  pub set_done :
      (s : S) (k v : Text) (d : ℤ)
      → (c.set s k v d).1 ≡ true
      → contents (c.set s k v d).0 k ≡ some v
  pub set_other :
      (s : S) (k v : Text) (d : ℤ) (j : Text)
      → text_eq k j ≡ false
      → contents (c.set s k v d).0 j ≡ contents s j
  pub set_either :
      (s : S) (k v : Text) (d : ℤ)
      → (contents (c.set s k v d).0 k ≡ some v) ⊎ (contents (c.set s k v d).0 k ≡ contents s k)
  pub del_done : (s : S) (k : Text) → (c.del s k).1 ≡ true → contents (c.del s k).0 k ≡ none
  pub del_other :
      (s : S) (k j : Text) → text_eq k j ≡ false → contents (c.del s k).0 j ≡ contents s j
  pub get_del_found :
      (s : S) (k v : Text)
      → (c.get_del s k).1 ≡ found v
      → (contents s k ≡ some v) × (contents (c.get_del s k).0 k ≡ none)
  pub get_del_either :
      (s : S) (k : Text)
      → (contents (c.get_del s k).0 k ≡ none) ⊎ (contents (c.get_del s k).0 k ≡ contents s k)
  pub get_del_missing : (s : S) (k : Text) → (c.get_del s k).1 ≡ missing → contents s k ≡ none
  pub get_del_other :
      (s : S) (k j : Text) → text_eq k j ≡ false → contents (c.get_del s k).0 j ≡ contents s j

-- encoding/json at one type.
pub record Codec (A : Type 0) : Type 0 where
  pub marshal : A → Option Text
  pub unmarshal : Text → Option A

-- A value that was encoded is decoded again.
abbrev pub RoundTrips : {A : Type 0} → Codec A → Type 0
RoundTrips {A} c = (a : A) (t : Text) → c.marshal a ≡ some t → c.unmarshal t ≡ some a
