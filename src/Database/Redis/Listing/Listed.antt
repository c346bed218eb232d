-- ===== src/Database/Redis/Listing/Listed.antt =====
-- roboserver/database/redis.go: what a listing has of the keys that SCAN gave.
use robomesh.Prelude.{
  Bool, none, some, List, [], ◌∷◌, ◌≡◌, refl, sym, ap, ◌∙◌, ◌↔◌, inl, inr, Bool-cases, none≢some,
  some_inj, Text, codes,
}
use robomesh.Prelude.Results.{ok, Result-cases}
use robomesh.Database.Client.{Codec}
use robomesh.Database.Redis.{RedisHandler, ActiveRobot, fetch}
use robomesh.Database.Redis.Listing.{collect, list_matching, get_all_active_robots}
use mathlib.Core.List.{Memᴰ}
use mathlib.Core.List.Memᴰ.{head, tail, not-nil}

module _ {S : Type 0} (h : RedisHandler S) (scan : S → Text → List Text × Bool) where
  -- A robot that is read at some of the keys.
  abbrev pub ReadAt : {A : Type 0} → Codec A → S → List Text → A → Type 0
  ReadAt c s keys r = (k : Text) × Memᴰ k keys × (fetch h c s k ≡ ok r)

  collect-complete :
      {A : Type 0} (c : Codec A) (s : S) (keys : List Text) {r : A}
      → ReadAt c s keys r
      → Memᴰ r (collect h scan c s keys)
  unfolding collect
  collect-complete c s [] (k, m, e) = absurd (not-nil m)
  collect-complete c s (x ∷ keys) (k, head q, e) = rw (sym q, collect, e) (head refl)
  collect-complete c s (x ∷ keys) (k, tail m, e) =
      let there = collect-complete c s keys (k, m, e) in
      elim (Result-cases (fetch h c s x)) [
        | inl (y, f) ↦ rw (collect, f) (tail there)
        | inr (y, f) ↦ rw (collect, f) there
      ]

  later :
      {A : Type 0} (c : Codec A) (s : S) (x : Text) (keys : List Text) {r : A}
      → ReadAt c s keys r
      → ReadAt c s (x ∷ keys) r
  later c s x keys (k, m, e) = (k, tail m, e)

  collected :
      {A : Type 0} (c : Codec A) (s : S) (x : Text) (keys : List Text) {y r : A}
      → fetch h c s x ≡ ok y
      → (Memᴰ r (collect h scan c s keys) → ReadAt c s keys r)
      → Memᴰ r (y ∷ collect h scan c s keys)
      → ReadAt c s (x ∷ keys) r
  collected c s x keys f rest (head q) = (x, head refl, f ∙ ap (λ a. ok a) (sym q))
  collected c s x keys f rest (tail m) = later c s x keys (rest m)

  collect-sound :
      {A : Type 0} (c : Codec A) (s : S) (keys : List Text) {r : A}
      → Memᴰ r (collect h scan c s keys)
      → ReadAt c s keys r
  unfolding collect
  collect-sound c s [] m = absurd (not-nil m)
  collect-sound c s (x ∷ keys) {r = r} m = elim (Result-cases (fetch h c s x)) [
    | inl (y, f) ↦
        let here : Memᴰ r (y ∷ collect h scan c s keys) = rw (collect, f) at m in
        collected c s x keys f (collect-sound c s keys) here
    | inr (y, f) ↦
        let there : Memᴰ r (collect h scan c s keys) = rw (collect, f) at m in
        later c s x keys (collect-sound c s keys there)
  ]

  -- A listing of the active robots that succeeds has exactly the robots whose values can be read at the
  -- keys that SCAN gave: one value that cannot be read hides no other.
  pub get_all_active_robots_iff :
      (s : S) (robots : List ActiveRobot) (r : ActiveRobot)
      → get_all_active_robots h scan s ≡ some robots
      → Memᴰ r robots ↔ ReadAt h.active_codec s (scan s (codes "robot:*:active")).0 r
  unfolding get_all_active_robots list_matching
  get_all_active_robots_iff s robots r e = elim (Bool-cases (scan s (codes "robot:*:active")).1) [
    | inr f ↦
        let failed : none ≡ some robots = rw (get_all_active_robots, f) at e in
        absurd (none≢some failed)
    | inl f ↦
        let listed : some (collect h scan h.active_codec s (scan s (codes "robot:*:active")).0)
            ≡ some robots =
          rw (get_all_active_robots, f) at e in
        rw (sym (some_inj listed))
          (collect-sound h.active_codec s _, collect-complete h.active_codec s _)
  ]
