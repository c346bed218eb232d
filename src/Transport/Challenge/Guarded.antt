-- ===== src/Transport/Challenge/Guarded.antt =====
-- The nonces of all robots under the keys of one server (roboserver/udp_server/udp_server.go,
-- roboserver/mqtt_server/mqtt_server.go), each with what it waits for.
use mathlib.Core.Path.{subst}
use robomesh.Prelude.{
  false, Option, some, ◌≡◌, sym, ◌∙◌, inl, inr, Bool-cases, Text, text_eq, text_eq_iff,
}
use robomesh.Database.Client.{RedisLaws}
use robomesh.Auth.Handshake.{AuthEnv, Draws}
use robomesh.Transport.Kept.{Foreign}
use robomesh.Transport.Challenge.{issue_nonce, redeem}
use robomesh.Transport.Challenge.Pending.{
  Offered, Pending, Drawn, issue_nonce-Pending, issue_nonce-other, redeem-Pending, redeem-contents,
}

-- The keys of a server: apart for different robots, and of no session or heartbeat.
pub record NonceKeys (key : Text → Text) : Type 0 where
  pub apart : (u v : Text) → text_eq u v ≡ false → text_eq (key u) (key v) ≡ false
  pub foreign : (u : Text) → Foreign (key u)

module _ {S D : Type 0} (env : AuthEnv S D) (laws : RedisLaws env.redis.client)
    (Source : Text → Text → Type 0) (key : Text → Text) where
  -- Whatever waits under a nonce key is an offer to the robot of the key.
  abbrev pub Guarded : D → S → Type 0
  Guarded d s = (uuid : Text) → Pending env laws Source (key uuid) uuid d s

  pub same-Guarded :
      (d e : D) (s t : S)
      → e ≡ d
      → ((uuid : Text) → laws.contents t (key uuid) ≡ laws.contents s (key uuid))
      → Guarded d s
      → Guarded e t
  same-Guarded d e s t p same g uuid value h =
      subst (λ x. Offered env laws Source x uuid value) (sym p) (g uuid value (sym (same uuid) ∙ h))

  -- A step at the key of one robot that is right for this robot and leaves the others alone.
  at-Guarded :
      (d : D) (s t : S) (uuid : Text)
      → Pending env laws Source (key uuid) uuid d t
      → ((u : Text) → text_eq uuid u ≡ false → laws.contents t (key u) ≡ laws.contents s (key u))
      → Guarded d s
      → Guarded d t
  at-Guarded d s t uuid here elsewhere g u value h = elim (Bool-cases (text_eq uuid u)) [
    | inl e ↦
        let same = (text_eq_iff uuid u).0 e in
        subst (λ x. Offered env laws Source d x value) same
          (here value (subst (λ x. laws.contents t (key x) ≡ some value) (sym same) h))
    | inr e ↦ g u value (sym (elsewhere u e) ∙ h)
  ]

  module _ (keys : NonceKeys key) where
    pub issue_nonce-Guarded :
        (uuid : Text) (random : Option Text) (d : D) (s : S)
        → Drawn (Source uuid) random
        → Guarded d s
        → Guarded d (issue_nonce env (key uuid) uuid random d s).0
    issue_nonce-Guarded uuid random d s r g =
        at-Guarded d s (issue_nonce env (key uuid) uuid random d s).0 uuid
          (issue_nonce-Pending env laws Source (key uuid) uuid random d s r (g uuid))
          (λ u n.
            issue_nonce-other env laws Source (key uuid) uuid random d s (key u) r
              (keys.apart uuid u n))
          g

    pub redeem-Guarded :
        (uuid signature ip : Text) (draws : Draws) (d : D) (s : S)
        → Guarded d s
        → Guarded d (redeem env (key uuid) uuid signature ip draws s).0
    redeem-Guarded uuid signature ip draws d s g =
        at-Guarded d s (redeem env (key uuid) uuid signature ip draws s).0 uuid
          (redeem-Pending env laws Source (key uuid) uuid signature ip draws d s
            (let f = keys.foreign uuid in f.no_session uuid) (g uuid))
          (λ u n.
            let f = keys.foreign u in
            redeem-contents env laws (key uuid) uuid signature ip draws s (key u)
              (f.no_session uuid)
            ∙ laws.get_del_other s (key uuid) (key u) (keys.apart uuid u n))
          g
