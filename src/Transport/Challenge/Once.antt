-- ===== src/Transport/Challenge/Once.antt =====
-- A nonce of roboserver/udp_server/udp_server.go or roboserver/mqtt_server/mqtt_server.go is good for
-- one session.
use mathlib.Core.Path.{subst}
use robomesh.Prelude.{
  none, List, [], ◌∷◌, Bool-cases, text_eq_iff, ◌≡◌, ◌≢◌, sym, ◌∙◌, inl, inr, none≢some, Text,
  text_eq,
}
use robomesh.Prelude.Results.{ok}
use robomesh.Database.Client.{RedisLaws}
use robomesh.Auth.Handshake.{AuthEnv, Draws}
use robomesh.Transport.Kept.{Foreign}
use robomesh.Transport.Challenge.{Granted, redeem}
use robomesh.Transport.Challenge.Pending.{redeem-contents}
use robomesh.Transport.Challenge.Redeemed.{redeem-Checked}

-- An answer of some robot: the arguments of redeem.
pub record Attempt : Type 0 where
  pub key : Text
  pub uuid : Text
  pub signature : Text
  pub ip : Text
  pub draws : Draws

module _ {S D : Type 0} (env : AuthEnv S D) where
  -- The state after one answer, and after some, the first of them in front.
  unfoldable pub redeem_as : Attempt → S → S
  unfolding redeem
  redeem_as a s = (redeem env a.key a.uuid a.signature a.ip a.draws s).0

  unfoldable pub redeem_each : List Attempt → S → S
  unfolding redeem_as
  redeem_each [] s = s
  redeem_each (a ∷ rest) s = redeem_each rest (redeem_as a s)

  module _ (laws : RedisLaws env.redis.client) where
    -- An answer leaves a key without a nonce as it is, under whatever key it looks for its own.
    redeem-missing :
        (key : Text) (a : Attempt) (s : S)
        → Foreign key
        → laws.contents s key ≡ none
        → laws.contents (redeem_as a s) key ≡ none
    unfolding redeem_as
    redeem-missing key a s f h =
        redeem-contents env laws a.key a.uuid a.signature a.ip a.draws s key (f.no_session a.uuid)
        ∙ elim (Bool-cases (text_eq a.key key)) [
          | inr n ↦ laws.get_del_other s a.key key n ∙ h
          | inl e ↦
              let same = (text_eq_iff a.key key).0 e in
              subst (λ k. laws.contents (env.redis.client.get_del s k).0 key ≡ none) (sym same)
                (elim (laws.get_del_either s key) [ inl g ↦ g | inr g ↦ g ∙ h ])
        ]

    redeem_each-missing :
        (key : Text) (rest : List Attempt) (s : S)
        → Foreign key
        → laws.contents s key ≡ none
        → laws.contents (redeem_each rest s) key ≡ none
    unfolding redeem_each
    redeem_each-missing key [] s f h = h
    redeem_each-missing key (a ∷ rest) s f h =
        redeem_each-missing key rest (redeem_as a s) f (redeem-missing key a s f h)

    -- Once a session has been granted for the nonce under a key, which is none of the keys of sessions
    -- and heartbeats, no later answer under this key is accepted, whatever answers under any keys have
    -- been tried in between, as long as no new nonce is issued and nothing else writes to Redis. Redis
    -- is taken to keep its documented laws.
    pub redeem-once :
        (key uuid signature ip : Text) (draws : Draws) (s : S) (granted : Granted)
        → Foreign key
        → (redeem env key uuid signature ip draws s).1 ≡ ok granted
        → (between : List Attempt) (uuid' signature' ip' : Text) (draws' : Draws) (again : Granted)
        → (redeem env key uuid' signature' ip' draws'
            (redeem_each between (redeem env key uuid signature ip draws s).0)).1
          ≢ ok again
    redeem-once key uuid signature ip draws s granted f h between uuid' signature' ip' draws' again
          h' =
        let c = redeem-Checked env laws key uuid signature ip draws s granted h in
        let gone = (laws.get_del_found s key c.cache c.replied).1 in
        let after = (redeem env key uuid signature ip draws s).0 in
        let empty =
          redeem-contents env laws key uuid signature ip draws s key (f.no_session uuid) ∙ gone in
        let later = redeem_each between after in
        let c' = redeem-Checked env laws key uuid' signature' ip' draws' later again h' in
        let there = (laws.get_del_found later key c'.cache c'.replied).0 in
        none≢some (sym (redeem_each-missing key between after f empty) ∙ there)
