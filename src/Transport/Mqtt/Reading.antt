-- ===== src/Transport/Mqtt/Reading.antt =====
-- A client of roboserver/mqtt_server reads the private topics of the robot that it is, and of no other.
use robomesh.Prelude.{
  ℕ, true, false, some, [], ◌∷◌, ◌++◌, ◌≡◌, refl, ap, Text, codes, length, length-append, arith,
  text_eq_refl, text_eq-ne,
}
use robomesh.Prelude.Bytes.{text_eq, strip_prefix, has_prefix, has_suffix, trim_suffix}
use robomesh.Transport.Mqtt.{on_acl_check}

strip_prefix-append : (p s : Text) → strip_prefix p (p ++ s) ≡ some s
unfolding strip_prefix
strip_prefix-append [] s = refl
strip_prefix-append (x ∷ p) s = ground (arith, strip_prefix-append p s)

-- A longer text is not its own suffix.
longer_ne : (x : ℕ) (s p : Text) → text_eq (x ∷ (s ++ p)) p ≡ false
longer_ne x s p = text_eq-ne _ _ λ e. omega (arith, ap length e, length-append s p)

has_suffix-append : (s p : Text) → has_suffix (s ++ p) p ≡ true
unfolding has_suffix
has_suffix-append [] [] = refl
has_suffix-append [] (x ∷ p) = ground (arith, text_eq_refl (x ∷ p))
has_suffix-append (x ∷ s) p = ground (arith, has_suffix-append s p)

trim_suffix_self : (p : Text) → trim_suffix p p ≡ []
unfolding trim_suffix
trim_suffix_self [] = refl
trim_suffix_self (x ∷ p) = ground (arith, text_eq_refl (x ∷ p))

trim_suffix-append : (s p : Text) → trim_suffix (s ++ p) p ≡ s
unfolding trim_suffix
trim_suffix-append [] p = trim_suffix_self p
trim_suffix-append (x ∷ s) p =
    rw (longer_ne x s p, trim_suffix) (ap (◌∷◌ x) (trim_suffix-append s p))

-- The three topics on which the server writes to one robot.
pub data PrivateTopic (uuid : Text) : Text → Type 0 where
  auth_response : PrivateTopic uuid (codes "robomesh/auth/" ++ (uuid ++ codes "/response"))
  heartbeat_response :
      PrivateTopic uuid (codes "robomesh/heartbeat/" ++ (uuid ++ codes "/response"))
  to_robot : PrivateTopic uuid (codes "robomesh/to_robot/" ++ uuid)

-- A private topic of a robot is read by the client whose id is the robot's UUID, and by no other.
pub on_acl_check-PrivateTopic :
    (client_id uuid topic : Text)
    → PrivateTopic uuid topic
    → on_acl_check client_id topic false ≡ text_eq uuid client_id
unfolding on_acl_check has_prefix strip_prefix
on_acl_check-PrivateTopic client_id uuid topic auth_response =
    ground (
      arith,
      has_suffix-append uuid (codes "/response"),
      trim_suffix-append uuid (codes "/response"),
    )
on_acl_check-PrivateTopic client_id uuid topic heartbeat_response =
    ground (
      arith,
      has_suffix-append uuid (codes "/response"),
      trim_suffix-append uuid (codes "/response"),
    )
on_acl_check-PrivateTopic client_id uuid topic to_robot = refl
