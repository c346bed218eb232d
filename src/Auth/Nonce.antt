-- ===== src/Auth/Nonce.antt =====
-- roboserver/auth/nonce.go, and GenerateSessionID of jwt.go. What crypto/rand.Read gives is an
-- argument: the bytes, or `none` where it fails.
use robomesh.Prelude.{
  ℕ, ◌≤◌, false, Option, none, some, ◌++◌, ◌≡◌, Text, codes, length, ltb, if◌then◌else◌, arith,
}
use robomesh.Prelude.Bytes.{contains}
use robomesh.Prelude.Hex.{hex_encode, IsBytes, contains-hex_encode, hex_value, length-hex_encode}
use robomesh.Auth.Verify.{take}

unfoldable pub generate_nonce : Option Text → Option Text
generate_nonce none = none
generate_nonce (some b) = some (hex_encode b)

-- `none` is the panic of `nonce[:16]` on a shorter nonce; `nano` is the time printed by %d.
unfoldable pub generate_session_id : Option Text → Text → Option Text
unfolding generate_nonce take
generate_session_id random nano = elim (generate_nonce random) [
  | none ↦ some (codes "sess_" ++ nano)
  | some nonce ↦ if ltb (length nonce) 16 then none else some (codes "sess_" ++ take 16 nonce)
]

-- A nonce that was generated from bytes has no character that is not a hexadecimal digit, so none
-- of the separators that the servers put next to it.
pub generate_nonce_clean :
    (c : ℕ) (b nonce : Text)
    → IsBytes b
    → hex_value c ≡ none
    → generate_nonce (some b) ≡ some nonce
    → contains c nonce ≡ false
unfolding generate_nonce
generate_nonce_clean c b nonce h e g = ground (arith, contains-hex_encode c b h e)

-- Where crypto/rand gives at least eight bytes, a session id is generated and the slice of the
-- nonce is in range.
pub generate_session_id_total :
    (b nano : Text) → 8 ≤ length b → (id : Text) × (generate_session_id (some b) nano ≡ some id)
unfolding generate_session_id
generate_session_id_total b nano h =
    (codes "sess_" ++ take 16 (hex_encode b), ground (arith, length-hex_encode b))
