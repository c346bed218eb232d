-- ===== src/Auth/Verify/Sound.antt =====
-- What it means that roboserver/auth/verify.go accepts a signature.
use robomesh.Prelude.{ℕ, ◌+◌, ◌*◌, ◌/◌, true, some, ◌≡◌, ◌↔◌, refl, arith, Text, length, ◌==◌, ◌∙◌}
use robomesh.Prelude.Results.{Result, ok, err, or_fail-ok, guard-ok}
use robomesh.Prelude.Hex.{hex_decode}
use robomesh.Auth.Verify.{
  Crypto, PublicKey, ed25519, ecdsa, other_key, VerifyError, check_key, verify_signature,
  verify_ed25519_hex, verify_robot_signature, set_bytes, take, drop, public_key_size,
  signature_size,
}

module _ (cr : Crypto) where
  -- The bytes `sig` are a signature of the bytes `nonce` under a parsed key.
  pub data SignedBy (nonce sig : Text) : PublicKey → Type 0 where
    by_ed25519 :
        (key : Text) → cr.ed25519_verify key nonce sig ≡ true → SignedBy nonce sig (ed25519 key)
    by_ecdsa :
        (bits : ℕ) (key : Text)
        → length sig ≡ 2 * ((bits + 7) / 8)
        → cr.ecdsa_verify key
            (cr.sha256 nonce)
            (set_bytes 0 (take ((bits + 7) / 8) sig))
            (set_bytes 0 (drop ((bits + 7) / 8) sig))
          ≡ true
        → SignedBy nonce sig (ecdsa bits key)

  -- The hexadecimal signature fits the hexadecimal nonce under the key that the robot registered.
  pub data Authentic (public_key nonce_hex signature_hex : Text) : Type 0 where
    by_pem :
        (block : Text) (key : PublicKey) (nonce sig : Text)
        → cr.pem_decode public_key ≡ some block
        → cr.parse_pkix block ≡ some key
        → hex_decode nonce_hex ≡ some nonce
        → hex_decode signature_hex ≡ some sig
        → SignedBy nonce sig key
        → Authentic public_key nonce_hex signature_hex
    by_raw_key :
        (key nonce sig : Text)
        → hex_decode public_key ≡ some key
        → length key ≡ public_key_size
        → hex_decode nonce_hex ≡ some nonce
        → hex_decode signature_hex ≡ some sig
        → length sig ≡ signature_size
        → cr.ed25519_verify key nonce sig ≡ true
        → Authentic public_key nonce_hex signature_hex

  check_key-SignedBy :
      (k : PublicKey) (nonce sig : Text) → check_key cr k nonce sig ≡ ok tt → SignedBy nonce sig k
  unfolding check_key
  check_key-SignedBy (ed25519 key) nonce sig h = by_ed25519 key (ground arith)
  check_key-SignedBy (ecdsa bits key) nonce sig h = by_ecdsa bits key (ground arith) (ground arith)
  check_key-SignedBy other_key nonce sig h = cc

  SignedBy-check_key :
      {k : PublicKey} {nonce sig : Text} → SignedBy nonce sig k → check_key cr k nonce sig ≡ ok tt
  unfolding check_key
  SignedBy-check_key (by_ed25519 key v) = ground arith
  SignedBy-check_key (by_ecdsa bits key l v) = ground arith

  verify_signature-Authentic : (p n s : Text) → verify_signature cr p n s ≡ ok tt → Authentic p n s
  unfolding verify_signature
  verify_signature-Authentic p n s h =
      let (block, e₁, h₁) = or_fail-ok (cr.pem_decode p) _ _ h in
      let (key, e₂, h₂) = or_fail-ok (cr.parse_pkix block) _ _ h₁ in
      let (sig, e₃, h₃) = or_fail-ok (hex_decode s) _ _ h₂ in
      let (nonce, e₄, h₄) = or_fail-ok (hex_decode n) _ _ h₃ in
      by_pem block key nonce sig e₁ e₂ e₄ e₃ (check_key-SignedBy key nonce sig h₄)

  verify_ed25519_hex-Authentic :
      (p n s : Text) → verify_ed25519_hex cr p n s ≡ ok tt → Authentic p n s
  unfolding verify_ed25519_hex
  verify_ed25519_hex-Authentic p n s h =
      let (key, e₁, h₁) = or_fail-ok (hex_decode p) _ _ h in
      let (l₁, h₂) = guard-ok (length key == public_key_size) _ _ h₁ in
      let (sig, e₂, h₃) = or_fail-ok (hex_decode s) _ _ h₂ in
      let (l₂, h₄) = guard-ok (length sig == signature_size) _ _ h₃ in
      let (nonce, e₃, h₅) = or_fail-ok (hex_decode n) _ _ h₄ in
      by_raw_key key nonce sig e₁ (ground arith) e₃ e₂ (ground arith) (ground arith)

  Authentic-verify : (p n s : Text) → Authentic p n s → verify_robot_signature cr p n s ≡ ok tt
  unfolding verify_robot_signature
  Authentic-verify p n s (by_pem block key nonce sig e₁ e₂ e₃ e₄ v) =
      ground (arith, SignedBy-check_key v)
  Authentic-verify p n s (by_raw_key key nonce sig e₁ l₁ e₂ e₃ l₂ v) = ground arith

  -- A signature is accepted exactly if it is authentic: for the registered key, read as PEM with an
  -- Ed25519 or ECDSA key inside or as a raw Ed25519 key, it signs the bytes of the nonce.
  pub verify_robot_signature_iff :
      (p n s : Text) → (verify_robot_signature cr p n s ≡ ok tt) ↔ Authentic p n s
  verify_robot_signature_iff p n s = (accepted, Authentic-verify p n s)
    where
      split :
          (r : Result VerifyError (Unit {0}))
          → verify_signature cr p n s ≡ r
          → elim r [ ok u ↦ ok u | err e ↦ verify_ed25519_hex cr p n s ] ≡ ok tt
          → Authentic p n s
      split (ok u) e h = verify_signature-Authentic p n s (e ∙ h)
      split (err x) e h = verify_ed25519_hex-Authentic p n s h

      accepted : verify_robot_signature cr p n s ≡ ok tt → Authentic p n s
      accepted = unfold verify_robot_signature in split (verify_signature cr p n s) refl
