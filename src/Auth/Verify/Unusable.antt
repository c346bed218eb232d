-- ===== src/Auth/Verify/Unusable.antt =====
-- roboserver/auth/verify.go: a form of keys that IsValidPublicKey accepts and no check of a signature
-- reads.
use robomesh.Prelude.{none, some, ◌≡◌, ◌≢◌, sym, ◌∙◌, none≢some, Text, length, true, arith}
use robomesh.Prelude.Hex.{hex_decode, length-hex_decode}
use robomesh.Prelude.Results.{ok}
use robomesh.Auth.Verify.{Crypto, verify_robot_signature, is_valid_public_key}
use robomesh.Auth.Verify.Sound.{Authentic, by_pem, by_raw_key, verify_robot_signature_iff}

module _ (cr : Crypto) where
  no_signature :
      (key n s : Text) → cr.pem_decode key ≡ none → length key ≡ 130 → Authentic cr key n s → ⊥
  no_signature key n s p l (by_pem block k nonce sig e₁ e₂ e₃ e₄ v) = none≢some (sym p ∙ e₁)
  no_signature key n s p l (by_raw_key k nonce sig e₁ l₁ e₂ e₃ l₂ v) =
      omega (arith, length-hex_decode key e₁)

  -- A raw key of P-256 in hexadecimal (65 bytes that are a point, and no PEM) counts as a valid public
  -- key, but no signature is ever verified with it, so the robot that has it cannot log in.
  pub verify_robot_signature-raw_p256 :
      (key b n s : Text)
      → cr.pem_decode key ≡ none
      → hex_decode key ≡ some b
      → length b ≡ 65
      → cr.p256_unmarshal b ≡ true
      → (is_valid_public_key cr key ≡ true) × (verify_robot_signature cr key n s ≢ ok tt)
  unfolding is_valid_public_key
  verify_robot_signature-raw_p256 key b n s p e l v =
      let size : length key ≡ 130 = omega (arith, length-hex_decode key e, l) in
      (
        ground (arith, size, p, e, v),
        λ h. no_signature key n s p size ((verify_robot_signature_iff cr key n s).0 h),
      )
