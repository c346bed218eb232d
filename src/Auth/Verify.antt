-- ===== src/Auth/Verify.antt =====
-- roboserver/auth/verify.go and VerifyRobotSignature of handshake.go. The functions of Go's crypto
-- packages are parameters; hex decoding and the checks on lengths are written out.
pub mod Sound
pub mod Unusable
use robomesh.Prelude.{
  ℕ, ◌+◌, ◌*◌, ◌/◌, Bool, true, false, Option, none, some, [], ◌∷◌, List, Text, ◌==◌, length,
  if◌then◌else◌, zero, suc, not,
}
use robomesh.Prelude.Results.{Result, ok, err, ◌>>=◌, ◌>>◌, guard, or_fail}
use robomesh.Prelude.Hex.{hex_decode}

-- The dynamic type of the key that x509.ParsePKIXPublicKey returns. An ECDSA key comes with the bit
-- size of its curve.
pub data PublicKey : Type 0 where
  ed25519 : Text → PublicKey
  ecdsa : ℕ → Text → PublicKey
  other_key : PublicKey

pub record Crypto : Type 0 where
  pub pem_decode : Text → Option Text
  pub parse_pkix : Text → Option PublicKey
  pub ed25519_verify : Text → Text → Text → Bool
  pub sha256 : Text → Text
  pub ecdsa_verify : Text → Text → ℕ → ℕ → Bool
  -- elliptic.Unmarshal on P-256 gives a point
  pub p256_unmarshal : Text → Bool

pub data VerifyError : Type 0 where
  invalid_public_key invalid_signature : VerifyError

-- big.Int.SetBytes: the bytes as a big-endian number.
unfoldable pub set_bytes : ℕ → Text → ℕ
set_bytes acc [] = acc
set_bytes acc (x ∷ xs) = set_bytes (acc * 256 + x) xs

unfoldable pub take : ℕ → Text → Text
take zero s = []
take (suc n) [] = []
take (suc n) (x ∷ s) = x ∷ take n s

unfoldable pub drop : ℕ → Text → Text
drop zero s = s
drop (suc n) [] = []
drop (suc n) (x ∷ s) = drop n s

abbrev pub public_key_size : ℕ
public_key_size = 32

abbrev pub signature_size : ℕ
signature_size = 64

module _ (cr : Crypto) where
  -- The switch on the type of the key.
  unfoldable pub check_key : PublicKey → Text → Text → Result VerifyError (Unit {0})
  unfolding set_bytes take drop
  check_key (ed25519 key) nonce sig = guard (cr.ed25519_verify key nonce sig) invalid_signature
  check_key (ecdsa bits key) nonce sig =
      let half : ℕ = (bits + 7) / 8 in
      do
        guard (length sig == 2 * half) invalid_signature
        guard
            (cr.ecdsa_verify key (cr.sha256 nonce) (set_bytes 0 (take half sig))
              (set_bytes 0 (drop half sig)))
            invalid_signature
  check_key other_key nonce sig = err invalid_public_key

  unfoldable pub verify_signature : Text → Text → Text → Result VerifyError (Unit {0})
  unfolding check_key
  verify_signature public_key_pem nonce_hex signature_hex = do
    block ← or_fail (cr.pem_decode public_key_pem) invalid_public_key
    key ← or_fail (cr.parse_pkix block) invalid_public_key
    sig ← or_fail (hex_decode signature_hex) invalid_signature
    nonce ← or_fail (hex_decode nonce_hex) invalid_signature
    check_key key nonce sig

  unfoldable pub verify_ed25519_hex : Text → Text → Text → Result VerifyError (Unit {0})
  verify_ed25519_hex public_key_hex nonce_hex signature_hex = do
    key ← or_fail (hex_decode public_key_hex) invalid_public_key
    guard (length key == public_key_size) invalid_public_key
    sig ← or_fail (hex_decode signature_hex) invalid_signature
    guard (length sig == signature_size) invalid_signature
    nonce ← or_fail (hex_decode nonce_hex) invalid_signature
    guard (cr.ed25519_verify key nonce sig) invalid_signature

  -- PEM first, then a raw hexadecimal Ed25519 key.
  unfoldable pub verify_robot_signature : Text → Text → Text → Result VerifyError (Unit {0})
  unfolding verify_signature verify_ed25519_hex
  verify_robot_signature public_key nonce signature =
      elim (verify_signature public_key nonce signature) [
        | ok u ↦ ok u
        | err e ↦ verify_ed25519_hex public_key nonce signature
      ]

  unfoldable pub parse_ed25519_public_key_hex : Text → Result VerifyError Text
  parse_ed25519_public_key_hex hex_key = do
    b ← or_fail (hex_decode hex_key) invalid_public_key
    guard (length b == public_key_size) invalid_public_key
    ok b

  unfoldable pub is_valid_public_key : Text → Bool
  is_valid_public_key key = elim (cr.pem_decode key) [
    | some block ↦ elim (cr.parse_pkix block) [ none ↦ false | some k ↦ true ]
    | none ↦
        if length key == 2 * public_key_size
        then elim (hex_decode key) [ none ↦ false | some b ↦ true ]
        else (if length key == 130
            then elim (hex_decode key) [ none ↦ false | some b ↦ cr.p256_unmarshal b ]
            else false)
  ]
