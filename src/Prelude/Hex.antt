-- ===== src/Prelude/Hex.antt =====
-- encoding/hex: EncodeToString and DecodeString, which is the inverse on bytes.
use robomesh.Prelude.{
  ℕ, ◌+◌, ◌-◌, ◌*◌, ◌/◌, ◌%◌, ◌<◌, ◌≡◌, refl, ap, none≢some, some_inj, ◌&&◌, Option, none, some, [],
  ◌∷◌, arith, leb, ltb, if◌then◌else◌, Text, All, false, length,
}
use robomesh.Prelude.Bytes.{contains}

unfoldable pub hex_digit : ℕ → ℕ
hex_digit n = if ltb n 10 then b'0' + n else b'a' + n - 10

unfoldable pub hex_value : ℕ → Option ℕ
hex_value c =
    if leb b'0' c && leb c b'9'
    then some (c - b'0')
    else (if leb b'a' c && leb c b'f'
        then some (c - b'a' + 10)
        else (if leb b'A' c && leb c b'F' then some (c - b'A' + 10) else none))

unfoldable pub hex_encode : Text → Text
unfolding hex_digit
hex_encode [] = []
hex_encode (x ∷ xs) = hex_digit (x / 16) ∷ hex_digit (x % 16) ∷ hex_encode xs

hex_cons : Option ℕ → Option ℕ → Option Text → Option Text
hex_cons (some a) (some b) (some r) = some ((a * 16 + b) ∷ r)
hex_cons _ _ _ = none

-- An odd length and a byte that is no digit are errors.
unfoldable pub hex_decode : Text → Option Text
unfolding hex_value hex_cons
hex_decode [] = some []
hex_decode (a ∷ []) = none
hex_decode (a ∷ b ∷ r) = hex_cons (hex_value a) (hex_value b) (hex_decode r)

abbrev pub IsBytes : Text → Type 0
IsBytes = All (λ x. x < 256)

hex_value-hex_digit : (n : ℕ) → n < 16 → hex_value (hex_digit n) ≡ some n
unfolding hex_value hex_digit
hex_value-hex_digit n h = ground arith

-- A byte string is decoded from its encoding.
pub hex_decode-hex_encode : (s : Text) → IsBytes s → hex_decode (hex_encode s) ≡ some s
unfolding hex_decode hex_encode
hex_decode-hex_encode [] h = refl
hex_decode-hex_encode (x ∷ xs) h =
    ground
      (arith, hex_value-hex_digit (x / 16), hex_value-hex_digit (x % 16), hex_decode-hex_encode xs)

-- No separator that the server uses occurs in an encoding.
pub contains-hex_encode :
    (c : ℕ) (s : Text) → IsBytes s → hex_value c ≡ none → contains c (hex_encode s) ≡ false
unfolding contains hex_encode
contains-hex_encode c [] h e = refl
contains-hex_encode c (x ∷ xs) h e =
    ground
      (arith, hex_value-hex_digit (x / 16), hex_value-hex_digit (x % 16), contains-hex_encode c xs)

pub length-hex_encode : (s : Text) → length (hex_encode s) ≡ 2 * length s
unfolding hex_encode
length-hex_encode [] = refl
length-hex_encode (x ∷ xs) = omega (arith, length-hex_encode xs)

length-hex_cons :
    (a b : Option ℕ) (r : Option Text) {s : Text}
    → hex_cons a b r ≡ some s
    → (t : Text) × (r ≡ some t) × (length s ≡ 1 + length t)
unfolding hex_cons
length-hex_cons (some a) (some b) (some r) h = (r, refl, omega (arith, ap length (some_inj h)))
length-hex_cons none b r h = absurd (none≢some h)
length-hex_cons (some a) none r h = absurd (none≢some h)
length-hex_cons (some a) (some b) none h = absurd (none≢some h)

pub length-hex_decode : (t : Text) {s : Text} → hex_decode t ≡ some s → length t ≡ 2 * length s
unfolding hex_decode
length-hex_decode [] h = ap (λ x. 2 * length x) (some_inj h)
length-hex_decode (a ∷ []) h = absurd (none≢some h)
length-hex_decode (a ∷ b ∷ r) h =
    let (t, e, l) = length-hex_cons (hex_value a) (hex_value b) (hex_decode r) h in
    omega (arith, l, length-hex_decode r e)
