-- ===== src/HandlerEngine/Registry.antt =====
-- roboserver/handler_engine/registry.go: which device types are safe to look up as directories. The
-- look-ups in the file system are not modelled.
use robomesh.Prelude.{
  ℕ, ◌≤◌, Bool, true, false, ◌&&◌, ◌||◌, [], ◌∷◌, ◌≡◌, refl, Text, arith, leb, ◌==◌, length,
}
use robomesh.Prelude.Bytes.{contains}

-- [a-zA-Z0-9_-]
unfoldable pub is_type_char : ℕ → Bool
is_type_char c =
    (leb b'a' c && leb c b'z')
    || (leb b'A' c && leb c b'Z')
    || (leb b'0' c && leb c b'9')
    || c == b'_'
    || c == b'-'

unfoldable pub all_type_chars : Text → Bool
unfolding is_type_char
all_type_chars [] = true
all_type_chars (c ∷ s) = is_type_char c && all_type_chars s

-- ^[a-zA-Z0-9_-]{1,64}$
unfoldable pub is_valid_device_type : Text → Bool
unfolding all_type_chars
is_valid_device_type dt = all_type_chars dt && leb 1 (length dt) && leb (length dt) 64

all_type_chars-clean :
    (c : ℕ) (s : Text) → is_type_char c ≡ false → all_type_chars s ≡ true → contains c s ≡ false
unfolding all_type_chars contains
all_type_chars-clean c [] n h = refl
all_type_chars-clean c (x ∷ s) n h = ground (arith, all_type_chars-clean c s n)

-- A device type that is accepted is one path segment below the directory of handlers: it is not
-- empty, has at most 64 bytes and no slash, no dot and no NUL.
pub is_valid_device_type_safe :
    (dt : Text)
    → is_valid_device_type dt ≡ true
    → (1 ≤ length dt)
      × (length dt ≤ 64)
      × (contains b'/' dt ≡ false)
      × (contains b'.' dt ≡ false)
      × (contains 0 dt ≡ false)
unfolding is_valid_device_type
is_valid_device_type_safe dt h =
    let chars : all_type_chars dt ≡ true = ground arith in
    (
      ground arith,
      ground arith,
      all_type_chars-clean b'/' dt refl chars,
      all_type_chars-clean b'.' dt refl chars,
      all_type_chars-clean 0 dt refl chars,
    )
