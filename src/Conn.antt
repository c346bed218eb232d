-- ===== src/Conn.antt =====
-- A line-based connection to a robot, as the TCP code of roboserver/auth/handshake.go and
-- roboserver/tcp_server/tcp_server.go uses it: the lines that the scanner will deliver before the
-- peer closes or a deadline passes, the lines written, and the rest of the server's state. Errors of
-- conn.Write are ignored there, so a write always succeeds here.
use robomesh.Prelude.{
  Bool, true, false, Option, none, some, List, [], ◌∷◌, ◌++◌, ◌≡◌, refl, ap, Text,
}
use robomesh.Prelude.Results.{Result, ok, err}

pub record Conn {ℓ} (W : Type ℓ) : Type ℓ where
  pub world : W
  pub input : List Text
  pub output : List Text

-- A handler that may return early; what it did before that stays done.
abbrev pub Handler {ℓ} : Type ℓ → Type 0 → Type 0 → Type ℓ
Handler W E A = Conn W → Result E A × Conn W

module _ {ℓ} {W : Type ℓ} {E : Type 0} where
  abbrev pub continue : {A B : Type 0} → Result E A → (A → Handler W E B) → Handler W E B
  continue (ok a) f c = f a c
  continue (err e) f c = (err e, c)

  infixl 10 ◌>>=◌ ◌>>◌
  unfoldable pub ◌>>=◌ : {A B : Type 0} → Handler W E A → (A → Handler W E B) → Handler W E B
  ◌>>=◌ m f c = let (r, c') = m c in continue r f c'

  abbrev pub ◌>>◌ : {B : Type 0} → Handler W E (Unit {0}) → Handler W E B → Handler W E B
  m >> k = m >>= λ _. k

  abbrev pub pure : {A : Type 0} → A → Handler W E A
  pure a c = (ok a, c)

  abbrev pub stop : {A : Type 0} → E → Handler W E A
  stop e c = (err e, c)

  -- conn.Write of a line
  abbrev pub write : Text → Handler W E (Unit {0})
  write line c = (ok tt, record c { output = c.output ++ line ∷ [] })

  -- scanner.Scan: the next line, or an early return where there is none.
  unfoldable pub scan : E → Handler W E Text
  scan e c = elim c.input [ [] ↦ (err e, c) | line ∷ rest ↦ (ok line, record c { input = rest }) ]

  -- Where the test fails a line is written and the handler returns.
  unfoldable pub require : Bool → Text → E → Handler W E (Unit {0})
  require true line e c = (ok tt, c)
  require false line e c = (err e, record c { output = c.output ++ line ∷ [] })

  unfoldable pub expect : {A : Type 0} → Option A → Text → E → Handler W E A
  expect (some a) line e c = (ok a, c)
  expect none line e c = (err e, record c { output = c.output ++ line ∷ [] })

  -- A value that is missing ends the handler without a line.
  unfoldable pub demand : {A : Type 0} → Option A → E → Handler W E A
  demand (some a) e c = (ok a, c)
  demand none e c = (err e, c)

  -- The inversions of these steps, where the whole handler succeeds.
  pub require-ok :
      {B : Type 0} (b : Bool) (line : Text) (e : E) (m : Handler W E B) (c : Conn W) {r : B}
      {c' : Conn W}
      → (require b line e >> m) c ≡ (ok r, c')
      → (b ≡ true) × (m c ≡ (ok r, c'))
  unfolding ◌>>=◌ require
  require-ok true line e m c h = (refl, h)
  require-ok false line e m c h = cc (ap (λ p. p.0) h)

  pub expect-ok :
      {A B : Type 0} (o : Option A) (line : Text) (e : E) (f : A → Handler W E B) (c : Conn W)
      {r : B} {c' : Conn W}
      → (expect o line e >>= f) c ≡ (ok r, c')
      → (a : A) × (o ≡ some a) × (f a c ≡ (ok r, c'))
  unfolding ◌>>=◌ expect
  expect-ok (some a) line e f c h = (a, refl, h)
  expect-ok none line e f c h = cc (ap (λ p. p.0) h)

  pub demand-ok :
      {A B : Type 0} (o : Option A) (e : E) (f : A → Handler W E B) (c : Conn W) {r : B}
      {c' : Conn W}
      → (demand o e >>= f) c ≡ (ok r, c')
      → (a : A) × (o ≡ some a) × (f a c ≡ (ok r, c'))
  unfolding ◌>>=◌ demand
  demand-ok (some a) e f c h = (a, refl, h)
  demand-ok none e f c h = cc (ap (λ p. p.0) h)

  pub write-ok :
      {B : Type 0} (line : Text) (m : Handler W E B) (c : Conn W) {r : B} {c' : Conn W}
      → (write line >> m) c ≡ (ok r, c')
      → m (record c { output = c.output ++ line ∷ [] }) ≡ (ok r, c')
  unfolding ◌>>=◌
  write-ok line m c h = h

  scan_lines :
      {B : Type 0} (ls : List Text) (e : E) (f : Text → Handler W E B) (w : W) (out : List Text)
      {r : B} {c' : Conn W}
      → (scan e >>= f) (record { world = w; input = ls; output = out }) ≡ (ok r, c')
      → (line : Text) × (rest : List Text) × (ls ≡ line ∷ rest)
        × (f line (record { world = w; input = rest; output = out }) ≡ (ok r, c'))
  unfolding ◌>>=◌ scan
  scan_lines [] e f w out h = cc (ap (λ p. p.0) h)
  scan_lines (l ∷ ls) e f w out h = (l, ls, refl, h)

  pub scan-ok :
      {B : Type 0} (e : E) (f : Text → Handler W E B) (c : Conn W) {r : B} {c' : Conn W}
      → (scan e >>= f) c ≡ (ok r, c')
      → (line : Text) × (rest : List Text) × (c.input ≡ line ∷ rest)
        × (f line (record c { input = rest }) ≡ (ok r, c'))
  scan-ok e f c h = scan_lines c.input e f c.world c.output h

  pub bind-ok :
      {A B : Type 0} (m : Handler W E A) (f : A → Handler W E B) (c : Conn W) {r : B} {c' : Conn W}
      → (m >>= f) c ≡ (ok r, c')
      → (a : A) × (c₁ : Conn W) × (m c ≡ (ok a, c₁)) × (f a c₁ ≡ (ok r, c'))
  unfolding ◌>>=◌
  bind-ok {A} {B} m f c {r} {c'} h = split (m c) refl h
    where
      split :
          (p : Result E A × Conn W)
          → m c ≡ p
          → continue p.0 f p.1 ≡ (ok r, c')
          → (a : A) × (c₁ : Conn W) × (m c ≡ (ok a, c₁)) × (f a c₁ ≡ (ok r, c'))
      split (ok a, c₁) e k = (a, c₁, e, k)
      split (err x, c₁) e k = cc (ap (λ p. p.0) k)
