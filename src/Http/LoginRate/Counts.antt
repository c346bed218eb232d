-- ===== src/Http/LoginRate/Counts.antt =====
-- The limiter of roboserver/http_server/auth.go against the full log of attempts: forgetting old
-- attempts, on a check or by the clean-up, never changes what a check answers.
use mathlib.Core.List.{append-nil, append_assoc}
use robomesh.Prelude.{
  ℕ, ◌≤◌, List, [], ◌∷◌, ◌++◌, ◌≡◌, refl, sym, ap, ◌∙◌, Text, text_eq, text_eq_iff, length, leb,
  if◌then◌else◌, arith, Bool-cases, inl, inr,
}
use robomesh.Prelude.Assoc.{lookup, insert, lookup-insert, lookup-delete, keys}
use robomesh.Http.LoginRate.{
  Attempts, login_max_attempts, valid, attempts, check_login_rate, record_login_attempt, store_kept,
  evict, evict_each, cleanup_rate_limiter,
}

-- What happens to the limiter: a check, a recorded attempt or a tick of the clean-up.
pub data Call : Type 0 where
  checks records : Text → Call
  cleans : Call

unfoldable pub call : ℕ → Call → Attempts → Attempts
unfolding check_login_rate
call now (checks ip) m = (check_login_rate now ip m).0
call now (records ip) m = record_login_attempt now ip m
call now cleans m = cleanup_rate_limiter now m

unfoldable pub run : List (ℕ × Call) → Attempts → Attempts
unfolding call
run [] m = m
run ((now, c) ∷ rest) m = run rest (call now c m)

-- Every attempt from an address that was recorded, with nothing forgotten.
unfoldable pub logged : Text → List (ℕ × Call) → List ℕ
logged ip [] = []
logged ip ((now, records j) ∷ rest) =
    let more = logged ip rest in if text_eq j ip then now ∷ more else more
logged ip ((now, checks j) ∷ rest) = logged ip rest
logged ip ((now, cleans) ∷ rest) = logged ip rest

-- The clock does not go back, and is at `last` in the end.
abbrev pub Ordered : ℕ → List (ℕ × Call) → ℕ → Type 0
Ordered t [] last = t ≤ last
Ordered t ((now, c) ∷ rest) last = (t ≤ now) × Ordered now rest last

valid-valid : (c n : ℕ) (ts : List ℕ) → c ≤ n → valid n (valid c ts) ≡ valid n ts
unfolding valid
valid-valid c n [] h = refl
valid-valid c n (t ∷ ts) h = ground (arith, valid-valid c n ts h)

valid-append : (n : ℕ) (xs ys : List ℕ) → valid n (xs ++ ys) ≡ valid n xs ++ valid n ys
unfolding valid
valid-append n [] ys = refl
valid-append n (t ∷ xs) ys = ground (arith, valid-append n xs ys)

attempts-insert :
    (m : Attempts) (ip j : Text) (ts : List ℕ)
    → attempts (insert ip ts m) j ≡ (if text_eq ip j then ts else attempts m j)
unfolding attempts
attempts-insert m ip j ts = ground (arith, lookup-insert ip j ts m)

attempts-store_kept :
    (m : Attempts) (ip j : Text) (ts : List ℕ)
    → attempts (store_kept ip ts m) j ≡ (if text_eq ip j then ts else attempts m j)
unfolding attempts
attempts-store_kept m ip j [] = ground (arith, lookup-delete ip j m)
attempts-store_kept m ip j (t ∷ ts) = attempts-insert m ip j (t ∷ ts)

-- An entry that was cut down at an earlier time has the same attempts after a later cutoff.
cut_down-valid :
    (m m' : Attempts) (t n : ℕ) (ip j : Text)
    → t ≤ n
    → attempts m' j ≡ (if text_eq ip j then valid t (attempts m ip) else attempts m j)
    → valid n (attempts m' j) ≡ valid n (attempts m j)
cut_down-valid m m' t n ip j h e = elim (Bool-cases (text_eq ip j)) [
  | inr ne ↦ ap (valid n) (rw ne at e)
  | inl eq ↦
      ap (valid n) (rw eq at e)
      ∙ valid-valid t n (attempts m ip) h
      ∙ ap (λ x. valid n (attempts m x)) ((text_eq_iff ip j).0 eq)
]

evict_each-valid :
    (t n : ℕ) (ips : List Text) (m : Attempts) (j : Text)
    → t ≤ n
    → valid n (attempts (evict_each t ips m) j) ≡ valid n (attempts m j)
unfolding evict_each
evict_each-valid t n [] m j h = refl
evict_each-valid t n (ip ∷ ips) m j h =
    evict_each-valid t n ips (evict t ip m) j h
    ∙ cut_down-valid m (evict t ip m) t n ip j h
        (attempts-store_kept m ip j (valid t (attempts m ip)))

recorded-valid :
    (m : Attempts) (t n : ℕ) (ip j : Text)
    → valid n (if text_eq ip j then attempts m ip ++ t ∷ [] else attempts m j)
      ≡ valid n (attempts m j) ++ valid n (if text_eq ip j then t ∷ [] else [])
unfolding valid
recorded-valid m t n ip j = elim (Bool-cases (text_eq ip j)) [
  | inr ne ↦ rw ne (sym (append-nil (valid n (attempts m j))))
  | inl eq ↦ rw eq (
      valid-append n (attempts m ip) (t ∷ [])
      ∙ ap (λ x. valid n (attempts m x) ++ valid n (t ∷ [])) ((text_eq_iff ip j).0 eq))
]

-- What a call adds to the log of an address.
unfoldable added : ℕ → Call → Text → List ℕ
added now (records j) ip = if text_eq j ip then now ∷ [] else []
added now (checks j) ip = []
added now cleans ip = []

call-valid :
    (t n : ℕ) (c : Call) (m : Attempts) (j : Text)
    → t ≤ n
    → valid n (attempts (call t c m) j) ≡ valid n (attempts m j) ++ valid n (added t c j)
unfolding call added cleanup_rate_limiter record_login_attempt valid
call-valid t n (checks ip) m j h =
    cut_down-valid m _ t n ip j h (attempts-insert m ip j (valid t (attempts m ip)))
    ∙ sym (append-nil (valid n (attempts m j)))
call-valid t n (records ip) m j h =
    ap (valid n) (attempts-insert m ip j (attempts m ip ++ t ∷ [])) ∙ recorded-valid m t n ip j
call-valid t n cleans m j h =
    evict_each-valid t n (keys m) m j h ∙ sym (append-nil (valid n (attempts m j)))

logged-step :
    (ip : Text) (t : ℕ) (c : Call) (rest : List (ℕ × Call))
    → logged ip ((t, c) ∷ rest) ≡ added t c ip ++ logged ip rest
unfolding logged added
logged-step ip t (checks j) rest = refl
logged-step ip t (records j) rest = ground arith
logged-step ip t cleans rest = refl

Ordered-le : (t : ℕ) (trace : List (ℕ × Call)) (last : ℕ) → Ordered t trace last → t ≤ last
Ordered-le t [] last h = h
Ordered-le t ((now, c) ∷ rest) last (h, hs) = omega (arith, Ordered-le now rest last hs)

run-valid :
    (t now : ℕ) (trace : List (ℕ × Call)) (m : Attempts) (ip : Text)
    → Ordered t trace now
    → valid now (attempts (run trace m) ip)
      ≡ valid now (attempts m ip) ++ valid now (logged ip trace)
unfolding run logged valid
run-valid t now [] m ip h = sym (append-nil (valid now (attempts m ip)))
run-valid t now ((u, c) ∷ rest) m ip (h, hs) =
    run-valid u now rest (call u c m) ip hs
    ∙ ap (λ x. x ++ valid now (logged ip rest)) (call-valid u now c m ip (Ordered-le u rest now hs))
    ∙ append_assoc (valid now (attempts m ip)) (valid now (added u c ip))
        (valid now (logged ip rest))
    ∙ ap (λ x. valid now (attempts m ip) ++ x)
        (sym (valid-append now (added u c ip) (logged ip rest))
          ∙ ap (valid now) (sym (logged-step ip u c rest)))

-- Whatever checks, attempts and clean-ups came before, at times that do not go back, an address is
-- over the limit exactly if the log has at least five attempts from it within the last five minutes.
pub check_login_rate-run :
    (now : ℕ) (trace : List (ℕ × Call)) (ip : Text)
    → Ordered 0 trace now
    → (check_login_rate now ip (run trace [])).1
      ≡ leb login_max_attempts (length (valid now (logged ip trace)))
unfolding check_login_rate attempts lookup valid
check_login_rate-run now trace ip h =
    ap (λ ts. leb login_max_attempts (length ts)) (run-valid 0 now trace [] ip h)
