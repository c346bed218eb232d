-- ===== src/Prelude/Members.antt =====
-- Members of a list, which a property of all its elements holds of.
use mathlib.Core.List.{List, [], ◌∷◌, Memᴰ}
use mathlib.Core.List.Memᴰ.{head, tail, not-nil}
use mathlib.Core.Path.{subst, sym}
use robomesh.Prelude.Tests.{All}

pub All-Memᴰ {ℓ κ} :
    {A : Type ℓ} (P : A → Type κ) (xs : List A) {x : A} → All P xs → Memᴰ x xs → P x
All-Memᴰ P [] h m = absurd (not-nil m)
All-Memᴰ P (y ∷ ys) h (head e) = subst P (sym e) h.0
All-Memᴰ P (y ∷ ys) h (tail m) = All-Memᴰ P ys h.1 m
