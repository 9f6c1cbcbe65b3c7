-- ===== src/Prelude/Strip.antt =====
-- str.strip takes nothing off what it has stripped.
use Prim.Native.Nat.{ℕ}
use mathlib.Core.Path.{◌≡◌, refl, sym, ap, ◌∙◌}
use mathlib.Core.Logic.{inl, inr}
use mathlib.Core.Bool.{Bool, true, not}
use mathlib.Core.List.{[], ◌∷◌}
use native.Mathlib.Omega.{arith}
use thorn.Prelude.Tests.{Bool-cases, if◌then◌else◌}
use thorn.Prelude.Chars.{Text, is_space, lstrip, rstrip, strip}

-- No white space at the start
abbrev solid : Text → Bool
solid [] = true
solid (c ∷ t) = not (is_space c)

lstrip-solid : (t : Text) → solid (lstrip t) ≡ true
unfolding lstrip
lstrip-solid [] = refl
lstrip-solid (c ∷ t) = elim (Bool-cases (is_space c)) [
  | inl space ↦ rw (space) (lstrip-solid t)
  | inr other ↦ rw (other, other) refl
]

lstrip-fixed : (t : Text) → solid t ≡ true → lstrip t ≡ t
unfolding lstrip
lstrip-fixed [] h = refl
lstrip-fixed (c ∷ t) h = elim (Bool-cases (is_space c)) [
  | inl space ↦ ground (arith, h, space)
  | inr other ↦ rw (other) refl
]

-- One more character before a stripped text, as rstrip puts it
abbrev ahead : ℕ → Text → Text
ahead c [] = if is_space c then [] else c ∷ []
ahead c (d ∷ r) = c ∷ d ∷ r

rstrip-ahead : (c : ℕ) (t : Text) → rstrip (c ∷ t) ≡ ahead c (rstrip t)
unfolding rstrip
rstrip-ahead c t = shape (rstrip t)
  where
    shape :
        (r : Text)
        → (elim r [ [] ↦ if is_space c then [] else c ∷ [] | d ∷ q ↦ c ∷ d ∷ q ]) ≡ ahead c r
    shape [] = refl
    shape (d ∷ q) = refl

ahead-solid : (c : ℕ) (r : Text) → not (is_space c) ≡ true → solid (ahead c r) ≡ true
ahead-solid c [] h = ground (arith, h)
ahead-solid c (d ∷ r) h = h

rstrip-solid : (t : Text) → solid t ≡ true → solid (rstrip t) ≡ true
unfolding rstrip
rstrip-solid [] h = refl
rstrip-solid (c ∷ t) h = ap solid (rstrip-ahead c t) ∙ ahead-solid c (rstrip t) h

rstrip-fixed : (c : ℕ) (r : Text) → rstrip r ≡ r → rstrip (ahead c r) ≡ ahead c r
rstrip-fixed c [] h = elim (Bool-cases (is_space c)) [
  | inl space ↦ rw (space) h
  | inr other ↦ rw (other, rstrip-ahead c [], h, other) refl
]
rstrip-fixed c (d ∷ r) h = rstrip-ahead c (d ∷ r) ∙ ap (ahead c) h

rstrip-rstrip : (t : Text) → rstrip (rstrip t) ≡ rstrip t
unfolding rstrip
rstrip-rstrip [] = refl
rstrip-rstrip (c ∷ t) =
    ap rstrip (rstrip-ahead c t)
    ∙ rstrip-fixed c (rstrip t) (rstrip-rstrip t)
    ∙ sym (rstrip-ahead c t)

pub strip-strip : (t : Text) → strip (strip t) ≡ strip t
unfolding strip
strip-strip t =
    ap rstrip (lstrip-fixed (rstrip (lstrip t)) (rstrip-solid (lstrip t) (lstrip-solid t)))
    ∙ rstrip-rstrip (lstrip t)
