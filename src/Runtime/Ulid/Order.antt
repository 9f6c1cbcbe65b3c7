-- ===== src/Runtime/Ulid/Order.antt =====
-- The order of identifiers.
use mathlib.Core.List.{reverse, reverse-cons}
use native.Mathlib.Nat.{pow-suc}
use native.Mathlib.Decide.{dec_lt}
use thorn.Prelude.Sorting.{text_ltb}
use thorn.Prelude.{
  ==_refl, Bool, Text, [], arith, bool_eq, length, length-append, list_beq, list_eq, ltb, nat_eq,
  not, option_eq, pair_eq, refl, suc, sym, true, zero, ℕ, ◌%◌, ◌&&◌, ◌*◌, ◌++◌, ◌+◌, ◌/◌, ◌<◌, ◌==◌,
  ◌^◌, ◌||◌, ◌∙◌, ◌∷◌, ◌≡◌, ◌≤◌,
}
use thorn.Runtime.Ulid.{
  IsInRange, UlidState, advance, advance-IsInRange, encode, generate_ulid, letter, letters,
  rand_range, value,
}

holds_below : (ℕ → Bool) → ℕ → Bool
holds_below test zero = true
holds_below test (suc bound) = holds_below test bound && test bound

holds_below-at :
    (test : ℕ → Bool) (bound k : ℕ) → k < bound → holds_below test bound ≡ true → test k ≡ true
unfolding holds_below
holds_below-at test zero k below all_hold = ground (arith, below)
holds_below-at test (suc bound) k below all_hold =
    ground (arith, below, all_hold, holds_below-at test bound k)

letter_row : ℕ → Bool
letter_row d = holds_below (λ e. not (ltb d e) || ltb (letter d) (letter e)) 32

letter_table : holds_below letter_row 32 ≡ true
unfolding holds_below letter letter_row
letter_table = refl

letter_mono : (d e : ℕ) → d < e → e < 32 → ltb (letter d) (letter e) ≡ true
unfolding letter_row
letter_mono d e h r =
    let row = holds_below-at letter_row 32 d (omega arith) letter_table in
    ground (arith, holds_below-at (λ e'. not (ltb d e') || ltb (letter d) (letter e')) 32 e r row)

-- Two texts of one length compare by their last letters where the rest agrees.
text_ltb_snoc :
    (xs ys : Text) (a b : ℕ)
    → length xs ≡ length ys
    → text_ltb (xs ++ (a ∷ [])) (ys ++ (b ∷ [])) ≡ (text_ltb xs ys || ((xs == ys) && ltb a b))
unfolding text_ltb list_beq
text_ltb_snoc [] [] a b h = ground arith
text_ltb_snoc [] (y ∷ ys) a b h = ground arith
text_ltb_snoc (x ∷ xs) [] a b h = ground arith
text_ltb_snoc (x ∷ xs) (y ∷ ys) a b h = ground (arith, text_ltb_snoc xs ys a b)

-- The text of `rounds` letters, highest first.
shown : ℕ → ℕ → Text
shown zero v = []
shown (suc n) v = shown n (v / 32) ++ (letter (v % 32) ∷ [])

length-shown : (n v : ℕ) → length (shown n v) ≡ n
unfolding shown
length-shown zero v = refl
length-shown (suc n) v =
    omega (arith, length-append (shown n (v / 32)) (letter (v % 32) ∷ []), length-shown n (v / 32))

shown-lt : (n v w : ℕ) → v < w → w < 32 ^ n → text_ltb (shown n v) (shown n w) ≡ true
unfolding shown
shown-lt zero v w h r = absurd (omega arith)
shown-lt (suc n) v w h r =
    let same_length : length (shown n (v / 32)) ≡ length (shown n (w / 32)) =
      length-shown n (v / 32) ∙ sym (length-shown n (w / 32)) in
    let r' : w < 32 ^ n * 32 = rw pow-suc at r in
    rw
      (text_ltb_snoc (shown n (v / 32)) (shown n (w / 32)) (letter (v % 32)) (letter (w % 32))
        same_length)
      (elim (dec_lt (v / 32) (w / 32)) [
        | yes less ↦ ground (arith, shown-lt n (v / 32) (w / 32) less (omega arith))
        | no more ↦
            let same : v / 32 ≡ w / 32 = omega arith in
            let below : ltb (letter (v % 32)) (letter (w % 32)) ≡ true =
              letter_mono (v % 32) (w % 32) (omega arith) (omega arith) in
            rw (same, ==_refl (shown n (w / 32)), below) (ground arith)
      ])

reverse-letters : (n v : ℕ) → reverse (letters n v) ≡ shown n v
unfolding letters shown
reverse-letters zero v = refl
reverse-letters (suc n) v =
    reverse-cons (letter (v % 32)) (letters n (v / 32)) ∙ rw (reverse-letters n (v / 32))

encode-lt : (v w : ℕ) → v < w → w < 32 ^ 26 → text_ltb (encode v) (encode w) ≡ true
unfolding encode
encode-lt v w h r = rw (reverse-letters 26 v, reverse-letters 26 w) (shown-lt 26 v w h r)

value-lt_advance :
    (s : UlidState) (time_ns random : ℕ)
    → IsInRange s
    → (ltb s.last_ms (time_ns / 1_000_000) || ltb (s.last_rand + 1) rand_range) ≡ true
    → value s < value (advance s time_ns random)
unfolding advance value
value-lt_advance s time_ns random v room =
    let bounded : s.last_rand < rand_range = v.rand_lt in ground (arith, room, bounded)

value-lt_range : (s : UlidState) → IsInRange s → s.last_ms < 2 ^ 50 → value s < 32 ^ 26
unfolding value
value-lt_range s v h = omega arith

wraps :
    (s : UlidState) (time_ns random : ℕ)
    → time_ns / 1_000_000 ≤ s.last_ms
    → s.last_rand + 1 ≡ rand_range
    → value (advance s time_ns random) < value s
unfolding advance value
wraps s time_ns random rewound full = ground arith

-- Of two calls in a row, from a state whose random part is in range, the first's text sorts before
-- the second's, where the second's clock reads a later millisecond than the first's text has, or
-- the first's random part, which is then stepped, is not yet the largest one; the
-- random parts drawn are below 2 ^ 80, and the later call's milliseconds are below 2 ^ 50.
pub generate_ulid-lt :
    (s : UlidState) (time₁ random₁ time₂ random₂ : ℕ)
    → IsInRange s
    → random₁ < rand_range
    → random₂ < rand_range
    → (ltb (generate_ulid s time₁ random₁).1.last_ms (time₂ / 1_000_000)
        || ltb ((generate_ulid s time₁ random₁).1.last_rand + 1) rand_range)
      ≡ true
    → (generate_ulid (generate_ulid s time₁ random₁).1 time₂ random₂).1.last_ms < 2 ^ 50
    → text_ltb
        (generate_ulid s time₁ random₁).0
        (generate_ulid (generate_ulid s time₁ random₁).1 time₂ random₂).0
      ≡ true
unfolding generate_ulid
generate_ulid-lt s time₁ random₁ time₂ random₂ v r₁ r₂ room late =
    let v₁ = advance-IsInRange s time₁ random₁ v r₁ in
    let v₂ = advance-IsInRange (advance s time₁ random₁) time₂ random₂ v₁ r₂ in
    encode-lt (value (advance s time₁ random₁))
      (value (advance (advance s time₁ random₁) time₂ random₂))
      (value-lt_advance (advance s time₁ random₁) time₂ random₂ v₁ room)
      (value-lt_range (advance (advance s time₁ random₁) time₂ random₂) v₂ late)

-- Where the clock has not passed the last milliseconds and the last random part is the largest
-- one, the next text sorts before the last one, if the milliseconds are below 2 ^ 50.
pub generate_ulid_wraps :
    (s : UlidState) (time_ns random : ℕ)
    → time_ns / 1_000_000 ≤ s.last_ms
    → s.last_rand + 1 ≡ rand_range
    → s.last_ms < 2 ^ 50
    → text_ltb (generate_ulid s time_ns random).0 (encode (value s)) ≡ true
unfolding generate_ulid
generate_ulid_wraps s time_ns random rewound full h =
    encode-lt (value (advance s time_ns random)) (value s) (wraps s time_ns random rewound full)
      (value-lt_range s (record { rand_lt = omega arith }) h)
