-- ===== src/Runtime/Ulid.antt =====
-- _generate_ulid of src/thorn/runtime/_notification.py: monotonic identifiers and their text.
pub mod Order
use mathlib.Core.List.{reverse}
use thorn.Prelude.{
  ==_iff, Text, [], arith, codes, get_or, if◌then◌else◌, leb, list_eq, nat_eq, option_eq, suc, zero,
  ℕ, ◌%◌, ◌*◌, ◌+◌, ◌/◌, ◌<◌, ◌^◌, ◌∷◌,
}

-- _ULID_ALPHABET
abbrev pub alphabet : Text
alphabet = codes "0123456789ABCDEFGHJKMNPQRSTVWXYZ"

-- _ULID_RAND_MASK + 1
abbrev pub rand_range : ℕ
rand_range = 2 ^ 80

-- The module's globals _ulid_last_ms and _ulid_last_rand.
pub record UlidState : Type 0 where
  pub last_ms : ℕ
  pub last_rand : ℕ

-- The state after a call at clock `time_ns`, with `random` for int.from_bytes(token_bytes(10)).
unfoldable pub advance : UlidState → ℕ → ℕ → UlidState
advance s time_ns random =
    let ms = time_ns / 1_000_000 in
    if leb ms s.last_ms
    then record s { last_rand = (s.last_rand + 1) % rand_range }
    else record { last_ms = ms; last_rand = random }

-- (ms << 80) | rand: the two have no bit in common, for rand is below 2 ^ 80
unfoldable pub value : UlidState → ℕ
value s = s.last_ms * rand_range + s.last_rand

-- _ULID_ALPHABET[d]
unfoldable pub letter : ℕ → ℕ
letter d = get_or alphabet d 0

-- The loop: `rounds` letters, the lowest five bits first.
unfoldable pub letters : ℕ → ℕ → Text
unfolding letter
letters zero value = []
letters (suc rounds) value = letter (value % 32) ∷ letters rounds (value / 32)

unfoldable pub encode : ℕ → Text
unfolding letters
encode value = reverse (letters 26 value)

unfoldable pub generate_ulid : UlidState → ℕ → ℕ → Text × UlidState
unfolding advance value encode
generate_ulid s time_ns random = let s' = advance s time_ns random in (encode (value s'), s')

-- The random part is below its range, as it is at the start and after every call.
pub record IsInRange (s : UlidState) : Type 0 where
  pub rand_lt : s.last_rand < rand_range

pub advance-IsInRange :
    (s : UlidState) (time_ns random : ℕ)
    → IsInRange s
    → random < rand_range
    → IsInRange (advance s time_ns random)
unfolding advance
advance-IsInRange s time_ns random h r = ground arith
