-- ===== src/Tests/Names.antt =====
-- Addresses of src/thorn/runtime/_address.py and identifiers of _notification.py at samples.
use thorn.Prelude.{
  arith, bool_eq, codes, contains, is_empty, list_eq, ltb, nat_eq, option_eq, pair_eq, refl, true,
  ◌+◌, ◌/◌, ◌<◌, ◌^◌, ◌||◌, ◌≡◌,
}
use thorn.Prelude.Sorting.{text_ltb}
use thorn.Errors.{ok}
use thorn.Runtime.Address.{
  Address, IsConstructed, address_eq, parse, session, session_address, to_str,
}
use thorn.Runtime.Address.RoundTrip.{HasAgent, parse-to_str}
use thorn.Runtime.Ulid.{IsInRange, UlidState, advance, generate_ulid, rand_range}
use thorn.Runtime.Ulid.Order.{generate_ulid-lt}

abbrev main_session : Address
main_session = session (codes "ada") (codes "main")

main_session-IsConstructed : IsConstructed main_session
unfolding session_address contains is_empty
main_session-IsConstructed = refl

main_session-HasAgent : HasAgent main_session
unfolding is_empty
main_session-HasAgent = refl

parse-to_str_example : parse (to_str main_session) ≡ ok main_session
parse-to_str_example = parse-to_str main_session main_session-IsConstructed main_session-HasAgent

abbrev state : UlidState
state = record { last_ms = 1; last_rand = 5 }

state-IsInRange : IsInRange state
state-IsInRange = record { rand_lt = omega arith }

room :
    (ltb (generate_ulid state 2_000_000 7).1.last_ms (2_000_001 / 1_000_000)
      || ltb ((generate_ulid state 2_000_000 7).1.last_rand + 1) rand_range)
    ≡ true
unfolding generate_ulid advance
room = refl

early : (generate_ulid (generate_ulid state 2_000_000 7).1 2_000_001 9).1.last_ms < 2 ^ 50
unfolding generate_ulid advance
early = omega arith

generate_ulid-lt_example :
    text_ltb
      (generate_ulid state 2_000_000 7).0
      (generate_ulid (generate_ulid state 2_000_000 7).1 2_000_001 9).0
    ≡ true
generate_ulid-lt_example =
    generate_ulid-lt state 2_000_000 7 2_000_001 9 state-IsInRange (omega arith) (omega arith) room
      early
