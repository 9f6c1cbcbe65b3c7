-- ===== src/Runtime/Queue/Names.antt =====
-- The names of a queue's files, of src/thorn/runtime/_queue.py.
use mathlib.Core.List.{append_cancel_right}
use thorn.Prelude.{
  Text, [], arith, false, list_beq, list_beq_iff, list_eq, nat_eq, option_eq, true, ◌==◌, ◌∷◌, ◌≡◌,
}
use thorn.Runtime.Queue.{is_queue_local, live_name, live_suffix, temp_name}

pub live_name_beq : (i j : Text) → (live_name i == live_name j) ≡ (i == j)
live_name_beq i j = ground (
  arith,
  list_beq_iff i j,
  list_beq_iff (live_name i) (live_name j),
  λ (e : live_name i ≡ live_name j). append_cancel_right i j live_suffix e,
)

-- The first letter of a sidecar's name is a dot, which no local identifier begins with.
pub temp-ne-live : (i j : Text) → is_queue_local j ≡ true → (temp_name i == live_name j) ≡ false
unfolding is_queue_local list_beq
temp-ne-live i [] h = ground arith
temp-ne-live i (c ∷ t) h = ground arith
