-- ===== src/Runtime/World.antt =====
-- What the runtime's operations act on: the file system below an agency home, the in-flight index
-- and the identifier generator's globals; and the operations' shape, methods that may raise.
-- InFlightIndex is src/thorn/runtime/_in_flight_index.py.
use thorn.Prelude.Dict.{Dict, get, put, remove, get-put, get-remove}
use thorn.Prelude.{
  List, Option, Text, arith, bool_eq, contains, if◌then◌else◌, keep, list_beq_iff, list_eq, nat_eq,
  none, not, option_eq, pair_eq, some, ◌&&◌, ◌==◌, ◌∷◌, ◌≡◌,
}
use thorn.Errors.{Error, Result, err, ok}
use thorn.Runtime.Ulid.{UlidState}
use thorn.Runtime.Notification.{Notification, status_eq}

-- A path is its components; `root / name` has `name` at the end.
abbrev pub FilePath : Type 0
FilePath = List Text

-- A file is the notification that was written to it, or the exception that reading its text, json or
-- the fields that are missing or of another type raise where it is of another origin.
pub data Entry : Type 0 where
  file : Result Notification → Entry
  folder : Entry

abbrev pub Dir : Type 0
Dir = Dict Text Entry

pub record World : Type 0 where
  pub disk : FilePath → Dir
  pub index : List Text
  pub ulid : UlidState

-- One directory entry.
unfoldable pub read : World → FilePath → Text → Option Entry
read w root name = get (w.disk root) name

abbrev set_dir : World → FilePath → Dir → World
set_dir w root dir = record w { disk = λ r. if root == r then dir else w.disk r }

unfoldable pub write : World → FilePath → Text → Entry → World
write w root name entry = set_dir w root (put (w.disk root) name entry)

unfoldable pub unlink : World → FilePath → Text → World
unlink w root name = set_dir w root (remove (w.disk root) name)

pub read-write :
    (w : World) (root : FilePath) (name : Text) (entry : Entry) (r : FilePath) (n : Text)
    → read (write w root name entry) r n
      ≡ (if (root == r) && (name == n) then some entry else read w r n)
unfolding read write
read-write w root name entry r n =
    ground (arith, list_beq_iff root r, get-put (w.disk root) name entry n)

pub read-unlink :
    (w : World) (root : FilePath) (name : Text) (r : FilePath) (n : Text)
    → read (unlink w root name) r n ≡ (if (root == r) && (name == n) then none else read w r n)
unfolding read unlink
read-unlink w root name r n = ground (arith, list_beq_iff root r, get-remove (w.disk root) name n)

-- InFlightIndex.add: a set keeps a key once
unfoldable pub index_add : List Text → Text → List Text
index_add keys key = if contains key keys then keys else key ∷ keys

-- InFlightIndex.remove: set.discard
unfoldable pub index_remove : List Text → Text → List Text
index_remove keys key = keep (λ k. not (k == key)) keys

-- Methods that may raise: what they did before the raise stays done.
abbrev pub Exec {ℓ} : Type ℓ → Type ℓ
Exec A = World → Result A × World

module _ {ℓ} {A : Type ℓ} where
  abbrev pub pure : A → Exec A
  pure a w = (ok a, w)

  abbrev pub raise : Error → Exec A
  raise e w = (err e, w)

  abbrev pub lift : Result A → Exec A
  lift r w = (r, w)

  abbrev pub gets : (World → A) → Exec A
  gets f w = (ok (f w), w)

abbrev pub modify : (World → World) → Exec (Unit {0})
modify f w = (ok tt, f w)

module _ {ℓ κ} {A : Type ℓ} {B : Type κ} where
  abbrev pub continue : Result A → (A → World → Result B × World) → World → Result B × World
  continue (ok a) f w = f a w
  continue (err e) f w = (err e, w)

  infixl 5 ◌>>=◌
  abbrev pub ◌>>=◌ : Exec A → (A → Exec B) → Exec B
  ◌>>=◌ m f w = let (r, w') = m w in continue r f w'

infixl 5 ◌>>◌
abbrev pub ◌>>◌ {κ} : {B : Type κ} → Exec (Unit {0}) → Exec B → Exec B
m >> n = m >>= λ _. n
