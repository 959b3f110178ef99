-- ===== src/RingBuffer.antt =====
-- agent/internal/cache/cache.go: the buffer of an agent that cannot reach the control plane. The
-- mutex is left out: each method holds it throughout.
pub mod Eviction
pub mod Retention
use pulse_frix.Prelude.{
  ℕ, zero, suc, ◌+◌, Bool, Option, none, some, List, [], ◌∷◌, ◌++◌, Text, length, ltb, leb,
  if◌then◌else◌,
}

-- The levels in the order of `iota`.
abbrev pub Priority : Type 0
Priority = ℕ

abbrev pub priority_critical : Priority
priority_critical = 2

pub record Item : Type 0 where
  pub priority : Priority
  pub payload : Text

pub record RingBuffer : Type 0 where
  pub items : List Item
  pub cap : ℕ

-- `capacity` is a Go `int`; what is below 1, the negative values too, becomes 1.
pub new : ℕ → RingBuffer
new capacity = record { items = []; cap = if ltb capacity 1 then 1 else capacity }

-- The loop of `Push`: the index of the first item of the lowest priority so far (`none` for -1).
scan : List Item → ℕ → Priority → Option ℕ → Option ℕ
scan [] i lowest evict = evict
scan (x ∷ xs) i lowest evict =
    let lower = ltb x.priority lowest in
    scan xs (i + 1) (if lower then x.priority else lowest) (if lower then some i else evict)

get_elem? : List Item → ℕ → Option Item
get_elem? [] i = none
get_elem? (x ∷ xs) zero = some x
get_elem? (x ∷ xs) (suc i) = get_elem? xs i

-- `append(l[:i], l[i+1:]...)`
remove_at : ℕ → List Item → List Item
remove_at i [] = []
remove_at zero (x ∷ xs) = xs
remove_at (suc i) (x ∷ xs) = x ∷ remove_at i xs

make_room : RingBuffer → Item → Option ℕ → RingBuffer
make_room r it none = r
make_room r it (some i) = elim (get_elem? r.items i) [
  | none ↦ r
  | some old ↦
      if leb old.priority it.priority
      then record r { items = remove_at i r.items ++ it ∷ [] }
      else r
]

unfoldable pub push : RingBuffer → Item → RingBuffer
unfolding scan get_elem? remove_at make_room
push r it =
    if ltb (length r.items) r.cap
    then record r { items = r.items ++ it ∷ [] }
    else make_room r it (scan r.items 0 (priority_critical + 1) none)

unfoldable pub drain : RingBuffer → List Item × RingBuffer
drain r = (r.items, record r { items = [] })

pub len : RingBuffer → ℕ
len r = length r.items
