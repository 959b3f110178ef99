-- ===== src/RingBuffer/Eviction.antt =====
-- Which item gives way when the buffer is full.
use pulse_frix.Prelude.{
  ℕ, ◌+◌, ◌≤◌, ◌<◌, ◌≡◌, refl, ap, false, Option, none, some, List, [], ◌∷◌, ◌++◌, ◌⊎◌, inl, inr,
  arith, length, ltb, leb, All, Bool-cases,
}
use pulse_frix.RingBuffer.{
  Item, RingBuffer, Priority, priority_critical, scan, get_elem?, remove_at, make_room, push,
}

abbrev pub Above : Priority → List Item → Type 0
Above p = All λ x. p < x.priority

abbrev pub AtLeast : Priority → List Item → Type 0
AtLeast p = All λ x. p ≤ x.priority

-- The list splits at its first item of the lowest priority.
pub record Lowest (items older newer : List Item) (e : Item) : Type 0 where
  pub split : items ≡ older ++ e ∷ newer
  pub before : Above e.priority older
  pub after : AtLeast e.priority newer

-- The scan returns the first position of the lowest priority below the bound, or its start value
-- if every priority reaches the bound.
scan_lem :
    (xs : List Item) (i bound : ℕ) (evict : Option ℕ)
    → ((scan xs i bound evict ≡ evict) × AtLeast bound xs)
      ⊎ ((older : List Item) × (e : Item) × (newer : List Item) × Lowest xs older newer e
          × (e.priority < bound)
          × (scan xs i bound evict ≡ some (i + length older)))
unfolding scan
scan_lem [] i bound evict = inl (refl, tt)
scan_lem (x ∷ xs) i bound evict = elim (Bool-cases (ltb x.priority bound)) [
  | inl lower ↦ elim (scan_lem xs (i + 1) x.priority (some i)) [
    | inl (found, rest) ↦
        inr (
          [],
          x,
          xs,
          record { split = refl; before = tt; after = rest },
          ground arith,
          ground arith,
        )
    | inr (older, e, newer, l, below, found) ↦ inr (
      x ∷ older,
      e,
      newer,
      record { split = ap (◌∷◌ x) l.split; before = (below, l.before); after = l.after },
      ground arith,
      ground arith,
    )
  ]
  | inr higher ↦ elim (scan_lem xs (i + 1) bound evict) [
    | inl (kept, rest) ↦ inl (ground arith, (ground arith, rest))
    | inr (older, e, newer, l, below, found) ↦ inr (
      x ∷ older,
      e,
      newer,
      record { split = ap (◌∷◌ x) l.split; before = (ground arith, l.before); after = l.after },
      below,
      ground arith,
    )
  ]
]

get_elem?-split :
    (older newer : List Item) (e : Item) → get_elem? (older ++ e ∷ newer) (length older) ≡ some e
unfolding get_elem?
get_elem?-split [] newer e = refl
get_elem?-split (x ∷ older) newer e = get_elem?-split older newer e

remove_at-split :
    (older newer : List Item) (e : Item)
    → remove_at (length older) (older ++ e ∷ newer) ≡ older ++ newer
unfolding remove_at
remove_at-split [] newer e = refl
remove_at-split (x ∷ older) newer e = ap (◌∷◌ x) (remove_at-split older newer e)

abbrev pub IsKnown : List Item → Type 0
IsKnown = All λ x. x.priority ≤ priority_critical

-- What `Push` does to the items.
pub data Pushed (r : RingBuffer) (it : Item) (r' : RingBuffer) : Type 0 where
  appended : length r.items < r.cap → r'.items ≡ r.items ++ it ∷ [] → Pushed r it r'
  evicted :
      (older newer : List Item) (e : Item)
      → r.cap ≤ length r.items
      → Lowest r.items older newer e
      → e.priority ≤ it.priority
      → r'.items ≡ older ++ newer ++ it ∷ []
      → Pushed r it r'
  dropped :
      r.cap ≤ length r.items
      → AtLeast (it.priority + 1) r.items
      → r'.items ≡ r.items
      → Pushed r it r'

AtLeast-mono : {p q : Priority} (xs : List Item) → p ≤ q → AtLeast q xs → AtLeast p xs
AtLeast-mono [] h a = tt
AtLeast-mono (x ∷ xs) h a = (omega arith, AtLeast-mono xs h a.1)

some_known : (xs : List Item) → 0 < length xs → IsKnown xs → AtLeast 3 xs → ⊥
some_known [] h k a = omega arith
some_known (x ∷ xs) h k a = omega arith

pub Lowest-AtLeast :
    (p : Priority) (older newer : List Item) (e : Item)
    → p ≤ e.priority
    → Above e.priority older
    → AtLeast e.priority newer
    → AtLeast p (older ++ e ∷ newer)
Lowest-AtLeast p [] newer e le b a = (le, AtLeast-mono newer le a)
Lowest-AtLeast p (x ∷ older) newer e le b a = (omega arith, Lowest-AtLeast p older newer e le b.1 a)

-- With room the item is appended. Without, the oldest of the items of the lowest priority gives way
-- if its priority is no higher than the new item's; otherwise every item is more important than the
-- new one, and the buffer keeps its items. The capacity stays. The capacity is above 0 and the items
-- of the buffer have known priorities.
pub push-Pushed :
    (r : RingBuffer) (it : Item)
    → 0 < r.cap
    → IsKnown r.items
    → Pushed r it (push r it) × ((push r it).cap ≡ r.cap)
unfolding push
push-Pushed r it pos known = elim (Bool-cases (ltb (length r.items) r.cap)) [
  | inl room ↦ rw room (appended (ground arith) refl, refl)
  | inr full ↦ elim (scan_lem r.items 0 (priority_critical + 1) none) [
    | inl (none_lower, high) ↦ absurd (some_known r.items (ground arith) known high)
    | inr (older, e, newer, l, below, found) ↦ at_lowest older e newer l (ground arith) full found
  ]
]
  where
    at_lowest :
        (older : List Item) (e : Item) (newer : List Item)
        → Lowest r.items older newer e
        → r.cap ≤ length r.items
        → ltb (length r.items) r.cap ≡ false
        → scan r.items 0 (priority_critical + 1) none ≡ some (0 + length older)
        → Pushed r it (push r it) × ((push r it).cap ≡ r.cap)
    at_lowest older e newer l full stop found =
        let n : 0 + length older ≡ length older = omega arith in
        let at : get_elem? r.items (0 + length older) ≡ some e =
          rw (n, l.split) (get_elem?-split older newer e) in
        let rest : remove_at (0 + length older) r.items ≡ older ++ newer =
          rw (n, l.split) (remove_at-split older newer e) in
        elim (Bool-cases (leb e.priority it.priority)) [
          | inl lower ↦
              rw (stop, found, at, make_room, lower, rest)
                (evicted older newer e full l (ground arith) refl, refl)
          | inr higher ↦
              rw (stop, found, at, make_room, higher)
                (
                  dropped full
                      (rw l.split (Lowest-AtLeast _ older newer e (ground arith) l.before l.after))
                      refl,
                  refl,
                )
        ]
