-- ===== src/RingBuffer/Retention.antt =====
-- Critical items are lost only to other critical items.
use Prim.Native.Nat.{min}
use pulse_frix.Prelude.{
  ℕ, ◌+◌, ◌≤◌, ◌<◌, ◌≡◌, refl, ◌⊎◌, List, [], ◌∷◌, ◌++◌, arith, length, length-append, All-append,
  All-append_inv, nat_eq, ◌==◌, if◌then◌else◌, Bool-cases, inl, inr,
}
use pulse_frix.RingBuffer.{Item, RingBuffer, priority_critical, new, push}
use pulse_frix.RingBuffer.Eviction.{
  IsKnown, Above, AtLeast, Lowest, Lowest-AtLeast, appended, evicted, dropped, push-Pushed,
}

-- How many items are critical.
pub criticals : List Item → ℕ
criticals [] = 0
criticals (x ∷ xs) = if x.priority == priority_critical then criticals xs + 1 else criticals xs

pub record IsValid (r : RingBuffer) : Type 0 where
  pub positive : 0 < r.cap
  pub bounded : length r.items ≤ r.cap
  pub known : IsKnown r.items

criticals-append : (xs ys : List Item) → criticals (xs ++ ys) ≡ criticals xs + criticals ys
unfolding criticals
criticals-append [] ys = omega arith
criticals-append (x ∷ xs) ys = ground (arith, criticals-append xs ys)

criticals-le : (xs : List Item) → criticals xs ≤ length xs
unfolding criticals
criticals-le [] = omega arith
criticals-le (x ∷ xs) = ground (arith, criticals-le xs)

-- Where every item is critical the count is the length.
criticals-eq-length :
    (xs : List Item) → IsKnown xs → AtLeast priority_critical xs → criticals xs ≡ length xs
unfolding criticals
criticals-eq-length [] k a = refl
criticals-eq-length (x ∷ xs) k a = ground (arith, criticals-eq-length xs k.1 a.1)

-- Nothing known stands above a critical item.
Above-critical : (xs : List Item) → IsKnown xs → Above priority_critical xs → xs ≡ []
Above-critical [] k a = refl
Above-critical (x ∷ xs) k a = absurd (omega arith)

-- The count and the length of a list that splits at its lowest item.
Lowest-count :
    (items older newer : List Item) (e : Item)
    → Lowest items older newer e
    → IsKnown items
    → (criticals items ≡ criticals older + criticals newer + criticals (e ∷ []))
      × (length items ≡ length older + length newer + 1)
      × (e.priority ≤ priority_critical)
      × (e.priority ≡ priority_critical → criticals items ≡ length items)
Lowest-count items older newer e l k =
    let parts = All-append_inv _ older (e ∷ newer) (rw l.split at k) in
    (
      rw l.split
          (omega (arith, criticals-append older (e ∷ newer), criticals-append (e ∷ []) newer)),
      rw l.split (omega (arith, length-append {0} older (e ∷ newer))),
      parts.1.0,
      λ c. criticals-eq-length items k (
          rw l.split
            (Lowest-AtLeast priority_critical older newer e (omega arith) l.before l.after)),
    )

pub push-IsValid :
    (r : RingBuffer) (it : Item) → IsValid r → it.priority ≤ priority_critical → IsValid (push r it)
push-IsValid r it v h =
    let (pushed, c) = push-Pushed r it v.positive v.known in
    elim pushed [
      | appended room e ↦ record {
        positive = rw c v.positive;
        bounded = rw (c, e) (omega (arith, length-append {0} r.items (it ∷ [])));
        known = rw e (All-append _ r.items (it ∷ []) v.known (h, tt));
      }
      | evicted older newer x full l le e ↦
          let parts = All-append_inv _ older (x ∷ newer) (rw l.split at v.known) in
          record {
            positive = rw c v.positive;
            bounded =
                rw (c, e)
                  (omega (
                    arith,
                    (Lowest-count r.items older newer x l v.known).1,
                    v.bounded,
                    length-append {0} (older ++ newer) (it ∷ []),
                    length-append {0} older newer,
                  ));
            known = rw e (
                All-append _ (older ++ newer) (it ∷ []) (All-append _ older newer parts.0 parts.1.1)
                  (h, tt));
          }
      | dropped full a e ↦ record {
        positive = rw c v.positive;
        bounded = rw (c, e) v.bounded;
        known = rw e v.known;
      }
    ]

critical_or_not :
    (x : Item)
    → x.priority ≤ priority_critical
    → ((x.priority ≡ priority_critical) × (criticals (x ∷ []) ≡ 1))
      ⊎ ((x.priority < priority_critical) × (criticals (x ∷ []) ≡ 0))
unfolding criticals
critical_or_not x h = elim (Bool-cases (x.priority == priority_critical)) [
  | inl hit ↦ inl (ground arith, ground arith)
  | inr miss ↦ inr (ground arith, ground arith)
]

critical_above :
    (x it : Item)
    → x.priority ≡ priority_critical
    → x.priority ≤ it.priority
    → it.priority ≤ priority_critical
    → criticals (it ∷ []) ≡ 1
unfolding criticals
critical_above x it e le h = ground arith

-- An item that loses against every item of a full buffer is not critical.
lost_not_critical :
    (it : Item) (xs : List Item)
    → 0 < length xs
    → IsKnown xs
    → AtLeast (it.priority + 1) xs
    → criticals (it ∷ []) ≡ 0
unfolding criticals
lost_not_critical it [] pos k a = absurd (omega arith)
lost_not_critical it (x ∷ xs) pos k a = ground (arith, k.0, a.0)

pub criticals-push :
    (r : RingBuffer) (it : Item)
    → IsValid r
    → it.priority ≤ priority_critical
    → criticals (push r it).items ≡ min r.cap (criticals r.items + criticals (it ∷ []))
criticals-push r it v h =
    let (pushed, c) = push-Pushed r it v.positive v.known in
    elim pushed [
      | appended room e ↦ rw e (
          omega (
            arith,
            criticals-append r.items (it ∷ []),
            criticals-le r.items,
            criticals-le (it ∷ []),
          ))
      | evicted older newer x full l le e ↦
          let counts = Lowest-count r.items older newer x l v.known in
          let sums : criticals (older ++ newer ++ it ∷ [])
              ≡ criticals older + criticals newer + criticals (it ∷ []) =
            omega
              (arith, criticals-append (older ++ newer) (it ∷ []), criticals-append older newer) in
          elim (critical_or_not x counts.2) [
            | inl (high, one) ↦ rw e (
                omega (
                  arith,
                  sums,
                  counts.0,
                  counts.3 high,
                  v.bounded,
                  one,
                  critical_above x it high le h,
                ))
            | inr (low, nought) ↦ rw e (
                omega (
                  arith,
                  sums,
                  counts.0,
                  counts.1,
                  nought,
                  v.bounded,
                  criticals-le older,
                  criticals-le newer,
                  criticals-le (it ∷ []),
                ))
          ]
      | dropped full a e ↦ rw e (
          omega (
            arith,
            criticals-le r.items,
            v.bounded,
            lost_not_critical it r.items (omega arith) v.known a,
          ))
    ]

pub push_all : RingBuffer → List Item → RingBuffer
push_all r [] = r
push_all r (it ∷ its) = push_all (push r it) its

push_all-criticals :
    (r : RingBuffer) (its : List Item)
    → IsValid r
    → IsKnown its
    → (length (push_all r its).items ≤ r.cap)
      × (criticals (push_all r its).items ≡ min r.cap (criticals r.items + criticals its))
unfolding push_all
push_all-criticals r [] v k =
    (v.bounded, omega (arith, criticals-le r.items, v.bounded, criticals-append [] []))
push_all-criticals r (it ∷ its) v k =
    let (pushed, c) = push-Pushed r it v.positive v.known in
    let (bounded, count) = push_all-criticals (push r it) its (push-IsValid r it v k.0) k.1 in
    (omega arith, omega (arith, criticals-push r it v k.0, criticals-append (it ∷ []) its))

new-IsValid :
    (capacity : ℕ)
    → 0 < capacity
    → IsValid (new capacity)
      × ((new capacity).cap ≡ capacity)
      × (criticals (new capacity).items ≡ 0)
unfolding new criticals
new-IsValid capacity pos = (ground arith, ground arith, ground arith)

-- From an empty buffer of a capacity above 0, after any pushes of items of the three priorities: there are never more
-- items than the capacity, and as many critical ones as were pushed, or as fit.
pub criticals_kept :
    (capacity : ℕ) (its : List Item)
    → 0 < capacity
    → IsKnown its
    → (length (push_all (new capacity) its).items ≤ capacity)
      × (criticals (push_all (new capacity) its).items ≡ min capacity (criticals its))
criticals_kept capacity its pos known =
    let (v, c, n) = new-IsValid capacity pos in
    let (bounded, count) = push_all-criticals (new capacity) its v known in
    (omega arith, omega arith)
