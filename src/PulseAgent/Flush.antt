-- ===== src/PulseAgent/Flush.antt =====
-- What a flush of the buffer sends, keeps and loses.
use pulse_frix.Prelude.{
  ℕ, ◌≡◌, refl, ap, ◌∙◌, ◌<◌, none, some, List, [], ◌∷◌, ◌++◌, bytes, ◌⊎◌, inl, inr, arith,
  Option-cases,
}
use pulse_frix.RingBuffer.{RingBuffer, Item, push, drain}
use pulse_frix.AgentClient.{Outside, SendFailure}
use pulse_frix.PulseAgent.{Enrollment, Loop, ship, flush_items, flush_buffer}

-- The items are sent one after the other, each with success, from one state to another.
abbrev pub AreSent : Outside → Enrollment → ℕ → List Item → Enrollment → ℕ → Type 0
AreSent o e k [] e' k' = (e ≡ e') × (k ≡ k')
AreSent o e k (it ∷ items) e' k' =
    let s = ship o e (bytes "metrics") it.payload k in
    (s.failure ≡ none) × AreSent o s.state s.steps items e' k'

-- The loop sends all of the items, or those before one that fails, which alone goes back.
abbrev pub IsFlushed : Outside → Enrollment → ℕ → RingBuffer → List Item → Loop → Type 0
IsFlushed o e k buffer items a =
    (AreSent o e k items a.enrollment a.steps × (a.buffer ≡ buffer))
    ⊎ ((sent : List Item) × (it : Item) × (lost : List Item) × (e' : Enrollment) × (k' : ℕ)
        × (f : SendFailure) × (items ≡ sent ++ it ∷ lost)
        × AreSent o e k sent e' k'
        × ((ship o e' (bytes "metrics") it.payload k').failure ≡ some f)
        × (a.buffer ≡ push buffer it))

flush_items-sent :
    (o : Outside) (e : Enrollment) (buffer : RingBuffer) (it : Item) (items : List Item) (k : ℕ)
    → (ship o e (bytes "metrics") it.payload k).failure ≡ none
    → flush_items o e buffer (it ∷ items) k
      ≡ flush_items o
          (ship o e (bytes "metrics") it.payload k).state
          buffer
          items
          (ship o e (bytes "metrics") it.payload k).steps
unfolding flush_items
flush_items-sent o e buffer it items k ok = rw (ok, flush_items) refl

flush_items-failed :
    (o : Outside) (e : Enrollment) (buffer : RingBuffer) (it : Item) (items : List Item) (k : ℕ)
    (f : SendFailure)
    → (ship o e (bytes "metrics") it.payload k).failure ≡ some f
    → (flush_items o e buffer (it ∷ items) k).buffer ≡ push buffer it
unfolding flush_items
flush_items-failed o e buffer it items k f failed = rw (failed, flush_items) refl

IsFlushed-next :
    (o : Outside) (e : Enrollment) (buffer : RingBuffer) (it : Item) (items : List Item) (k : ℕ)
    (a : Loop)
    → (ship o e (bytes "metrics") it.payload k).failure ≡ none
    → IsFlushed o
        (ship o e (bytes "metrics") it.payload k).state
        (ship o e (bytes "metrics") it.payload k).steps
        buffer
        items
        a
    → IsFlushed o e k buffer (it ∷ items) a
IsFlushed-next o e buffer it items k a ok (inl (sent, same)) = inl ((ok, sent), same)
IsFlushed-next o e buffer it items k a ok
      (inr (sent, jt, lost, e', k', f, split, shipped, failed, same)) =
    inr (it ∷ sent, jt, lost, e', k', f, ap (λ t. it ∷ t) split, (ok, shipped), failed, same)

flush_items-IsFlushed :
    (o : Outside) (e : Enrollment) (buffer : RingBuffer) (items : List Item) (k : ℕ)
    → IsFlushed o e k buffer items (flush_items o e buffer items k)
unfolding flush_items
flush_items-IsFlushed o e buffer [] k = inl ((refl, refl), refl)
flush_items-IsFlushed o e buffer (it ∷ items) k =
    let s = ship o e (bytes "metrics") it.payload k in
    elim (Option-cases s.failure) [
      | inr (f, failed) ↦ inr (
        [],
        it,
        items,
        e,
        k,
        f,
        refl,
        (refl, refl),
        failed,
        flush_items-failed o e buffer it items k f failed,
      )
      | inl ok ↦ rw (flush_items-sent o e buffer it items k ok) (
          IsFlushed-next o e buffer it items k _ ok
            (flush_items-IsFlushed o s.state buffer items s.steps))
    ]

push-empty : (r : RingBuffer) (it : Item) → 0 < r.cap → (push (drain r).1 it).items ≡ it ∷ []
unfolding push drain
push-empty r it room = ground (arith, room)

-- A flush of a buffer of a capacity above 0 either sends all of its items in their order and leaves
-- it empty, or sends those before one whose send fails. Then the buffer holds that one item alone:
-- the items after it are not sent, and the buffer has them no longer.
pub flush_buffer-IsFlushed :
    (o : Outside) (a : Loop)
    → 0 < a.buffer.cap
    → (AreSent o a.enrollment a.steps a.buffer.items
          (flush_buffer o a).enrollment
          (flush_buffer o a).steps
        × ((flush_buffer o a).buffer.items ≡ []))
      ⊎ ((sent : List Item) × (it : Item) × (lost : List Item) × (e : Enrollment) × (k : ℕ)
          × (f : SendFailure) × (a.buffer.items ≡ sent ++ it ∷ lost)
          × AreSent o a.enrollment a.steps sent e k
          × ((ship o e (bytes "metrics") it.payload k).failure ≡ some f)
          × ((flush_buffer o a).buffer.items ≡ it ∷ []))
unfolding flush_buffer drain
flush_buffer-IsFlushed o a room =
    elim (flush_items-IsFlushed o a.enrollment (drain a.buffer).1 a.buffer.items a.steps) [
      | inl (sent, same) ↦ inl (sent, ap (λ b. b.items) same)
      | inr (sent, it, lost, e, k, f, split, shipped, failed, same) ↦ inr (
        sent,
        it,
        lost,
        e,
        k,
        f,
        split,
        shipped,
        failed,
        ap (λ b. b.items) same ∙ push-empty a.buffer it room,
      )
    ]
