-- ===== src/Tests/Buffer.antt =====
-- The agent's buffer at concrete inputs.
use Prim.Native.Nat.{min}
use pulse_frix.Prelude.{◌+◌, ◌*◌, ◌≤◌, ◌≡◌, refl, true, [], ◌∷◌, bytes, length, arith}
use pulse_frix.Prelude.Int.{pos, pos_part}
use pulse_frix.Duration.{is_within, is_within_lem, is_within_far, unix_milli, second}
use pulse_frix.RingBuffer.{RingBuffer, Item, new, push}
use pulse_frix.RingBuffer.Eviction.{Pushed, push-Pushed}
use pulse_frix.RingBuffer.Retention.{criticals_kept, push_all, criticals}

abbrev low : Item
low = record { priority = 0; payload = bytes "low" }

abbrev high : Item
high = record { priority = 2; payload = bytes "high" }

abbrev two_low : RingBuffer
two_low = record { items = low ∷ low ∷ []; cap = 2 }

push_example : Pushed two_low high (push two_low high) × ((push two_low high).cap ≡ two_low.cap)
push_example = push-Pushed two_low high (omega arith) (omega arith, (omega arith, tt))

criticals_kept_example :
    (length (push_all (new 2) (high ∷ low ∷ low ∷ [])).items ≤ 2)
    × (criticals (push_all (new 2) (high ∷ low ∷ low ∷ [])).items
        ≡ min 2 (criticals (high ∷ low ∷ low ∷ [])))
criticals_kept_example =
    criticals_kept 2 (high ∷ low ∷ low ∷ []) (omega arith)
      (omega arith, (omega arith, (omega arith, tt)))

is_within_run : is_within (60 * second) (100 * second) (pos 70000) ≡ true
unfolding is_within
is_within_run = refl

is_within_example :
    (100 * second ≤ pos_part (unix_milli (pos 70000)) + 60 * second)
    × (pos_part (unix_milli (pos 70000)) ≤ 100 * second + 60 * second)
unfolding unix_milli
is_within_example =
    is_within_lem (60 * second) (100 * second) (pos 70000) (omega arith) (omega arith) is_within_run

is_within_far_example : is_within (60 * second) 0 (pos 9223372036855) ≡ true
unfolding unix_milli
is_within_far_example = is_within_far (60 * second) 0 (pos 9223372036855) (omega arith)
