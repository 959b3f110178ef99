-- ===== src/Tests/Recovering.antt =====
-- The recovery of a credential, its pace, and the buffer of an agent at concrete inputs.
use pulse_frix.Prelude.{
  ℕ, ◌+◌, ◌*◌, ◌≡◌, ◌≤◌, refl, true, false, Option, none, some, List, [], ◌∷◌, ◌++◌, bytes,
  same_text, arith, ◌⊎◌, ◌||◌, text_eq, ◌==◌, if◌then◌else◌,
}
use pulse_frix.Duration.{second}
use pulse_frix.RingBuffer.{Item, push, drain}
use pulse_frix.AgentClient.{
  Outside, Signer, Answer, Request, signed, unsigned, send, attempts, do_signed, classify,
  reenroll_path, SendFailure, is_unauthorized, EnrollResponse, reenroll, decoded,
}
use pulse_frix.PulseAgent.{Enrollment, Loop, ship, flush_buffer, flush_items}
use pulse_frix.PulseAgent.Recovery.{IsAnswered, IsRecovered, ticks, ticks_recover}
use pulse_frix.PulseAgent.Spacing.{
  IsClock, CredentialEvent, tick, message, run, attempts_made, tries, on_event, run-IsSpaced,
}
use pulse_frix.PulseAgent.Flush.{AreSent, flush_buffer-IsFlushed}

abbrev signer : Signer
signer = record {
  crypto = record { sha256_hex = λ s. s; decode_base64 = λ s. some s; verify = λ k m s. true };
  sign = λ m. m;
  encode_base64 = λ s. s;
}

-- The agent "old" is refused, and re-enrolled as "new".
abbrev answer_of : Request → Option Answer
answer_of (unsigned _) = none
answer_of (signed path h payload) =
    if path == reenroll_path || h.agent_id == bytes "new"
    then some (record { status = 200; body = [] })
    else some (record { status = 401; body = [] })

abbrev new_id : EnrollResponse
new_id = record { server_id = bytes "srv"; agent_id = bytes "new" }

abbrev outside : Outside
outside = record {
  clock = λ k. 99 * second;
  nonce = λ k. bytes "n";
  jitter = λ k. 7;
  cancelled = λ k. false;
  answer = λ k. answer_of;
  message = λ r. [];
  decode = λ body. some new_id;
  encode_envelope = λ e. e.body;
  encode_enroll = λ r. [];
  encode_reenroll = λ r. [];
}

abbrev enrollment : Enrollment
enrollment = record {
  identity = record {
    server_id = bytes "srv";
    agent_id = bytes "old";
    installation_id = bytes "i";
    public_key = bytes "k";
    enrolled = true;
  };
  enrollment_token = [];
  client = record { agent_id = bytes "old"; signer = signer };
  rejected = true;
  refused_logged = false;
  next_attempt = 0;
}

is_answered : IsAnswered outside enrollment
unfolding reenroll decoded same_text
is_answered k = (new_id, refl)

ticks_recover_example : IsRecovered (run outside (enrollment, 0) (ticks 3)).0
ticks_recover_example =
    ticks_recover outside 3 1 enrollment 0 refl refl is_answered (omega arith) (omega arith)

is_clock : IsClock outside
is_clock i j le = omega arith

abbrev events : List CredentialEvent
events = tick ∷ message (bytes "metrics") (bytes "{}") ∷ tick ∷ []

run_example :
    ((attempts_made outside (enrollment, 0) events ≡ 0)
      ⊎ (0 + attempts_made outside (enrollment, 0) events * (60 * second)
          ≤ outside.clock (run outside (enrollment, 0) events).1 + 60 * second))
    × ((e : Enrollment) (k : ℕ) (ev : CredentialEvent)
        → tries outside (e, k) ev ≡ 0
        → let e' = (on_event outside (e, k) ev).0 in
          (e'.identity ≡ e.identity) × (e'.next_attempt ≡ e.next_attempt))
run_example = run-IsSpaced outside (enrollment, 0) events is_clock

abbrev items : List Item
items =
    record { priority = 0; payload = bytes "{}" }
    ∷ record { priority = 0; payload = bytes "[]" }
    ∷ []

-- A control plane that answers nothing.
abbrev unreachable : Outside
unreachable = record outside { answer = λ k r. none }

abbrev waiting : Loop
waiting = record { enrollment = enrollment; buffer = record { items = items; cap = 4 }; steps = 0 }

flush_example :
    (AreSent unreachable enrollment 0 items
        (flush_buffer unreachable waiting).enrollment
        (flush_buffer unreachable waiting).steps
      × ((flush_buffer unreachable waiting).buffer.items ≡ []))
    ⊎ ((sent : List Item) × (it : Item) × (lost : List Item) × (e : Enrollment) × (k : ℕ)
        × (f : SendFailure) × (items ≡ sent ++ it ∷ lost)
        × AreSent unreachable enrollment 0 sent e k
        × ((ship unreachable e (bytes "metrics") it.payload k).failure ≡ some f)
        × ((flush_buffer unreachable waiting).buffer.items ≡ it ∷ []))
flush_example = flush_buffer-IsFlushed unreachable waiting (omega arith)

-- Of two items in the buffer one is left after a flush that cannot send.
flush_loses :
    (flush_buffer unreachable waiting).buffer.items
    ≡ record { priority = 0; payload = bytes "{}" } ∷ []
unfolding flush_buffer flush_items ship send attempts do_signed classify push drain is_unauthorized
flush_loses = refl
