-- ===== src/Websocket/Bounds.antt =====
-- The sizes of what the reader takes and returns, and the end of its loop.
use pulse_frix.Prelude.{
  both, ℕ, zero, suc, ◌+◌, ◌≤◌, ◌<◌, ◌^◌, ◌≡◌, ◌∙◌, ◌%◌, refl, ◌⊎◌, inl, inr, Bool, true, false,
  ◌||◌, Option, none, some, List, [], ◌∷◌, ◌++◌, Text, length, ltb, leb, nat_eq, ◌==◌,
  if◌then◌else◌, arith, Option-cases, length-take, length-drop,
}
use pulse_frix.Websocket.{
  Failure, Frame, Read, done, failed, read_full, extended_length, unmask, read_payload,
  check_header, read_header, read_frame, max_message, Conn, Message, message, broken, out_of_fuel,
  Next, continue, return, on_data, on_frame, read_message, write_frame, write, op_text, op_binary,
  encode, op_ping, op_pong, op_close,
}

length-unmask : (mask : Text) (i : ℕ) (s : Text) → length (unmask mask i s) ≡ length s
unfolding unmask
length-unmask mask i [] = refl
length-unmask mask i (b ∷ s) = ground (arith, length-unmask mask (i + 1) s)

read_full-some :
    (n : ℕ) (s a rest : Text)
    → read_full n s ≡ some (a, rest)
    → (length a ≡ n) × (length rest + n ≡ length s)
unfolding read_full
read_full-some n s a rest e = ground (arith, length-take n s, length-drop n s)

-- What a frame that was read keeps to, and the bytes that it took.
pub record IsWithin (s : Text) (f : Frame) (rest : Text) : Type 0 where
  pub small : length f.payload ≤ 2 ^ 20
  pub control : 8 ≤ f.opcode → (length f.payload ≤ 125) × (f.fin ≡ true)
  pub taken : length rest + length f.payload + 6 ≤ length s

read_payload_done :
    (fin : Bool) (opcode n : ℕ) (s rest : Text) (f : Frame)
    → read_payload fin opcode n s ≡ done f rest
    → (length f.payload ≡ n)
      × (f.opcode ≡ opcode)
      × (f.fin ≡ fin)
      × (length rest + n + 4 ≡ length s)
unfolding read_payload
read_payload_done fin opcode n s rest f e = elim (Option-cases (read_full 4 s)) [
  | inl e' ↦ ground (arith, e, e')
  | inr ((mask, s'), e') ↦ elim (Option-cases (read_full n s')) [
    | inl e'' ↦ ground (arith, e, e', e'')
    | inr ((p, s''), e'') ↦ ground (
      arith,
      e,
      e',
      e'',
      read_full-some 4 s mask s' e',
      read_full-some n s' p s'' e'',
      length-unmask mask 0 p,
    )
  ]
]

check_header_done :
    (fin : Bool) (opcode : ℕ) (masked : Bool) (n : ℕ) (s rest : Text) (f : Frame)
    → check_header fin opcode masked n s ≡ done f rest
    → (read_payload fin opcode n s ≡ done f rest)
      × (n ≤ 2 ^ 20)
      × (8 ≤ opcode → (n ≤ 125) × (fin ≡ true))
unfolding check_header
check_header_done fin opcode masked n s rest f e =
    (ground arith, ground arith, λ le. (ground arith, ground arith))

extended_length-some :
    (n k : ℕ) (s rest : Text) → extended_length n s ≡ some (k, rest) → length rest ≤ length s
unfolding extended_length
extended_length-some n k s rest e = elim (Option-cases (read_full (if n == 126 then 2 else 8) s)) [
  | inl e' ↦ ground (arith, e, e')
  | inr ((b, s'), e') ↦ ground (arith, e, e', read_full-some (if n == 126 then 2 else 8) s b s' e')
]

read_header_done :
    (b0 b1 : ℕ) (s rest : Text) (f : Frame)
    → read_header b0 b1 s ≡ done f rest
    → (n : ℕ) × (s' : Text) × (extended_length (b1 % 128) s ≡ some (n, s'))
      × (check_header (leb 128 b0) (b0 % 16) (leb 128 b1) n s' ≡ done f rest)
unfolding read_header
read_header_done b0 b1 s rest f e = elim (Option-cases (extended_length (b1 % 128) s)) [
  | inl e' ↦ absurd (ground (arith, e, e'))
  | inr ((n, s'), e') ↦ (n, s', e', ground (arith, e, e'))
]

read_frame_done : (s rest : Text) (f : Frame) → read_frame s ≡ done f rest → IsWithin s f rest
unfolding read_frame
read_frame_done [] rest f e = absurd (ground (arith, e))
read_frame_done (_ ∷ []) rest f e = absurd (ground (arith, e))
read_frame_done (b0 ∷ b1 ∷ s) rest f e =
    let (n, s', e', e'') = read_header_done b0 b1 s rest f e in
    let shorter = extended_length-some (b1 % 128) n s s' e' in
    let (read, small, control) =
      check_header_done (leb 128 b0) (b0 % 16) (leb 128 b1) n s' rest f e'' in
    let (sized, op, final, taken) = read_payload_done (leb 128 b0) (b0 % 16) n s' rest f read in
    record {
      small = omega (arith, sized, small);
      control = λ le.
          let (short, last) = control (omega (arith, op, le)) in
          (omega (arith, sized, short), final ∙ last);
      taken = omega (arith, sized, taken, shorter);
    }

-- The message so far is within the limit.
abbrev IsNextWithin : Conn → Next → Type 0
IsNextWithin c (continue op buf c') = (length buf ≤ 2 ^ 20) × (c'.input ≡ c.input)
IsNextWithin c (return (message op buf) c') = length buf ≤ 2 ^ 20
IsNextWithin c (return (broken _) c') = Unit
IsNextWithin c (return out_of_fuel c') = ⊥

abbrev pub IsMessageWithin : Message → Type 0
IsMessageWithin (message op buf) = length buf ≤ 2 ^ 20
IsMessageWithin (broken _) = Unit
IsMessageWithin out_of_fuel = ⊥

on_data-IsNextWithin :
    (op : ℕ) (buf : Text) (f : Frame) (c : Conn) → IsNextWithin c (on_data op buf f c)
unfolding on_data
on_data-IsNextWithin op buf f c =
    both (IsNextWithin c) (ltb max_message (length (buf ++ f.payload))) (λ _. tt)
      (λ e. both (IsNextWithin c) f.fin (λ _. ground (arith, e)) (λ _. (ground (arith, e), refl)))

write-input : (c : Conn) (b : Text) (answers : List Bool) → (write c b answers).1.input ≡ c.input
unfolding write
write-input c b [] = refl
write-input c b (false ∷ answers) = refl
write-input c b (true ∷ answers) = refl

write_frame-input :
    (c : Conn) (opcode : ℕ) (payload : Text) → (write_frame c opcode payload).1.input ≡ c.input
unfolding write_frame
write_frame-input c opcode payload = ground (arith, write-input c (encode opcode payload) c.answers)

on_ping-IsNextWithin :
    (msg_op : ℕ) (buf : Text) (c pinged : Conn) (failure : Option Failure)
    → length buf ≤ 2 ^ 20
    → pinged.input ≡ c.input
    → IsNextWithin c
        (elim failure [ some x ↦ return (broken x) pinged | none ↦ continue msg_op buf pinged ])
on_ping-IsNextWithin msg_op buf c pinged (some x) le e = tt
on_ping-IsNextWithin msg_op buf c pinged none le e = (le, e)

on_frame-IsNextWithin :
    (msg_op : ℕ) (buf : Text) (f : Frame) (c : Conn)
    → length buf ≤ 2 ^ 20
    → IsNextWithin c (on_frame msg_op buf f c)
unfolding on_frame
on_frame-IsNextWithin msg_op buf f c le =
    let P = IsNextWithin c in
    both P (f.opcode == op_ping)
      (λ _. on_ping-IsNextWithin msg_op buf c _ _ le (write_frame-input c op_pong f.payload))
      (λ _.
        both P (f.opcode == op_pong) (λ _. (le, refl))
          (λ _.
            both P (f.opcode == op_close) (λ _. tt)
              (λ _.
                both P (f.opcode == op_text || f.opcode == op_binary)
                  (λ _. both P (msg_op == 0) (λ _. on_data-IsNextWithin f.opcode buf f c) (λ _. tt))
                  (λ _.
                    both P (f.opcode == 0)
                      (λ _.
                        both P (msg_op == 0) (λ _. tt) (λ _. on_data-IsNextWithin msg_op buf f c))
                      (λ _. tt)))))

Read-cases :
    (r : Read)
    → ((f : Frame) × (rest : Text) × (r ≡ done f rest)) ⊎ ((x : Failure) × (r ≡ failed x))
Read-cases (done f rest) = inl (f, rest, refl)
Read-cases (failed x) = inr (x, refl)

module _ (fuel : ℕ) (run : ℕ → Text → Conn → Message × Conn)
    (ih : (op : ℕ) (buf : Text) (c : Conn)
      → length c.input < fuel
      → length buf ≤ 2 ^ 20
      → IsMessageWithin (run op buf c).0) where
  next-IsMessageWithin :
      (c : Conn) (n : Next)
      → length c.input < fuel
      → IsNextWithin c n
      → IsMessageWithin
          (elim n as (λ _. Message × Conn) [
            | return m c' ↦ (m, c')
            | continue op buf' c' ↦ run op buf' c'
          ]).0
  next-IsMessageWithin c (return (message op buf') c') short w = w
  next-IsMessageWithin c (return (broken x) c') short w = tt
  next-IsMessageWithin c (return out_of_fuel c') short w = w
  next-IsMessageWithin c (continue op buf' c') short (small, same) =
      ih op buf' c' (ground (arith, same, short)) small

-- `ReadMessage` returns: with more fuel than there are bytes of input, the loop ends, with a message
-- of at most 1 MiB or with an error.
pub read_message-IsMessageWithin :
    (fuel msg_op : ℕ) (buf : Text) (c : Conn)
    → length c.input < fuel
    → length buf ≤ 2 ^ 20
    → IsMessageWithin (read_message fuel msg_op buf c).0
unfolding read_message
read_message-IsMessageWithin zero msg_op buf c enough le = absurd (ground (arith, enough))
read_message-IsMessageWithin (suc fuel) msg_op buf c enough le =
    elim (Read-cases (read_frame c.input)) [
      | inr (x, e) ↦ rw (e, read_message) tt
      | inl (f, rest, e) ↦
          rw (e, read_message)
            (next-IsMessageWithin fuel (read_message fuel)
              (λ op buf' c' enough' le'. read_message-IsMessageWithin fuel op buf' c' enough' le')
              (record c { input = rest }) (on_frame msg_op buf f (record c { input = rest }))
              (let taken = (read_frame_done c.input rest f e).taken in omega (arith, taken, enough))
              (on_frame-IsNextWithin msg_op buf f (record c { input = rest }) le))
    ]
