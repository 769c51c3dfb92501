-- ===== src/Ring/Network/Frames.antt =====
-- The bytes of the buffer in ring_paxos/lib/network_udp.c, and what a receiver makes of them.
use fds.Prelude.{
  ℕ, zero, suc, ◌+◌, ◌*◌, ◌/◌, ◌%◌, ◌^◌, ◌≤◌, ◌<◌, ◌≡◌, refl, List, [], ◌∷◌, ◌++◌, map, arith, ltb,
  false, length, length-append, append_assoc, append-nil, take-append, drop-append, not_lt→ltb, All,
  take_all,
}
use fds.Ring.Network.{
  LpMsgType, lp_msg_type_value, Message, lp_message_header, frame, deliver_messages, Received,
  udp_read_callback_wrapper, max_udp_payload,
}

-- The payload's size fits the `uint16_t` of the header.
abbrev pub IsSmall : Message → Type 0
IsSmall m = length m.payload < 65536

abbrev pub received_as : Message → Received
received_as m = record { type_code = lp_msg_type_value m.type; bytes = m.payload }

unfoldable pub frames : List Message → List ℕ
frames [] = []
frames (m ∷ ms) = frame m ++ frames ms

value-bound : (t : LpMsgType) → lp_msg_type_value t < 65536
unfolding lp_msg_type_value
value-bound t = grind arith

word_of_bytes :
    (x : ℕ)
    → x < 65536
    → x % 256 + x / 256 % 256 * 256 + x / 65536 % 256 * 65536 + x / 16777216 % 256 * 16777216 ≡ x
word_of_bytes x h = omega arith

size_of_bytes : (x : ℕ) → x < 65536 → x % 256 + x / 256 % 256 * 256 ≡ x
size_of_bytes x h = omega arith

pub length-frame : (m : Message) → length (frame m) ≡ length m.payload + 8
unfolding frame lp_message_header
length-frame m = omega arith

-- One round of the loop.
deliver_messages-frame :
    (m : Message) (n : ℕ) (rest : List ℕ)
    → IsSmall m
    → deliver_messages (suc n) (frame m ++ rest) ≡ received_as m ∷ deliver_messages n rest
unfolding deliver_messages frame lp_message_header
deliver_messages-frame m n rest h =
    let e : ltb (length (m.payload ++ rest)) (length m.payload) ≡ false =
      not_lt→ltb _ _ (omega (arith, length-append m.payload rest)) in
    rw (
      size_of_bytes (length m.payload) h,
      word_of_bytes (lp_msg_type_value m.type) (value-bound m.type),
      e,
      take-append m.payload rest,
      drop-append m.payload rest,
    )

pub deliver_messages-frames :
    (ms : List Message) (n : ℕ)
    → All IsSmall ms
    → length (frames ms) ≤ n
    → deliver_messages n (frames ms) ≡ map received_as ms
unfolding deliver_messages frames
deliver_messages-frames [] zero h lt = refl
deliver_messages-frames [] (suc n) h lt = refl
deliver_messages-frames (m ∷ ms) zero h lt =
    absurd (omega (arith, length-append (frame m) (frames ms), length-frame m))
deliver_messages-frames (m ∷ ms) (suc n) h lt = rw (
  deliver_messages-frame m n (frames ms) h.0,
  deliver_messages-frames ms n h.1
      (omega (arith, length-append (frame m) (frames ms), length-frame m)),
)

pub frames-append : (ms : List Message) (m : Message) → frames (ms ++ m ∷ []) ≡ frames ms ++ frame m
unfolding frames
frames-append [] m = append-nil (frame m)
frames-append (a ∷ ms) m = rw (frames-append ms m, append_assoc (frame a) (frames ms) (frame m))

pub frames-empty : (ms : List Message) → length (frames ms) ≡ 0 → ms ≡ []
unfolding frames
frames-empty [] h = refl
frames-empty (m ∷ ms) h =
    absurd (omega (arith, length-append (frame m) (frames ms), length-frame m))

-- A packet of frames that fits the receiver's buffer is read in full.
pub udp_read_callback_wrapper-frames :
    (ms : List Message)
    → All IsSmall ms
    → length (frames ms) ≤ max_udp_payload
    → udp_read_callback_wrapper (frames ms) ≡ map received_as ms
unfolding udp_read_callback_wrapper
udp_read_callback_wrapper-frames ms h lt =
    let e : length (frames ms) % 2 ^ 16 ≡ length (frames ms) = omega arith in
    rw (
      take_all max_udp_payload (frames ms) lt,
      e,
      take_all (length (frames ms)) (frames ms) (omega arith),
      deliver_messages-frames ms (length (frames ms)) h (omega arith),
    )
