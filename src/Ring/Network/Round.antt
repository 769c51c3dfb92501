-- ===== src/Ring/Network/Round.antt =====
-- ring_paxos/lib/network_udp.c: a sender and a receiver of its packets.
use fds.Prelude.{
  ℕ, ◌+◌, ◌-◌, ◌≤◌, ◌≡◌, refl, ap, sym, List, [], ◌∷◌, ◌++◌, map, arith, Option, some, true, false,
  Bool-cases, inl, inr, ltb, leb, ◌==◌, subst, length, length-append, append_assoc, append-nil, All,
  All-append, if◌then◌else◌, leb→le,
}
use fds.Ring.Network.{
  Message, max_message_size, max_udp_payload, UdpSender, udp_sender_init, udp_sender_force_flush,
  make_room, flush_full, net_send_udp, send_all, frame, Received, udp_read_callback_wrapper,
}
use fds.Ring.Network.Frames.{
  IsSmall, received_as, frames, length-frame, frames-append, frames-empty,
  udp_read_callback_wrapper-frames,
}

-- All that a receiver of the packets hands on.
unfoldable pub received_all : List (List ℕ) → List Received
received_all [] = []
received_all (p ∷ ps) = udp_read_callback_wrapper p ++ received_all ps

-- The messages that are not too long to be sent.
unfoldable pub sendable : List Message → List Message
sendable [] = []
sendable (m ∷ ms) = if leb (length m.payload) max_message_size then m ∷ sendable ms else sendable ms

received_all-append :
    (ps : List (List ℕ)) (p : List ℕ)
    → received_all (ps ++ p ∷ []) ≡ received_all ps ++ udp_read_callback_wrapper p
unfolding received_all
received_all-append [] p = append-nil _
received_all-append (q ∷ ps) p = rw (
  received_all-append ps p,
  append_assoc (udp_read_callback_wrapper q) (received_all ps) (udp_read_callback_wrapper p),
)

-- The buffer holds frames that end within `room` bytes; with the packets on the wire, which fit a
-- receiver's buffer, they are the messages `ms`.
record Carries (room : ℕ) (us : UdpSender) (rs : List Received) : Type 0 where
  pending : List Message
  buffered : us.send_buf ≡ frames pending
  small : All IsSmall pending
  bounded : length us.send_buf ≤ room
  fit : All (λ p. length p ≤ max_udp_payload) us.sent
  carried : received_all us.sent ++ map received_as pending ≡ rs

rebound :
    {a b : ℕ} (us : UdpSender) (rs : List Received)
    → length us.send_buf ≤ b
    → Carries a us rs
    → Carries b us rs
rebound us rs h c = record {
  pending = c.pending;
  buffered = c.buffered;
  small = c.small;
  bounded = h;
  fit = c.fit;
  carried = c.carried;
}

net_send_udp-too_long :
    (send : List (List ℕ) → List ℕ → Option ℕ) (m : Message) (us : UdpSender)
    → leb (length m.payload) max_message_size ≡ false
    → net_send_udp send m us ≡ some us
unfolding net_send_udp
net_send_udp-too_long send m us h =
    let e : ltb max_message_size (length m.payload) ≡ true = ground arith in rw e

map-append {ℓ κ} :
    {A : Type ℓ} {B : Type κ} (f : A → B) (xs ys : List A) → map f (xs ++ ys) ≡ map f xs ++ map f ys
map-append f [] ys = refl
map-append f (x ∷ xs) ys = ap (λ zs. f x ∷ zs) (map-append f xs ys)

frames_none : frames [] ≡ []
unfolding frames
frames_none = refl

module _ (send : List (List ℕ) → List ℕ → Option ℕ)
    (sends_all : (before : List (List ℕ)) (p : List ℕ) → send before p ≡ some (length p)) where
  force_flush-Carries :
      (us : UdpSender) (rs : List Received)
      → Carries max_udp_payload us rs
      → (us' : UdpSender) × (udp_sender_force_flush send us ≡ some (us', 0)) × Carries 0 us' rs
  unfolding udp_sender_force_flush received_all
  force_flush-Carries us rs c =
      let fits : leb (length us.send_buf) max_udp_payload ≡ true = ground (arith, c.bounded) in
      elim (Bool-cases (length us.send_buf == 0)) [
        | inl e ↦ rw (fits, e) (us, refl, rebound us rs (ground arith) c)
        | inr e ↦
            let same : (length us.send_buf == length us.send_buf) ≡ true = ground arith in
            rw (fits, e, sends_all us.sent us.send_buf, same)
              (
                record { send_buf = []; sent = us.sent ++ us.send_buf ∷ [] },
                refl,
                record {
                  pending = [];
                  buffered = rw frames_none;
                  small = tt;
                  bounded = omega arith;
                  fit = All-append _ us.sent (us.send_buf ∷ []) c.fit (c.bounded, tt);
                  carried = rw (
                    append-nil (received_all (us.sent ++ us.send_buf ∷ [])),
                    received_all-append us.sent us.send_buf,
                    c.buffered,
                    udp_read_callback_wrapper-frames c.pending c.small
                        (subst (λ b. length b ≤ max_udp_payload) c.buffered c.bounded),
                    c.carried,
                  );
                },
              )
      ]

  make_room-Carries :
      (n : ℕ) (us : UdpSender) (rs : List Received)
      → Carries 8971 us rs
      → n ≤ max_udp_payload
      → (us' : UdpSender) × (make_room send n us ≡ some us') × Carries (max_udp_payload - n) us' rs
  unfolding make_room
  make_room-Carries n us rs c h =
      elim (Bool-cases (ltb max_message_size (length us.send_buf + n))) [
        | inl e ↦
            let (us', eq, c') =
              force_flush-Carries us rs (rebound us rs (omega (arith, c.bounded)) c) in
            rw (e, eq) (us', refl, rebound us' rs (omega (arith, c'.bounded)) c')
        | inr e ↦ rw e (us, refl, rebound us rs (ground arith) c)
      ]

  flush_full-Carries :
      (us : UdpSender) (rs : List Received)
      → Carries max_udp_payload us rs
      → (us' : UdpSender) × (flush_full send us ≡ some us') × Carries 8971 us' rs
  unfolding flush_full
  flush_full-Carries us rs c = elim (Bool-cases (leb max_message_size (length us.send_buf + 8))) [
    | inl e ↦
        let (us', eq, c') = force_flush-Carries us rs c in
        rw (e, eq) (us', refl, rebound us' rs (omega (arith, c'.bounded)) c')
    | inr e ↦ rw e (us, refl, rebound us rs (ground arith) c)
  ]

  append_frame-Carries :
      (m : Message) (us : UdpSender) (rs : List Received)
      → length m.payload ≤ max_message_size
      → Carries (max_udp_payload - (length m.payload + 8)) us rs
      → Carries max_udp_payload
          (record us { send_buf = us.send_buf ++ frame m })
          (rs ++ received_as m ∷ [])
  append_frame-Carries m us rs h c = record {
    pending = c.pending ++ m ∷ [];
    buffered = rw (frames-append c.pending m, c.buffered);
    small = All-append IsSmall c.pending (m ∷ []) c.small (omega arith, tt);
    bounded = omega (arith, c.bounded, length-append us.send_buf (frame m), length-frame m);
    fit = c.fit;
    carried = rw (
      map-append received_as c.pending (m ∷ []),
      sym c.carried,
      append_assoc (received_all us.sent) (map received_as c.pending) (received_as m ∷ []),
    );
  }

  -- A message of a legal size is carried after those before it.
  net_send_udp-Carries :
      (m : Message) (us : UdpSender) (rs : List Received)
      → length m.payload ≤ max_message_size
      → Carries 8971 us rs
      → (us' : UdpSender) × (net_send_udp send m us ≡ some us')
        × Carries 8971 us' (rs ++ received_as m ∷ [])
  unfolding net_send_udp
  net_send_udp-Carries m us rs h c =
      let legal : ltb max_message_size (length m.payload) ≡ false = ground arith in
      let (us1, e1, c1) = make_room-Carries (length m.payload + 8) us rs c (omega arith) in
      let (us2, e2, c2) =
        flush_full-Carries (record us1 { send_buf = us1.send_buf ++ frame m })
          (rs ++ received_as m ∷ []) (append_frame-Carries m us1 rs h c1) in
      rw (legal, e1, e2) (us2, refl, c2)

  send_all-Carries :
      (ms : List Message) (us : UdpSender) (rs : List Received)
      → Carries 8971 us rs
      → (us' : UdpSender) × (send_all send ms us ≡ some us')
        × (received_all us'.sent ≡ rs ++ map received_as (sendable ms))
        × All (λ p. length p ≤ max_udp_payload) us'.sent
  unfolding send_all sendable
  send_all-Carries [] us rs c =
      let (us', e, c') = force_flush-Carries us rs (rebound us rs (omega (arith, c.bounded)) c) in
      let none_left : c'.pending ≡ [] =
        frames-empty c'.pending
          (subst (λ b. length b ≡ 0) c'.buffered (omega (arith, c'.bounded))) in
      rw e (
        us',
        refl,
        rw (append-nil rs, sym c'.carried, none_left, append-nil (received_all us'.sent)),
        c'.fit,
      )
  send_all-Carries (m ∷ ms) us rs c = elim (Bool-cases (leb (length m.payload) max_message_size)) [
    | inl e ↦
        let (us1, e1, c1) = net_send_udp-Carries m us rs (leb→le _ _ e) c in
        let (us2, e2, r2, f2) = send_all-Carries ms us1 (rs ++ received_as m ∷ []) c1 in
        rw (e1, e2, e)
          (
            us2,
            refl,
            rw (r2, append_assoc rs (received_as m ∷ []) (map received_as (sendable ms))),
            f2,
          )
    | inr e ↦
        let (us2, e2, r2, f2) = send_all-Carries ms us rs c in
        rw (net_send_udp-too_long send m us e, e, e2) (us2, refl, r2, f2)
  ]

-- If the system call sends each packet whole, any list of messages can be sent and flushed from a new
-- sender without an assertion failing; a receiver of the packets, none of which is longer than its
-- buffer, is handed exactly the messages of at most MAX_MESSAGE_SIZE bytes, in order, each with
-- the value of its type and its bytes.
pub send_all-received :
    (send : List (List ℕ) → List ℕ → Option ℕ)
    → ((before : List (List ℕ)) (p : List ℕ) → send before p ≡ some (length p))
    → (ms : List Message)
    → (us : UdpSender) × (send_all send ms udp_sender_init ≡ some us)
      × (received_all us.sent ≡ map received_as (sendable ms))
      × All (λ p. length p ≤ max_udp_payload) us.sent
unfolding received_all
send_all-received send sends_all ms =
    send_all-Carries send sends_all ms udp_sender_init [] (record {
      pending = [];
      buffered = rw frames_none;
      small = tt;
      bounded = omega arith;
      fit = tt;
      carried = refl;
    })
