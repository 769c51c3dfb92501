-- ===== src/SendBuf/Batch.antt =====
-- A buffer loses, doubles and reorders nothing, and no packet exceeds MAX_UDP_MSG_SIZE.
use fds.Prelude.{
  ℕ, ◌+◌, ◌<◌, ◌≡◌, refl, sym, ◌∙◌, ap, List, [], ◌∷◌, ◌++◌, append_assoc, append-nil, Bool, true,
  false, ◌⊎◌, inl, inr, Bool-cases, arith, All, All-append,
}
use fds.Messages.{Event, tx_begin, tx_end, stored, sent, total_size, total_size-append}
use fds.Messages.{sizeof_paxos_msg, sizeof_batch}
use fds.Config.{max_udp_msg_size}
use fds.SendBuf.{
  Kind, SendBuf, sendbuf_clear, sendbuf_flush, sendbuf_add, sendbuf_add_ack, put_item, is_full,
}

abbrev nonempty {ℓ} : {A : Type ℓ} → List A → Bool
nonempty [] = false
nonempty (x ∷ xs) = true

module _ {A : Type 0} (k : Kind A) where
  -- The header is right, the dirty flag tells whether there is anything, and the message fits.
  pub record IsValid (sb : SendBuf A) : Type 0 where
    pub sized : sb.data_size ≡ sizeof_batch + total_size k.item_size sb.items
    pub flagged : sb.dirty ≡ nonempty sb.items
    pub small : sizeof_paxos_msg + sb.data_size < max_udp_msg_size

  -- A message that fits into a packet of its own.
  abbrev pub Fits : A → Type 0
  Fits a = sizeof_paxos_msg + sizeof_batch + k.item_size a < max_udp_msg_size

  -- The messages that the packets of a trace carry, in order.
  unfoldable pub carried : List Event → List A
  carried [] = []
  carried (sent p ∷ es) = k.unpack p ++ carried es
  carried (_ ∷ es) = carried es

  -- `sendto` is not given more bytes than a receiver's buffer holds.
  abbrev pub Small : Event → Type 0
  Small (sent p) =
      sizeof_paxos_msg + sizeof_batch + total_size k.item_size (k.unpack p) < max_udp_msg_size
  Small _ = Unit {0}

  pub carried-append : (es fs : List Event) → carried (es ++ fs) ≡ carried es ++ carried fs
  unfolding carried
  carried-append [] fs = refl
  carried-append (tx_begin ∷ es) fs = carried-append es fs
  carried-append (tx_end ∷ es) fs = carried-append es fs
  carried-append (stored r ∷ es) fs = carried-append es fs
  carried-append (sent p ∷ es) fs =
      ap (◌++◌ (k.unpack p)) (carried-append es fs)
      ∙ sym (append_assoc (k.unpack p) (carried es) (carried fs))

  -- What a run of a loop that adds messages has done to the buffer, and what it has sent.
  pub record Added (sb : SendBuf A) (xs : List A) (r : SendBuf A × List Event) : Type 0 where
    pub valid : IsValid r.0
    pub kept : carried r.1 ++ r.0.items ≡ sb.items ++ xs
    pub fit : All Small r.1

  nonempty-put : (xs : List A) (a : A) → nonempty (xs ++ a ∷ []) ≡ true
  nonempty-put [] a = refl
  nonempty-put (x ∷ xs) a = refl

  flagged_cases :
      (b : Bool) (xs : List A) → b ≡ nonempty xs → ((b ≡ false) × (xs ≡ [])) ⊎ (b ≡ true)
  flagged_cases b [] h = inl (h, refl)
  flagged_cases b (x ∷ xs) h = inr h

  carried-flush : (sb : SendBuf A) → IsValid sb → carried (sendbuf_flush k sb) ≡ sb.items
  unfolding carried sendbuf_flush
  carried-flush sb v = elim (flagged_cases sb.dirty sb.items v.flagged) [
    | inl (clean, none_left) ↦ rw (clean, none_left)
    | inr full ↦ rw (full, k.unpack-pack, append-nil)
  ]

  pub flush-Small : (sb : SendBuf A) → IsValid sb → All Small (sendbuf_flush k sb)
  unfolding sendbuf_flush
  flush-Small sb v = elim (Bool-cases sb.dirty) [
    | inl full ↦ rw (full, k.unpack-pack) (omega (arith, v.sized, v.small), tt)
    | inr clean ↦ rw clean tt
  ]

  put_item-IsValid :
      (sb : SendBuf A) (a : A)
      → sb.data_size ≡ sizeof_batch + total_size k.item_size sb.items
      → is_full k sb a ≡ false
      → IsValid (put_item k sb a)
  unfolding total_size
  put_item-IsValid sb a e h = record {
    sized = omega (arith, e, total_size-append k.item_size sb.items (a ∷ []));
    flagged = sym (nonempty-put sb.items a);
    small = ground arith;
  }

  fresh_item-IsValid : (sender : ℕ) (a : A) → Fits a → IsValid (put_item k (sendbuf_clear sender) a)
  unfolding sendbuf_clear total_size
  fresh_item-IsValid sender a fa = record {
    sized = omega arith;
    flagged = refl;
    small = omega arith;
  }

  pub clear-IsValid : (sender : ℕ) → IsValid (sendbuf_clear sender)
  unfolding sendbuf_clear total_size
  clear-IsValid sender = record { sized = refl; flagged = refl; small = omega arith }

  pub sendbuf_add-Added :
      (sb : SendBuf A) (a : A) → IsValid sb → Fits a → Added sb (a ∷ []) (sendbuf_add k sb a)
  unfolding sendbuf_add sendbuf_clear carried
  sendbuf_add-Added sb a v fa = elim (Bool-cases (is_full k sb a)) [
    | inl full ↦ rw full record {
      valid = fresh_item-IsValid sb.sender_id a fa;
      kept = ap (λ xs. xs ++ a ∷ []) (carried-flush sb v);
      fit = flush-Small sb v;
    }
    | inr room ↦
        rw room record { valid = put_item-IsValid sb a v.sized room; kept = refl; fit = tt }
  ]

  pub sendbuf_add_ack-Added :
      (sb : SendBuf A) (a : A) → IsValid sb → Fits a → Added sb (a ∷ []) (sendbuf_add_ack k sb a)
  unfolding sendbuf_add_ack sendbuf_clear carried
  sendbuf_add_ack-Added sb a v fa = elim (Bool-cases (is_full k sb a)) [
    | inl full ↦ rw full record {
      valid = fresh_item-IsValid sb.sender_id a fa;
      kept =
          rw (carried-append (sendbuf_flush k sb) (tx_begin ∷ []), append-nil)
            (ap (λ xs. xs ++ a ∷ []) (carried-flush sb v));
      fit = (tt, All-append Small (sendbuf_flush k sb) (tx_begin ∷ []) (flush-Small sb v) (tt, tt));
    }
    | inr room ↦
        rw room record { valid = put_item-IsValid sb a v.sized room; kept = refl; fit = tt }
  ]

  -- An iteration that adds nothing.
  pub Added-nil : (sb : SendBuf A) → IsValid sb → Added sb [] (sb, [])
  unfolding carried
  Added-nil sb v = record { valid = v; kept = sym (append-nil sb.items); fit = tt }

  -- One run after another.
  pub Added-trans :
      {sb sb' sb'' : SendBuf A} {xs ys : List A} {es fs : List Event}
      → Added sb xs (sb', es)
      → Added sb' ys (sb'', fs)
      → Added sb (xs ++ ys) (sb'', es ++ fs)
  Added-trans {sb} {sb'} {sb''} {xs} {ys} {es} {fs} p q = record {
    valid = q.valid;
    kept =
        rw (carried-append es fs, append_assoc (carried es), q.kept, ← append_assoc (carried es))
          (rw p.kept (append_assoc sb.items xs ys));
    fit = All-append Small es fs p.fit q.fit;
  }

  -- A buffer that is cleared, filled with `xs` and flushed sends `xs`, in packets that fit.
  pub Added-flush :
      (sender : ℕ) {xs : List A} {r : SendBuf A × List Event}
      → Added (sendbuf_clear sender) xs r
      → (carried (r.1 ++ sendbuf_flush k r.0) ≡ xs) × All Small (r.1 ++ sendbuf_flush k r.0)
  unfolding sendbuf_clear
  Added-flush sender {xs} {r} p = (
    rw (carried-append r.1 (sendbuf_flush k r.0), carried-flush r.0 p.valid) p.kept,
    All-append Small r.1 (sendbuf_flush k r.0) p.fit (flush-Small r.0 p.valid),
  )

  -- The first message of a cleared buffer is put there, and a flush sends it alone.
  pub sendbuf_add_ack-clear :
      (sender : ℕ) (a : A)
      → Fits a
      → (let (sb, es) = sendbuf_add_ack k (sendbuf_clear sender) a in
          (es ≡ []) × (sendbuf_flush k sb ≡ sent (k.pack sender (a ∷ [])) ∷ []))
  unfolding sendbuf_add_ack
  sendbuf_add_ack-clear sender a fa = elim (Bool-cases (is_full k (sendbuf_clear sender) a)) [
    | inl full ↦ absurd (ground arith)
    | inr room ↦ rw room (refl, refl)
  ]
