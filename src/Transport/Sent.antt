-- ===== src/Transport/Sent.antt =====
-- FragmentedUdp.cpp: what `sendMessage` gives to a UDP stack that takes every datagram.
use post_quantum_uav_uav.Prelude.{
  ℕ, zero, suc, ◌+◌, ◌-◌, ◌*◌, ◌%◌, ◌^◌, ◌≡◌, refl, ap, subst, sym, ◌∙◌, inl, inr, ◌≤◌, ◌<◌, ◌++◌,
  take, drop, slice, length-take, length-drop, take-all, Bool-cases, leb, true, false, some, List,
  [], ◌∷◌, ltb, ◌==◌, length, arith, ltb-false,
}
use post_quantum_uav_uav.Codec.{put_u16, put_u32}
use post_quantum_uav_uav.Transport.Fragment.{payload_length_of, max_fragments, fragment_bytes}
use post_quantum_uav_uav.Transport.Send.{sent, Sending, send_loop, send_message, fragment_count_of}
use post_quantum_uav_uav.Transport.Parse.{IsSendable, sent_bytes}

-- `sendMessage`'s datagrams of the fragments `i`, `i + 1`, ..., `n` of them.
abbrev datagrams_from : ℕ → ℕ → List ℕ → ℕ → ℕ → List (List ℕ)
datagrams_from type session message i zero = []
datagrams_from type session message i (suc n) =
    sent_bytes type session message i ∷ datagrams_from type session message (i + 1) n

module _ (type session : ℕ) (message : List ℕ) (sendable : IsSendable type session message) where
  send_loop-sent :
      (n i framed : ℕ)
      → i + suc n ≡ fragment_count_of (length message)
      → framed ≡ i * 1014
      → send_loop
          (λ _. sent)
          type
          session
          message
          (length message)
          (fragment_count_of (length message))
          (suc n)
          i
          framed
        ≡ record {
          datagrams = datagrams_from type session message i (suc n);
          framed_bytes = length message + fragment_count_of (length message) * 14;
          ok = true;
        }
  unfolding send_loop
  send_loop-sent zero i framed hi hf =
      let last : (framed + (14 + payload_length_of (length message) i)) % 2 ^ 32
          ≡ length message + fragment_count_of (length message) * 14 =
        omega (arith, sendable.fits, sendable.not_empty) in
      λ k. record {
        datagrams = datagrams_from type session message i 1;
        framed_bytes = last k;
        ok = true;
      }
  send_loop-sent (suc n) i framed hi hf =
      ap
        (λ (rest : Sending). record rest {
          datagrams = sent_bytes type session message i ∷ rest.datagrams;
        })
        (send_loop-sent n (i + 1) ((framed + (14 + payload_length_of (length message) i)) % 2 ^ 32)
          (omega arith) (omega (arith, sendable.fits)))

pub send_message_lem :
    (type session : ℕ) (message : List ℕ) (sendable : IsSendable type session message)
    → send_message (λ _. sent) type session (some message) (length message) ≡ record {
      datagrams = datagrams_from type session message 0 (fragment_count_of (length message));
      framed_bytes = length message + fragment_count_of (length message) * 14;
      ok = true;
    }
unfolding send_message
send_message_lem type session message sendable =
    let n = fragment_count_of (length message) - 1 in
    let count : suc n ≡ fragment_count_of (length message) =
      omega (arith, sendable.fits, sendable.not_empty) in
    rw (not_empty, ltb-false 3378 (length message) sendable.fits, some_fragment, few)
      (subst
        (λ (c : ℕ).
          send_loop (λ _. sent) type session message (length message)
            (fragment_count_of (length message)) c 0 0
          ≡ record {
            datagrams = datagrams_from type session message 0 c;
            framed_bytes = length message + fragment_count_of (length message) * 14;
            ok = true;
          })
        count (send_loop-sent type session message sendable n 0 0 (omega arith) refl))
  where
    not_empty : (length message == 0) ≡ false
    not_empty = ground (arith, sendable.not_empty)

    some_fragment : (fragment_count_of (length message) == 0) ≡ false
    some_fragment = ground (arith, sendable.not_empty, sendable.fits)

    few : ltb max_fragments (fragment_count_of (length message)) ≡ false
    few = ltb-false 8 (fragment_count_of (length message)) (omega arith)

-- The fragment `i` of `n` as bytes: magic, protocol version, type, session, length of the message, index,
-- number of fragments, length of the part, and the part.
abbrev pub fragment_of : ℕ → ℕ → List ℕ → ℕ → ℕ → List ℕ
fragment_of type session message n i =
    let part = take 1000 (drop (i * 1000) message) in
    put_u16 0xa55a
    ++ (1
        ∷ type
        ∷ (put_u32 session
            ++ (put_u16 (length message) ++ (i ∷ n ∷ (put_u16 (length part) ++ part)))))

-- The last `count` of `n` fragments, from the fragment `i` on.
abbrev pub fragments_of : ℕ → ℕ → List ℕ → ℕ → ℕ → ℕ → List (List ℕ)
fragments_of type session message n zero i = []
fragments_of type session message n (suc count) i =
    fragment_of type session message n i ∷ fragments_of type session message n count (i + 1)

module _ (type session : ℕ) (message : List ℕ) where
  -- The part of a fragment is what is left of the message, 1000 bytes at most.
  part_same :
      (i : ℕ)
      → slice (i * 1000) (payload_length_of (length message) i) message
        ≡ take 1000 (drop (i * 1000) message)
  part_same i = elim (Bool-cases (leb 1000 (length message - i * 1000))) [
    | inl full ↦
        ap (λ (n : ℕ). take n (drop (i * 1000) message)) {x = payload_length_of (length message) i}
          {y = 1000}
          (let long : 1000 ≤ length message - i * 1000 = ground (arith, full) in
            omega (arith, long))
    | inr short ↦
        let few : length message - i * 1000 ≤ 1000 = ground (arith, short) in
        take-all (payload_length_of (length message) i) (drop (i * 1000) message)
          (omega (arith, few, length-drop (i * 1000) message))
        ∙ sym (
            take-all 1000 (drop (i * 1000) message)
              (omega (arith, few, length-drop (i * 1000) message)))
  ]

  part_length :
      (i : ℕ) → payload_length_of (length message) i ≡ length (take 1000 (drop (i * 1000) message))
  part_length i =
      omega (arith, length-take 1000 (drop (i * 1000) message), length-drop (i * 1000) message)

  sent_bytes-fragment_of :
      (i : ℕ)
      → sent_bytes type session message i
        ≡ fragment_of type session message (fragment_count_of (length message)) i
  unfolding fragment_bytes
  sent_bytes-fragment_of i = λ k.
      put_u16 0xa55a
      ++ (1
          ∷ type
          ∷ (put_u32 session
              ++ (put_u16 (length message)
                  ++ (i
                      ∷ fragment_count_of (length message)
                      ∷ (put_u16 (part_length i k) ++ part_same i k)))))

  datagrams_from-fragments_of :
      (count i : ℕ)
      → datagrams_from type session message i count
        ≡ fragments_of type session message (fragment_count_of (length message)) count i
  datagrams_from-fragments_of zero i = refl
  datagrams_from-fragments_of (suc count) i =
      λ k. sent_bytes-fragment_of i k ∷ datagrams_from-fragments_of count (i + 1) k

-- Where the UDP stack takes every datagram, a message of 1 to 3378 bytes, with a type and a session
-- that fit their fields, goes out as `n` datagrams, where `n` is its length by 1000, rounded up: the
-- datagram `i` holds the header, with the index `i`, the number `n` and the length of the part, and
-- the message's bytes from `1000 * i` on, 1000 at most. All of them are sent in order, and the
-- framed bytes are those of the message and of `n` headers of 14 bytes.
pub send_message-sent :
    (type session : ℕ) (message : List ℕ) (n : ℕ)
    → IsSendable type session message
    → length message ≤ 1000 * n
    → 1000 * n < length message + 1000
    → send_message (λ _. sent) type session (some message) (length message) ≡ record {
      datagrams = fragments_of type session message n n 0;
      framed_bytes = length message + n * 14;
      ok = true;
    }
send_message-sent type session message n sendable enough least =
    let count : fragment_count_of (length message) ≡ n =
      omega (arith, sendable.fits, sendable.not_empty) in
    send_message_lem type session message sendable
    ∙ (λ k. record {
      datagrams =
          datagrams_from-fragments_of type session message (fragment_count_of (length message)) 0 k;
      framed_bytes = length message + fragment_count_of (length message) * 14;
      ok = true;
    })
    ∙ (λ k. record {
      datagrams = fragments_of type session message (count k) (count k) 0;
      framed_bytes = length message + count k * 14;
      ok = true;
    })
