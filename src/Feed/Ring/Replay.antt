-- ===== src/Feed/Ring/Replay.antt =====
-- What the replay buffer of pkg/feed/ringbuffer.go hands out after any pushes.
use zero_feed.Base.{
  ℕ, zero, suc, ◌+◌, ◌-◌, ◌≤◌, ◌<◌, ◌≡◌, ◌≢◌, refl, ap, ap₂, sym, ◌∙◌, inl, inr, false, Bool-cases,
  ◌==◌, ==_iff, List, [], ◌∷◌, length, get_or, drop, drop_all, length-drop, nil_of_length, ltb,
  if◌then◌else◌, All, ℤ, pos, negsuc, arith,
}
use mathlib.Core.List.{map}
use native.Mathlib.Nat.{add-zero, mod-eq_of_lt}
use zero_feed.Feed.Ring.{
  RingBuffer, Msg, empty_slot, new_ring_buffer, push, slot_at, get_after_from, get_after,
  get_all_from, get_all, oldest_seq_num, is_overflow,
}
use zero_feed.Feed.Ring.Queue
use zero_feed.Feed.Ring.Queue.{last_items, push_all-last_items}
use zero_feed.Feed.Ring.Inv.{IsValid, new_ring_buffer-IsValid, push-IsValid, capacity-push}
use zero_feed.Feed.Ring.Refine.{
  window, contents, to_msg, copy_message_lem, push_refines, length-contents,
}

-- Pushes in order, each with the buffer that the pool hands it.
unfoldable pub pushes : RingBuffer → List (List ℕ × Msg) → RingBuffer
pushes rb [] = rb
pushes rb ((pooled, m) ∷ ms) = pushes (push pooled rb m.seq m.bytes).0 ms

abbrev pub pushed : List (List ℕ × Msg) → List Msg
pushed [] = []
pushed ((pooled, m) ∷ ms) = m ∷ pushed ms

pushes_refine :
    (rb : RingBuffer) (ms : List (List ℕ × Msg))
    → IsValid rb
    → IsValid (pushes rb ms)
      × (contents (pushes rb ms) ≡ Queue.push_all rb.capacity (contents rb) (pushed ms))
unfolding pushes Queue.push_all
pushes_refine rb [] v = (v, refl)
pushes_refine rb ((pooled, m) ∷ ms) v =
    let rb' = (push pooled rb m.seq m.bytes).0 in
    let (valid, same) = pushes_refine rb' ms (push-IsValid pooled m.seq m.bytes v) in
    (
      valid,
      same
          ∙ ap₂ (λ c q. Queue.push_all c q (pushed ms)) (capacity-push pooled rb m.seq m.bytes)
              (push_refines pooled m.seq m.bytes v),
    )

contents_new : (capacity : ℤ) → contents (new_ring_buffer capacity) ≡ []
unfolding new_ring_buffer
contents_new (pos zero) = refl
contents_new (pos (suc n)) = refl
contents_new (negsuc n) = refl

-- After any pushes a new ring is valid and holds exactly the last messages, as many as its
-- capacity, in the order of the pushes, whatever buffers the pool handed out.
pub pushes-last_items :
    (capacity : ℤ) (ms : List (List ℕ × Msg))
    → IsValid (pushes (new_ring_buffer capacity) ms)
      × (contents (pushes (new_ring_buffer capacity) ms)
          ≡ last_items (new_ring_buffer capacity).capacity (pushed ms))
pushes-last_items capacity ms =
    let rb = new_ring_buffer capacity in
    let v = new_ring_buffer-IsValid capacity in
    let (valid, same) = pushes_refine rb ms v in
    (
      valid,
      same
          ∙ ap (λ q. Queue.push_all rb.capacity q (pushed ms)) (contents_new capacity)
          ∙ from_empty rb.capacity v.some_capacity,
    )
  where
    from_empty : (c : ℕ) → 0 < c → Queue.push_all c [] (pushed ms) ≡ last_items c (pushed ms)
    from_empty c h =
        ap (λ q. Queue.push_all c q (pushed ms)) (sym (drop_all {A = Msg} (0 - c) [] (omega arith)))
        ∙ push_all-last_items c [] (pushed ms) h

-- The messages after a number.
abbrev pub after : ℕ → List Msg → List Msg
after last [] = []
after last (m ∷ ms) = if ltb last m.seq then m ∷ after last ms else after last ms

module _ (pooled : ℕ → List ℕ) (rb : RingBuffer) where
  get_after_from_lem :
      (last i n : ℕ)
      → get_after_from pooled rb last i n
        ≡ after last (map to_msg (window rb.slots rb.capacity rb.head i n))
  unfolding get_after_from slot_at
  get_after_from_lem last i zero = refl
  get_after_from_lem last i (suc n) =
      let item = slot_at rb i in rw (copy_message_lem, get_after_from_lem last (i + 1) n)

  -- `GetAfter` gives the messages of the ring with a larger number, oldest first, with the bytes that
  -- were pushed.
  pub get_after-contents : (last : ℕ) → get_after pooled rb last ≡ after last (contents rb)
  unfolding get_after
  get_after-contents last = get_after_from_lem last 0 rb.size

  get_all_from_lem :
      (i n : ℕ)
      → get_all_from pooled rb i n
        ≡ map (λ m. m.bytes) (map to_msg (window rb.slots rb.capacity rb.head i n))
  unfolding get_all_from slot_at
  get_all_from_lem i zero = refl
  get_all_from_lem i (suc n) = rw (copy_message_lem, get_all_from_lem (i + 1) n)

  -- `GetAll` gives the bytes of all messages of the ring, oldest first.
  pub get_all-contents : get_all pooled rb ≡ map (λ m. m.bytes) (contents rb)
  unfolding get_all
  get_all-contents = get_all_from_lem 0 rb.size

-- The numbers grow.
abbrev pub IsIncreasing : List Msg → Type 0
IsIncreasing [] = Unit
IsIncreasing (m ∷ ms) = All (λ k. m.seq < k.seq) ms × IsIncreasing ms

abbrev first_seq : List Msg → ℕ
first_seq [] = 0
first_seq (m ∷ ms) = m.seq

first_seq-drop :
    (n k : ℕ) (ms : List Msg) → All (λ m. n < m.seq) ms → k < length ms → n < first_seq (drop k ms)
first_seq-drop n k [] h lt = elim lt [ ]
first_seq-drop n zero (m ∷ ms) h lt = h.0
first_seq-drop n (suc k) (m ∷ ms) h lt = first_seq-drop n k ms h.1 (omega arith)

-- Items before the first that is kept are not after a number that is at most one below it.
after-drop :
    (last k : ℕ) (ms : List Msg)
    → IsIncreasing ms
    → k < length ms
    → first_seq (drop k ms) ≤ last + 1
    → after last (drop k ms) ≡ after last ms
after-drop last k [] inc lt h = elim lt [ ]
after-drop last zero (m ∷ ms) inc lt h = refl
after-drop last (suc k) (m ∷ ms) inc lt h =
    ground (arith, first_seq-drop m.seq k ms inc.0, after-drop last k ms inc.1)

first_seq-contents :
    (rb : RingBuffer)
    → IsValid rb
    → rb.size ≢ 0
    → first_seq (contents rb) ≡ (get_or rb.slots rb.head empty_slot).seq_num
first_seq-contents rb v ne =
    let e : rb.size ≡ suc (rb.size - 1) = omega arith in
    ap (λ n. first_seq (map to_msg (window rb.slots rb.capacity rb.head 0 n))) e
    ∙ ap (λ k. (get_or rb.slots k empty_slot).seq_num) (rw add-zero (mod-eq_of_lt v.head_in))

-- `OldestSeqNum` is the number of the oldest message, and 0 for an empty ring.
pub oldest_seq_num-contents :
    (rb : RingBuffer) → IsValid rb → oldest_seq_num rb ≡ first_seq (contents rb)
unfolding oldest_seq_num
oldest_seq_num-contents rb v = elim (Bool-cases (rb.size == 0)) [
  | inl empty ↦ rw empty (
      ap (λ n. first_seq (map to_msg (window rb.slots rb.capacity rb.head 0 n)))
        (sym ((==_iff rb.size 0).0 empty)))
  | inr full ↦ let ne : rb.size ≢ 0 = ground arith in rw full (sym (first_seq-contents rb v ne))
]

-- If the numbers of a history of pushes to a new ring grow and IsOverflow denies a loss for a
-- number other than 0, GetAfter gives every message of the whole history after that number, in
-- order and with the bytes that were pushed.
pub get_after_complete :
    (capacity : ℤ) (ms : List (List ℕ × Msg)) (pooled : ℕ → List ℕ) (last : ℕ)
    → IsIncreasing (pushed ms)
    → last ≢ 0
    → is_overflow (pushes (new_ring_buffer capacity) ms) last ≡ false
    → get_after pooled (pushes (new_ring_buffer capacity) ms) last ≡ after last (pushed ms)
unfolding is_overflow
get_after_complete capacity ms pooled last inc ne h =
    let rb = pushes (new_ring_buffer capacity) ms in
    let (v, kept) = pushes-last_items capacity ms in
    let c = (new_ring_buffer capacity).capacity in
    let room = (new_ring_buffer-IsValid capacity).some_capacity in
    let k = length (pushed ms) - c in
    let sized : rb.size ≡ length (pushed ms) - k =
      sym (length-contents rb) ∙ ap length kept ∙ length-drop k (pushed ms) in
    get_after-contents pooled rb last ∙ ap (after last) kept ∙ elim (Bool-cases (rb.size == 0)) [
      | inl empty ↦
          let none_left = (==_iff rb.size 0).0 empty in
          let none_pushed : pushed ms ≡ [] = nil_of_length (pushed ms) (omega (arith, sized)) in
          ap (after last) (ap (drop k) none_pushed ∙ drop_all {A = Msg} k [] (omega arith))
          ∙ ap (after last) (sym none_pushed)
      | inr some_items ↦
          let ne_size : rb.size ≢ 0 = ground arith in
          let first : (get_or rb.slots rb.head empty_slot).seq_num
              ≡ first_seq (drop k (pushed ms)) =
            sym (first_seq-contents rb v ne_size) ∙ ap first_seq kept in
          let near : (get_or rb.slots rb.head empty_slot).seq_num ≤ last + 1 = ground arith in
          after-drop last k (pushed ms) inc (omega (arith, sized)) (omega arith)
    ]
