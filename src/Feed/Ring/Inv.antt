-- ===== src/Feed/Ring/Inv.antt =====
-- The invariant of the ring of pkg/feed/ringbuffer.go.
use zero_feed.Base.{
  ℕ, zero, suc, ◌+◌, ◌-◌, ◌%◌, ◌≤◌, ◌<◌, ◌≡◌, ◌≢◌, refl, ap, sym, ◌∙◌, inl, inr, none, Bool-cases,
  ◌==◌, ==_iff, get_or, [], ◌∷◌, List, length, length-set, length-replicate, ℤ, pos, negsuc, arith,
}
use zero_feed.Feed.Ring.{
  RingBuffer, SeqMsg, empty_slot, new_ring_buffer, drop_oldest, store, push, wipe, wipe_slots,
}
use native.Mathlib.Nat.{mod-lt, mod-add-mod, mod-eq_of_lt}

pub record IsValid (rb : RingBuffer) : Type 0 where
  pub some_capacity : 0 < rb.capacity
  pub storage : length rb.slots ≡ rb.capacity
  pub head_in : rb.head < rb.capacity
  pub size_in : rb.size ≤ rb.capacity
  pub tail_at : rb.tail ≡ (rb.head + rb.size) % rb.capacity

-- A new ring is valid and empty, whatever capacity was asked for; one of 0 or less is taken as 100.
pub new_ring_buffer-IsValid : (capacity : ℤ) → IsValid (new_ring_buffer capacity)
unfolding new_ring_buffer
new_ring_buffer-IsValid (pos zero) = ground (arith, length-replicate 100 empty_slot)
new_ring_buffer-IsValid (pos (suc n)) = ground (arith, length-replicate (suc n) empty_slot)
new_ring_buffer-IsValid (negsuc n) = ground (arith, length-replicate 100 empty_slot)

-- A step of the head and `n` more are `n + 1` steps.
pub wrap_twice : (c h n : ℕ) → ((h + 1) % c + n) % c ≡ (h + (n + 1)) % c
wrap_twice c h n =
    let e : h + 1 + n ≡ h + (n + 1) = omega arith in mod-add-mod (h + 1) c n ∙ ap (λ k. k % c) e

-- `n` steps of the tail and one more.
wrap_after : (c h n : ℕ) → ((h + n) % c + 1) % c ≡ (h + (n + 1)) % c
wrap_after c h n =
    let e : h + n + 1 ≡ h + (n + 1) = omega arith in mod-add-mod (h + n) c 1 ∙ ap (λ k. k % c) e

pub drop_oldest-IsValid :
    {rb : RingBuffer} → IsValid rb → rb.size ≡ rb.capacity → IsValid (drop_oldest rb).0
unfolding drop_oldest
drop_oldest-IsValid {rb} v full =
    let e : rb.size - 1 + 1 ≡ rb.size = omega arith in
    let oldest : SeqMsg = record (get_or rb.slots rb.head empty_slot) { payload = none } in
    record {
      some_capacity = v.some_capacity;
      storage = length-set rb.slots rb.head oldest ∙ v.storage;
      head_in = mod-lt (rb.head + 1) v.some_capacity;
      size_in = omega arith;
      tail_at =
          v.tail_at
          ∙ ap (λ k. (rb.head + k) % rb.capacity) (sym e)
          ∙ sym (wrap_twice rb.capacity rb.head (rb.size - 1));
    }

pub store-IsValid :
    {rb : RingBuffer} (item : SeqMsg) → IsValid rb → rb.size < rb.capacity → IsValid (store rb item)
unfolding store
store-IsValid {rb} item v room = record {
  some_capacity = v.some_capacity;
  storage = length-set rb.slots rb.tail item ∙ v.storage;
  head_in = v.head_in;
  size_in = omega arith;
  tail_at = ap (λ t. (t + 1) % rb.capacity) v.tail_at ∙ wrap_after rb.capacity rb.head rb.size;
}

pub capacity-drop_oldest :
    (rb : RingBuffer)
    → ((drop_oldest rb).0.capacity ≡ rb.capacity) × ((drop_oldest rb).0.size ≡ rb.size - 1)
unfolding drop_oldest
capacity-drop_oldest rb = (refl, refl)

-- `Push` keeps the invariant.
pub push-IsValid :
    (pooled : List ℕ) {rb : RingBuffer} (seq_num : ℕ) (msg : List ℕ)
    → IsValid rb
    → IsValid (push pooled rb seq_num msg).0
unfolding push
push-IsValid pooled {rb} seq_num msg v = elim (Bool-cases (rb.size == rb.capacity)) [
  | inl full ↦
      let eq = (==_iff rb.size rb.capacity).0 full in
      rw full (store-IsValid _ (drop_oldest-IsValid v eq) (omega (arith, capacity-drop_oldest rb)))
  | inr room ↦
      let ne : rb.size ≢ rb.capacity = ground arith in rw room (store-IsValid _ v (omega arith))
]

pub capacity-push :
    (pooled : List ℕ) (rb : RingBuffer) (seq_num : ℕ) (msg : List ℕ)
    → (push pooled rb seq_num msg).0.capacity ≡ rb.capacity
unfolding push store drop_oldest
capacity-push pooled rb seq_num msg = ground arith

length-wipe_slots : (items : List SeqMsg) → length (wipe_slots items).0 ≡ length items
unfolding wipe_slots
length-wipe_slots [] = refl
length-wipe_slots (item ∷ items) = ap suc (length-wipe_slots items)

-- `Wipe` keeps the invariant and leaves the ring empty.
pub wipe-IsValid : {rb : RingBuffer} → IsValid rb → IsValid (wipe rb).0
unfolding wipe
wipe-IsValid {rb} v = record {
  some_capacity = v.some_capacity;
  storage = length-wipe_slots rb.slots ∙ v.storage;
  head_in = v.some_capacity;
  size_in = omega arith;
  tail_at = omega (arith, mod-eq_of_lt v.some_capacity);
}
