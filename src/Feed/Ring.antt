-- ===== src/Feed/Ring.antt =====
-- pkg/feed/ringbuffer.go: the replay buffer, with buffers that come from a pool and go back to it.
-- What the pool hands out is a parameter: the contents of a slice of any capacity.
pub mod Queue
pub mod Inv
pub mod Refine
pub mod Replay
pub mod Wipe
mod Tests
use zero_feed.Base.{
  ℕ, zero, suc, ◌+◌, ◌-◌, ◌%◌, Bool, true, false, ◌&&◌, ◌||◌, Option, none, some, List, [], ◌∷◌,
  ◌++◌, length, take, get_or, set, replicate, copy, zero_bytes, ltb, ◌==◌, if◌then◌else◌, ℤ, pos,
  negsuc,
}

-- The slice for `size` bytes: the pooled one if it is large enough.
unfoldable pub get_buffer : List ℕ → ℕ → List ℕ
get_buffer pooled size = if ltb (length pooled) size then replicate size 0 else take size pooled

-- What goes back to the pool: the bytes are overwritten first. `none` is a nil slice.
unfoldable pub put_buffer : Option (List ℕ) → Option (List ℕ)
unfolding zero_bytes
put_buffer none = none
put_buffer (some b) = some (zero_bytes b)

pub record SeqMsg : Type 0 where
  pub seq_num : ℕ
  pub payload : Option (List ℕ)

abbrev pub empty_slot : SeqMsg
empty_slot = record { seq_num = 0; payload = none }

pub record RingBuffer : Type 0 where
  pub capacity : ℕ
  pub slots : List SeqMsg
  pub head : ℕ
  pub tail : ℕ
  pub size : ℕ

abbrev with_capacity : ℕ → RingBuffer
with_capacity n = record {
  capacity = n;
  slots = replicate n empty_slot;
  head = 0;
  tail = 0;
  size = 0;
}

unfoldable pub new_ring_buffer : ℤ → RingBuffer
new_ring_buffer (negsuc n) = with_capacity 100
new_ring_buffer (pos zero) = with_capacity 100
new_ring_buffer (pos (suc n)) = with_capacity (suc n)

-- `len` of a slice that may be nil, and its bytes.
abbrev pub bytes_of : Option (List ℕ) → List ℕ
bytes_of none = []
bytes_of (some b) = b

-- A pooled slice of the message's length, with the message copied into it.
unfoldable pub copy_message : List ℕ → List ℕ → List ℕ
unfolding get_buffer copy
copy_message pooled msg = copy (get_buffer pooled (length msg)) msg

-- The overwriting of the oldest item: its payload goes back to the pool.
unfoldable pub drop_oldest : RingBuffer → RingBuffer × Option (List ℕ)
unfolding put_buffer
drop_oldest rb =
    let oldest = get_or rb.slots rb.head empty_slot in
    (
      record rb {
        slots = set rb.slots rb.head (record oldest { payload = none });
        head = (rb.head + 1) % rb.capacity;
        size = rb.size - 1;
      },
      put_buffer oldest.payload,
    )

unfoldable pub store : RingBuffer → SeqMsg → RingBuffer
store rb item = record rb {
  slots = set rb.slots rb.tail item;
  tail = (rb.tail + 1) % rb.capacity;
  size = rb.size + 1;
}

-- The ring after the push, and what it gave back to the pool.
unfoldable pub push : List ℕ → RingBuffer → ℕ → List ℕ → RingBuffer × Option (List ℕ)
push pooled rb seq_num msg =
    let item : SeqMsg = record { seq_num = seq_num; payload = some (copy_message pooled msg) } in
    if rb.size == rb.capacity
    then (let (rb', released) = drop_oldest rb in (store rb' item, released))
    else (store rb item, none)

-- `data[(head + i) % capacity]`
pub slot_at : RingBuffer → ℕ → SeqMsg
slot_at rb i = get_or rb.slots ((rb.head + i) % rb.capacity) empty_slot

-- A message that the ring hands out.
pub record Msg : Type 0 where
  pub seq : ℕ
  pub bytes : List ℕ

-- The loop of `GetAfter` from `i`, with `n` rounds left; `pooled i` is the buffer of round `i`.
get_after_from : (ℕ → List ℕ) → RingBuffer → ℕ → ℕ → ℕ → List Msg
get_after_from pooled rb last i zero = []
get_after_from pooled rb last i (suc n) =
    let item = slot_at rb i in
    let rest = get_after_from pooled rb last (i + 1) n in
    if ltb last item.seq_num
    then record { seq = item.seq_num; bytes = copy_message (pooled i) (bytes_of item.payload) }
      ∷ rest
    else rest

pub get_after : (ℕ → List ℕ) → RingBuffer → ℕ → List Msg
get_after pooled rb last = get_after_from pooled rb last 0 rb.size

get_all_from : (ℕ → List ℕ) → RingBuffer → ℕ → ℕ → List (List ℕ)
get_all_from pooled rb i zero = []
get_all_from pooled rb i (suc n) =
    copy_message (pooled i) (bytes_of (slot_at rb i).payload) ∷ get_all_from pooled rb (i + 1) n

pub get_all : (ℕ → List ℕ) → RingBuffer → List (List ℕ)
get_all pooled rb = get_all_from pooled rb 0 rb.size

-- `Len` is the field `size`.
pub oldest_seq_num : RingBuffer → ℕ
oldest_seq_num rb = if rb.size == 0 then 0 else (get_or rb.slots rb.head empty_slot).seq_num

unfoldable pub is_overflow : RingBuffer → ℕ → Bool
is_overflow rb last =
    let oldest = (get_or rb.slots rb.head empty_slot).seq_num in
    if rb.size == 0 || last == 0 then false else (ltb 0 oldest && ltb last (oldest - 1))

-- A slot with a payload gives it back and forgets its number; any other stays.
wipe_slot : SeqMsg → Option (List ℕ) → SeqMsg × List (List ℕ)
unfolding zero_bytes
wipe_slot item none = (item, [])
wipe_slot item (some b) = (empty_slot, zero_bytes b ∷ [])

wipe_slots : List SeqMsg → List SeqMsg × List (List ℕ)
unfolding wipe_slot
wipe_slots [] = ([], [])
wipe_slots (item ∷ items) =
    let (item', given) = wipe_slot item item.payload in
    let (items', more) = wipe_slots items in (item' ∷ items', given ++ more)

-- The ring after the wipe, and the buffers that it gave back to the pool.
pub wipe : RingBuffer → RingBuffer × List (List ℕ)
unfolding wipe_slots
wipe rb =
    let (slots', given) = wipe_slots rb.slots in
    (record rb { slots = slots'; head = 0; tail = 0; size = 0 }, given)
