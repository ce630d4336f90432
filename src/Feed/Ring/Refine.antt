-- ===== src/Feed/Ring/Refine.antt =====
-- A valid ring holds the queue of its items, and `Push` is the push of that queue.
use zero_feed.Base.{
  ℕ, zero, suc, ◌+◌, ◌-◌, ◌%◌, ◌≤◌, ◌<◌, ◌≡◌, ◌≢◌, refl, ap, ap₂, sym, ◌∙◌, ◌⊎◌, inl, inr,
  Bool-cases, ◌==◌, ==_iff, List, [], ◌∷◌, ◌++◌, length, get_or, set, drop, get_or-set_self,
  get_or-set_ne, length-replicate, length-take, copy_lem, append-nil, none, some, arith, drop_all,
}
use mathlib.Core.List.{map, map-append}
use native.Mathlib.Numerals.{add-one}
use native.Mathlib.Nat.{zero-add, add-zero, mod-lt, mod-eq_of_lt, mod-eq-sub-mod}
use native.Mathlib.Decide.{dec_lt}
use zero_feed.Feed.Ring.{
  RingBuffer, SeqMsg, Msg, empty_slot, bytes_of, get_buffer, copy_message, drop_oldest, store, push,
}
use zero_feed.Feed.Ring.Queue
use zero_feed.Feed.Ring.Inv.{IsValid, wrap_twice, drop_oldest-IsValid, capacity-drop_oldest}

length-get_buffer : (pooled : List ℕ) (size : ℕ) → length (get_buffer pooled size) ≡ size
unfolding get_buffer
length-get_buffer pooled size =
    ground (arith, length-replicate {A = ℕ} size 0, length-take size pooled)

-- `copy_message` copies the message, whatever the pooled slice held.
pub copy_message_lem : (pooled msg : List ℕ) → copy_message pooled msg ≡ msg
unfolding copy_message
copy_message_lem pooled msg =
    let buf = get_buffer pooled (length msg) in
    let sized : length buf ≡ length msg = length-get_buffer pooled (length msg) in
    copy_lem buf msg (omega arith)
    ∙ ap (λ l. msg ++ l) (drop_all (length msg) buf (omega arith))
    ∙ append-nil msg

module _ (slots : List SeqMsg) (capacity head : ℕ) where
  -- The `n` slots from the `i`th on, in the order of the loops.
  abbrev pub window : ℕ → ℕ → List SeqMsg
  window i zero = []
  window i (suc n) = get_or slots ((head + i) % capacity) empty_slot ∷ window (i + 1) n

  length-window : (i n : ℕ) → length (window i n) ≡ n
  length-window i zero = refl
  length-window i (suc n) = ap suc (length-window (i + 1) n)

  window-snoc :
      (i n : ℕ)
      → window i (suc n)
        ≡ window i n ++ (get_or slots ((head + (i + n)) % capacity) empty_slot ∷ [])
  window-snoc i zero =
      let e : i ≡ i + 0 = omega arith in
      ap (λ k. get_or slots ((head + k) % capacity) empty_slot ∷ []) e
  window-snoc i (suc n) =
      let e : i + 1 + n ≡ i + suc n = omega arith in
      ap (λ l. get_or slots ((head + i) % capacity) empty_slot ∷ l)
        (window-snoc (i + 1) n
          ∙ ap (λ k. window (i + 1) n ++ (get_or slots ((head + k) % capacity) empty_slot ∷ [])) e)

-- The window that starts one slot later.
window_later :
    (slots : List SeqMsg) (capacity head i n : ℕ)
    → window slots capacity ((head + 1) % capacity) i n ≡ window slots capacity head (i + 1) n
window_later slots capacity head i zero = refl
window_later slots capacity head i (suc n) =
    ap₂ ◌∷◌ (ap (λ k. get_or slots k empty_slot) (wrap_twice capacity head i))
      (window_later slots capacity head (i + 1) n)

-- At most one round is taken off.
mod_once : (c x : ℕ) → x < c + c → ((x < c) × (x % c ≡ x)) ⊎ ((c ≤ x) × (x % c + c ≡ x))
mod_once c x h = elim (dec_lt x c) [
  | yes p ↦ inl (p, mod-eq_of_lt p)
  | no p ↦
      let back : x - c < c = omega arith in
      inr (
        omega arith,
        omega (arith, mod-eq-sub-mod {n = x} {m = c} (omega arith), mod-eq_of_lt back),
      )
]

-- Two positions less than a round apart are different slots.
mod_apart : (c h a b : ℕ) → h < c → a < b → b < a + c → b ≤ c → (h + a) % c ≢ (h + b) % c
mod_apart c h a b hh lt near hb e =
    omega (arith, mod_once c (h + a) (omega arith), mod_once c (h + b) (omega arith))

-- A write outside the window does not change it.
window-set_ne :
    (slots : List SeqMsg) (capacity head i n j : ℕ) (item : SeqMsg)
    → ((k : ℕ) → i ≤ k → k < i + n → j ≢ (head + k) % capacity)
    → window (set slots j item) capacity head i n ≡ window slots capacity head i n
window-set_ne slots capacity head i zero j item apart = refl
window-set_ne slots capacity head i (suc n) j item apart =
    ap₂ ◌∷◌ (get_or-set_ne slots item empty_slot (apart i (omega arith) (omega arith))) (
      window-set_ne slots capacity head (i + 1) n j item
        (λ k lo hi. apart k (omega arith) (omega arith)))

-- The items of a ring, oldest first.
abbrev pub items : RingBuffer → List SeqMsg
items rb = window rb.slots rb.capacity rb.head 0 rb.size

pub length-items : (rb : RingBuffer) → length (items rb) ≡ rb.size
length-items rb = length-window rb.slots rb.capacity rb.head 0 rb.size

-- Storing appends an item.
items-store :
    {rb : RingBuffer} (item : SeqMsg)
    → IsValid rb
    → rb.size < rb.capacity
    → items (store rb item) ≡ items rb ++ (item ∷ [])
unfolding store
items-store {rb} item v room =
    let here : (rb.head + (0 + rb.size)) % rb.capacity ≡ rb.tail = rw zero-add (sym v.tail_at) in
    let apart = λ (k : ℕ) (lo : 0 ≤ k) (hi : k < 0 + rb.size).
      λ (e : rb.tail ≡ (rb.head + k) % rb.capacity).
        mod_apart rb.capacity rb.head k rb.size v.head_in (omega arith) (omega arith) v.size_in
          (sym e ∙ v.tail_at) in
    rw add-one (
      window-snoc (set rb.slots rb.tail item) rb.capacity rb.head 0 rb.size
      ∙ ap₂ ◌++◌ (window-set_ne rb.slots rb.capacity rb.head 0 rb.size rb.tail item apart) (
          ap (λ x. x ∷ [])
            (ap (λ j. get_or (set rb.slots rb.tail item) j empty_slot) here
              ∙ get_or-set_self rb.slots rb.tail item empty_slot
                  (rw (v.storage, v.tail_at) (mod-lt (rb.head + rb.size) v.some_capacity)))))

-- Dropping the oldest item leaves the rest.
items-drop_oldest :
    {rb : RingBuffer}
    → IsValid rb
    → rb.size ≡ rb.capacity
    → items (drop_oldest rb).0 ≡ drop 1 (items rb)
unfolding drop_oldest
items-drop_oldest {rb} v full =
    let oldest : SeqMsg = record (get_or rb.slots rb.head empty_slot) { payload = none } in
    let here : (rb.head + 0) % rb.capacity ≡ rb.head = rw add-zero (mod-eq_of_lt v.head_in) in
    let one_less : suc (rb.size - 1) ≡ rb.size = omega arith in
    let apart = λ (k : ℕ) (lo : 0 + 1 ≤ k) (hi : k < 0 + 1 + (rb.size - 1)).
      λ (e : rb.head ≡ (rb.head + k) % rb.capacity).
        mod_apart rb.capacity rb.head 0 k v.head_in (omega arith) (omega arith) (omega arith)
          (here ∙ e) in
    window_later (set rb.slots rb.head oldest) rb.capacity rb.head 0 (rb.size - 1)
    ∙ window-set_ne rb.slots rb.capacity rb.head (0 + 1) (rb.size - 1) rb.head oldest apart
    ∙ ap (λ n. drop 1 (window rb.slots rb.capacity rb.head 0 n)) one_less

-- The messages of the ring, oldest first.
abbrev pub to_msg : SeqMsg → Msg
to_msg item = record { seq = item.seq_num; bytes = bytes_of item.payload }

abbrev pub contents : RingBuffer → List Msg
contents rb = map to_msg (items rb)

pub length-contents : (rb : RingBuffer) → length (contents rb) ≡ rb.size
length-contents rb = length-map (items rb) ∙ length-items rb
  where
    length-map : (xs : List SeqMsg) → length (map to_msg xs) ≡ length xs
    length-map [] = refl
    length-map (x ∷ xs) = ap suc (length-map xs)

map-drop_one : (xs : List SeqMsg) → map to_msg (drop 1 xs) ≡ drop 1 (map to_msg xs)
map-drop_one [] = refl
map-drop_one (x ∷ xs) = refl

-- Push on a valid ring appends the message to its queue, whatever the pooled buffer holds, and
-- forgets the oldest message exactly if the ring is full.
pub push_refines :
    (pooled : List ℕ) {rb : RingBuffer} (seq_num : ℕ) (msg : List ℕ)
    → IsValid rb
    → contents (push pooled rb seq_num msg).0
      ≡ Queue.push rb.capacity (contents rb) (record { seq = seq_num; bytes = msg })
unfolding push Queue.push
push_refines pooled {rb} seq_num msg v =
    let item : SeqMsg = record { seq_num = seq_num; payload = some (copy_message pooled msg) } in
    let same : to_msg item ≡ record { seq = seq_num; bytes = msg } =
      ap (λ b. record { seq = seq_num; bytes = b }) (copy_message_lem pooled msg) in
    elim (Bool-cases (rb.size == rb.capacity)) [
      | inl full ↦
          let eq = (==_iff rb.size rb.capacity).0 full in
          rw (length-contents rb, full)
            (ap (map to_msg) (
                items-store item (drop_oldest-IsValid v eq)
                  (omega (arith, capacity-drop_oldest rb)))
              ∙ map-append _ _ _
              ∙ ap₂ (λ l x. l ++ (x ∷ []))
                  (ap (map to_msg) (items-drop_oldest v eq) ∙ map-drop_one (items rb)) same)
      | inr room ↦
          let ne : rb.size ≢ rb.capacity = ground arith in
          rw (length-contents rb, room)
            (ap (map to_msg) (items-store item v (omega arith))
              ∙ map-append _ _ _
              ∙ ap (λ x. contents rb ++ (x ∷ [])) same)
    ]
