-- ===== src/Feed/Ring/Wipe.antt =====
-- `Wipe` of pkg/feed/ringbuffer.go.
use zero_feed.Base.{
  ℕ, ◌≡◌, refl, ap, Option, none, some, List, [], ◌∷◌, length, replicate, All, ap₂, ◌++◌,
  zero_bytes_lem,
}
use zero_feed.Feed.Ring.{RingBuffer, SeqMsg, wipe_slot, wipe_slots, wipe, get_after, get_after_from}
use zero_feed.Feed.Ring.Inv.{IsValid, wipe-IsValid}

-- Zeros, as many as the bytes of each payload.
abbrev pub zeros_for : Option (List ℕ) → List (List ℕ)
zeros_for none = []
zeros_for (some b) = replicate (length b) 0 ∷ []

abbrev pub scrubbed : List SeqMsg → List (List ℕ)
scrubbed [] = []
scrubbed (item ∷ slots) = zeros_for item.payload ++ scrubbed slots

wipe_slot_lem :
    (item : SeqMsg) (p : Option (List ℕ))
    → item.payload ≡ p
    → ((wipe_slot item p).0.payload ≡ none) × ((wipe_slot item p).1 ≡ zeros_for p)
unfolding wipe_slot
wipe_slot_lem item none e = (e, refl)
wipe_slot_lem item (some b) e = (refl, ap (λ l. l ∷ []) (zero_bytes_lem b))

wipe_slots_lem :
    (slots : List SeqMsg)
    → All (λ item. item.payload ≡ none) (wipe_slots slots).0
      × ((wipe_slots slots).1 ≡ scrubbed slots)
unfolding wipe_slots
wipe_slots_lem [] = (tt, refl)
wipe_slots_lem (item ∷ slots) =
    let (nils, zeros) = wipe_slots_lem slots in
    let (nil, given) = wipe_slot_lem item item.payload refl in
    ((nil, nils), ap₂ (λ xs ys. xs ++ ys) given zeros)

-- After Wipe of a valid ring every slot is nil, what went back to the pool is, for each payload
-- that was there and in their order, a buffer of as many zeros as it had bytes, and the ring is
-- valid and replays nothing.
pub wipe_lem :
    (rb : RingBuffer) (pooled : ℕ → List ℕ) (last : ℕ)
    → IsValid rb
    → All (λ item. item.payload ≡ none) (wipe rb).0.slots
      × ((wipe rb).1 ≡ scrubbed rb.slots)
      × IsValid (wipe rb).0
      × (get_after pooled (wipe rb).0 last ≡ [])
wipe_lem rb pooled last v =
    let (nils, zeros) = wipe_slots_lem rb.slots in
    (
      unfold wipe in nils,
      unfold wipe in zeros,
      wipe-IsValid v,
      unfold wipe get_after get_after_from in refl,
    )
