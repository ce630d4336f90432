-- ===== src/Feed/Ring/Tests.antt =====
-- The theorems of the replay buffer at concrete inputs, and a run.
use zero_feed.Base.{ℕ, ◌≡◌, refl, false, none, some, List, [], ◌∷◌, All, pos, arith}
use zero_feed.Feed.Ring.{
  RingBuffer, Msg, new_ring_buffer, copy_message, drop_oldest, store, push, get_after, is_overflow,
  wipe,
}
use zero_feed.Feed.Ring.Queue
use zero_feed.Feed.Ring.Queue.{last_items}
use zero_feed.Feed.Ring.Inv.{IsValid}
use zero_feed.Feed.Ring.Refine.{contents, push_refines}
use zero_feed.Feed.Ring.Replay.{pushes, get_after_complete}
use zero_feed.Feed.Ring.Wipe.{wipe_lem}

abbrev letter : ℕ → ℕ → Msg
letter n b = record { seq = n; bytes = b ∷ [] }

abbrev history : List (List ℕ × Msg)
history =
    (([], letter 1 b'a')
      ∷ (9 ∷ 9 ∷ [], letter 2 b'b')
      ∷ (8 ∷ [], letter 4 b'c')
      ∷ ([], letter 5 b'd')
      ∷ [])

-- A ring of three after four pushes: the first was overwritten.
abbrev full_ring : RingBuffer
full_ring = record {
  capacity = 3;
  slots =
      record { seq_num = 5; payload = some (b'd' ∷ []) }
      ∷ record { seq_num = 2; payload = some (b'b' ∷ []) }
      ∷ record { seq_num = 4; payload = some (b'c' ∷ []) }
      ∷ [];
  head = 1;
  tail = 1;
  size = 3;
}

pushes_run : pushes (new_ring_buffer (pos 3)) history ≡ full_ring
unfolding pushes new_ring_buffer push drop_oldest store copy_message
pushes_run = refl

full_ring-IsValid : IsValid full_ring
full_ring-IsValid = omega arith

push_refines_example :
    contents (push (7 ∷ 7 ∷ []) full_ring 6 (b'e' ∷ [])).0
    ≡ Queue.push 3 (letter 2 b'b' ∷ letter 4 b'c' ∷ letter 5 b'd' ∷ []) (letter 6 b'e')
push_refines_example = push_refines (7 ∷ 7 ∷ []) 6 (b'e' ∷ []) full_ring-IsValid

no_overflow : is_overflow (pushes (new_ring_buffer (pos 3)) history) 1 ≡ false
unfolding is_overflow pushes new_ring_buffer push drop_oldest store copy_message
no_overflow = refl

get_after_complete_example :
    get_after (λ i. 3 ∷ []) (pushes (new_ring_buffer (pos 3)) history) 1
    ≡ letter 2 b'b' ∷ letter 4 b'c' ∷ letter 5 b'd' ∷ []
get_after_complete_example =
    get_after_complete (pos 3) history (λ i. 3 ∷ []) 1 (omega arith) (omega arith) no_overflow

wipe_lem_example :
    All (λ item. item.payload ≡ none) (wipe full_ring).0.slots
    × ((wipe full_ring).1 ≡ (0 ∷ []) ∷ (0 ∷ []) ∷ (0 ∷ []) ∷ [])
    × IsValid (wipe full_ring).0
    × (get_after (λ i. []) (wipe full_ring).0 0 ≡ [])
wipe_lem_example = wipe_lem full_ring (λ i. []) 0 full_ring-IsValid
