-- ===== src/Crypto/Memzero/Pins.antt =====
-- The pins of pkg/crypto/memzero.go: the map's keys against the runtime's counts.
use zero_feed.Base.{
  Option, ℕ, ◌+◌, ◌-◌, ◌≤◌, ◌≡◌, refl, inl, inr, false, some, none, List, [], ◌∷◌, ◌==◌,
  if◌then◌else◌, Bool-cases, if_elim, arith,
}
use zero_feed.Crypto.Memzero.{
  Slice, Process, Call, registers_wiper, registers_buffer, unregisters_buffer, zeroes, clears,
  wipes, has_key, delete_key, unpin, pin, unpin_all, release_pin, zero_bytes, zero_bytes_slice,
  register_wiper, register_buffer, unregister_buffer, clear_wipers, run_wipers, wipe_all, perform,
  perform_all, start_process,
}

pub occurrences : ℕ → List ℕ → ℕ
occurrences a [] = 0
occurrences a (b ∷ keys) = (if b == a then 1 else 0) + occurrences a keys

has_key-occurrences :
    (a : ℕ) (keys : List ℕ) → (if has_key a keys then 1 else 0) ≤ occurrences a keys
unfolding has_key occurrences
has_key-occurrences a [] = omega arith
has_key-occurrences a (b ∷ keys) = ground (arith, has_key-occurrences a keys)

occurrences-absent : (a : ℕ) (keys : List ℕ) → has_key a keys ≡ false → occurrences a keys ≡ 0
unfolding has_key occurrences
occurrences-absent a [] h = refl
occurrences-absent a (b ∷ keys) h = ground (arith, occurrences-absent a keys)

occurrences-delete_key :
    (a b : ℕ) (keys : List ℕ)
    → occurrences b (delete_key a keys) ≡ (if a == b then 0 else occurrences b keys)
unfolding delete_key occurrences
occurrences-delete_key a b [] = ground arith
occurrences-delete_key a b (c ∷ keys) = ground (arith, occurrences-delete_key a b keys)

unpin_all_lem :
    (keys : List ℕ) (pins : ℕ → ℕ) (a : ℕ) → unpin_all keys pins a ≡ pins a - occurrences a keys
unfolding unpin_all unpin occurrences
unpin_all_lem [] pins a = omega arith
unpin_all_lem (b ∷ keys) pins a = ground (arith, unpin_all_lem keys (unpin b pins) a)

-- Each key of the map is pinned once, and nothing else is pinned.
abbrev pub IsPinned : Process → Type 0
IsPinned w =
    (a : ℕ) → (w.pins a ≡ occurrences a w.pinned_buffers) × (occurrences a w.pinned_buffers ≤ 1)

release_pin-IsPinned : (a : ℕ) (w : Process) → IsPinned w → IsPinned (release_pin a w)
unfolding release_pin unpin
release_pin-IsPinned a w h b = elim (Bool-cases (has_key a w.pinned_buffers)) [
  | inl e ↦ rw e (ground (arith, h a, h b, occurrences-delete_key a b w.pinned_buffers))
  | inr e ↦ rw e (h b)
]

pub zero_bytes-IsPinned : (b : Slice) (w : Process) → IsPinned w → IsPinned (zero_bytes b w)
unfolding zero_bytes
zero_bytes-IsPinned b w h = if_elim IsPinned (b.len == 0) w _ h (release_pin-IsPinned b.base w h)

zero_bytes_slice-IsPinned :
    (slices : List Slice) (w : Process) → IsPinned w → IsPinned (zero_bytes_slice slices w)
unfolding zero_bytes_slice
zero_bytes_slice-IsPinned [] w h = h
zero_bytes_slice-IsPinned (b ∷ slices) w h =
    zero_bytes_slice-IsPinned slices (zero_bytes b w) (zero_bytes-IsPinned b w h)

register_buffer-IsPinned : (b : Slice) (w : Process) → IsPinned w → IsPinned (register_buffer b w)
unfolding register_buffer pin occurrences
register_buffer-IsPinned b w h a = elim (Bool-cases (b.len == 0)) [
  | inl e ↦ rw e (h a)
  | inr e ↦ rw e (elim (Bool-cases (has_key b.base w.pinned_buffers)) [
    | inl k ↦ rw k (h a)
    | inr k ↦ rw k (ground (arith, h a, occurrences-absent b.base w.pinned_buffers k))
  ])
]

unregister_buffer-IsPinned :
    (b : Slice) (w : Process) → IsPinned w → IsPinned (unregister_buffer b w)
unfolding unregister_buffer
unregister_buffer-IsPinned b w h =
    if_elim IsPinned (b.len == 0) w _ h (release_pin-IsPinned b.base w h)

register_wiper-IsPinned : (f : Option ℕ) (w : Process) → IsPinned w → IsPinned (register_wiper f w)
unfolding register_wiper
register_wiper-IsPinned none w h = h
register_wiper-IsPinned (some f) w h = h

clear_wipers-IsPinned : (w : Process) → IsPinned w → IsPinned (clear_wipers w)
unfolding clear_wipers occurrences
clear_wipers-IsPinned w h a = omega (arith, unpin_all_lem w.pinned_buffers w.pins a, h a)

module _ (run : ℕ → Process → Process)
    (keeps : (f : ℕ) (w : Process) → IsPinned w → IsPinned (run f w)) where
  run_wipers-IsPinned :
      (wipers : List ℕ) (w : Process) → IsPinned w → IsPinned (run_wipers run wipers w)
  unfolding run_wipers
  run_wipers-IsPinned [] w h = h
  run_wipers-IsPinned (f ∷ wipers) w h = run_wipers-IsPinned wipers (run f w) (keeps f w h)

  wipe_all-IsPinned : (w : Process) → IsPinned w → IsPinned (wipe_all run w)
  unfolding wipe_all
  wipe_all-IsPinned w h =
      zero_bytes_slice-IsPinned w.registered_buffers _
        (run_wipers-IsPinned w.registered_wipers _ (clear_wipers-IsPinned w h))

  perform-IsPinned : (c : Call) (w : Process) → IsPinned w → IsPinned (perform run c w)
  unfolding perform
  perform-IsPinned (registers_wiper f) w h = register_wiper-IsPinned f w h
  perform-IsPinned (registers_buffer b) w h = register_buffer-IsPinned b w h
  perform-IsPinned (unregisters_buffer b) w h = unregister_buffer-IsPinned b w h
  perform-IsPinned (zeroes b) w h = zero_bytes-IsPinned b w h
  perform-IsPinned clears w h = clear_wipers-IsPinned w h
  perform-IsPinned wipes w h = wipe_all-IsPinned w h

  keeps_all : (calls : List Call) (w : Process) → IsPinned w → IsPinned (perform_all run calls w)
  unfolding perform_all
  keeps_all [] w h = h
  keeps_all (c ∷ calls) w h = keeps_all calls (perform run c w) (perform-IsPinned c w h)

  -- After any calls of the package, in any order and with any buffers registered more than once or
  -- zeroed early, the runtime has exactly one pin of each address in the map of pinned buffers,
  -- which stands there once, and none of any other address, if the wipers keep this.
  pub perform_all-IsPinned :
      (memory : ℕ → ℕ) (calls : List Call) → IsPinned (perform_all run calls (start_process memory))
  unfolding start_process occurrences
  perform_all-IsPinned memory calls = keeps_all calls (start_process memory) (λ a. omega arith)
