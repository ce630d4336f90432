-- ===== src/Crypto/Memzero/Zeroed.antt =====
-- What pkg/crypto/memzero.go leaves in memory and in the registry.
use zero_feed.Base.{
  ℕ, zero, suc, ◌+◌, ◌-◌, ◌<◌, ◌≡◌, refl, inl, inr, Bool, false, ◌&&◌, ◌||◌, some, none, List, [],
  ◌∷◌, ltb, leb, ◌==◌, if◌then◌else◌, Bool-cases, if_elim, All, All-append, All-take, Option,
  length, get_or, set, Option-cases, arith,
}
use zero_feed.Crypto.Memzero.{
  Slice, Process, Call, registers_wiper, registers_buffer, unregisters_buffer, zeroes, clears,
  wipes, find_slice, swap_remove, remove_found, unregister_buffer, register_wiper, perform,
  release_pin, zero_loop, zero_bytes, zero_bytes_slice, register_buffer, run_wipers, clear_wipers,
  wipe_all, perform_all, start_process,
}

-- An address in the capacity of one of the slices.
pub covers : ℕ → List Slice → Bool
covers x [] = false
covers x (b ∷ slices) = (leb b.base x && ltb x (b.base + b.capacity)) || covers x slices

zero_loop_lem :
    (a n : ℕ) (memory : ℕ → ℕ) (x : ℕ)
    → zero_loop a n memory x ≡ (if leb a x && ltb x (a + n) then 0 else memory x)
unfolding zero_loop
zero_loop_lem a zero memory x = ground arith
zero_loop_lem a (suc n) memory x =
    ground (arith, zero_loop_lem (suc a) n (λ b. if a == b then 0 else memory b) x)

release_pin-memory : (a : ℕ) (w : Process) (x : ℕ) → (release_pin a w).memory x ≡ w.memory x
unfolding release_pin
release_pin-memory a w x = ground arith

abbrev pub IsFilled : Slice → Type 0
IsFilled b = (b.len == 0) ≡ false

zero_bytes-memory :
    (b : Slice) (w : Process) (x : ℕ)
    → IsFilled b
    → (zero_bytes b w).memory x
      ≡ (if leb b.base x && ltb x (b.base + b.capacity) then 0 else w.memory x)
unfolding zero_bytes
zero_bytes-memory b w x h = rw h (
    ground (
      arith,
      zero_loop_lem b.base b.capacity (release_pin b.base w).memory x,
      release_pin-memory b.base w x,
    ))

zero_bytes_slice-memory :
    (slices : List Slice) (w : Process) (x : ℕ)
    → All IsFilled slices
    → (zero_bytes_slice slices w).memory x ≡ (if covers x slices then 0 else w.memory x)
unfolding zero_bytes_slice covers
zero_bytes_slice-memory [] w x h = refl
zero_bytes_slice-memory (b ∷ slices) w x h =
    ground
      (arith, zero_bytes_slice-memory slices (zero_bytes b w) x h.1, zero_bytes-memory b w x h.0)

-- Every registered slice has bytes.
abbrev pub HasFilled : Process → Type 0
HasFilled w = All IsFilled w.registered_buffers

release_pin-buffers :
    (a : ℕ) (w : Process) → (release_pin a w).registered_buffers ≡ w.registered_buffers
unfolding release_pin
release_pin-buffers a w = ground arith

zero_bytes-buffers :
    (b : Slice) (w : Process) → (zero_bytes b w).registered_buffers ≡ w.registered_buffers
unfolding zero_bytes
zero_bytes-buffers b w = ground (arith, release_pin-buffers b.base w)

find_slice-lt :
    (a : ℕ) (buffers : List Slice) (i : ℕ) → find_slice a buffers ≡ some i → i < length buffers
unfolding find_slice
find_slice-lt a [] i e = cc
find_slice-lt a (b ∷ buffers) i e = elim (Option-cases (find_slice a buffers)) [
  | inl n ↦ ground (arith, n)
  | inr (j, n) ↦ ground (arith, n, find_slice-lt a buffers j n)
]

All-get_or :
    (slices : List Slice) (i : ℕ) (d : Slice)
    → i < length slices
    → All IsFilled slices
    → IsFilled (get_or slices i d)
All-get_or [] i d l h = absurd (omega arith)
All-get_or (b ∷ slices) zero d l h = h.0
All-get_or (b ∷ slices) (suc i) d l h = All-get_or slices i d (omega arith) h.1

All-set :
    (slices : List Slice) (i : ℕ) (b : Slice)
    → IsFilled b
    → All IsFilled slices
    → All IsFilled (set slices i b)
All-set [] i b k h = tt
All-set (c ∷ slices) zero b k h = (k, h.1)
All-set (c ∷ slices) (suc i) b k h = (h.0, All-set slices i b k h.1)

remove_found-All :
    (a : ℕ) (slices : List Slice)
    → All IsFilled slices
    → All IsFilled (remove_found (find_slice a slices) slices)
unfolding remove_found swap_remove
remove_found-All a slices h = elim (Option-cases (find_slice a slices)) [
  | inl n ↦ rw n h
  | inr (i, n) ↦
      let l = find_slice-lt a slices i n in
      rw n (
        All-take IsFilled (length slices - 1) _
          (All-set slices i _ (All-get_or slices (length slices - 1) _ (omega arith) h) h))
]

release_pin-HasFilled : (a : ℕ) (w : Process) → HasFilled w → HasFilled (release_pin a w)
release_pin-HasFilled a w h = rw (release_pin-buffers a w) h

pub zero_bytes-HasFilled : (b : Slice) (w : Process) → HasFilled w → HasFilled (zero_bytes b w)
zero_bytes-HasFilled b w h = rw (zero_bytes-buffers b w) h

zero_bytes_slice-HasFilled :
    (slices : List Slice) (w : Process) → HasFilled w → HasFilled (zero_bytes_slice slices w)
unfolding zero_bytes_slice
zero_bytes_slice-HasFilled [] w h = h
zero_bytes_slice-HasFilled (b ∷ slices) w h =
    zero_bytes_slice-HasFilled slices (zero_bytes b w) (zero_bytes-HasFilled b w h)

register_buffer-HasFilled :
    (b : Slice) (w : Process) → HasFilled w → HasFilled (register_buffer b w)
unfolding register_buffer
register_buffer-HasFilled b w h = elim (Bool-cases (b.len == 0)) [
  | inl e ↦ rw e h
  | inr e ↦ rw e (
      if_elim HasFilled _ _ _ (All-append IsFilled w.registered_buffers _ h (e, tt))
        (All-append IsFilled w.registered_buffers _ h (e, tt)))
]

unregister_buffer-HasFilled :
    (b : Slice) (w : Process) → HasFilled w → HasFilled (unregister_buffer b w)
unfolding unregister_buffer
unregister_buffer-HasFilled b w h =
    if_elim HasFilled (b.len == 0) w _ h
      (remove_found-All b.base _ (release_pin-HasFilled b.base w h))

register_wiper-HasFilled :
    (f : Option ℕ) (w : Process) → HasFilled w → HasFilled (register_wiper f w)
unfolding register_wiper
register_wiper-HasFilled none w h = h
register_wiper-HasFilled (some f) w h = h

module _ (run : ℕ → Process → Process)
    (keeps : (f : ℕ) (w : Process) → HasFilled w → HasFilled (run f w)) where
  run_wipers-HasFilled :
      (wipers : List ℕ) (w : Process) → HasFilled w → HasFilled (run_wipers run wipers w)
  unfolding run_wipers
  run_wipers-HasFilled [] w h = h
  run_wipers-HasFilled (f ∷ wipers) w h = run_wipers-HasFilled wipers (run f w) (keeps f w h)

  perform-HasFilled : (c : Call) (w : Process) → HasFilled w → HasFilled (perform run c w)
  unfolding perform clear_wipers wipe_all
  perform-HasFilled (registers_wiper f) w h = register_wiper-HasFilled f w h
  perform-HasFilled (registers_buffer b) w h = register_buffer-HasFilled b w h
  perform-HasFilled (unregisters_buffer b) w h = unregister_buffer-HasFilled b w h
  perform-HasFilled (zeroes b) w h = zero_bytes-HasFilled b w h
  perform-HasFilled clears w h = tt
  perform-HasFilled wipes w h =
      zero_bytes_slice-HasFilled w.registered_buffers _
        (run_wipers-HasFilled w.registered_wipers (clear_wipers w) tt)

  perform_all-HasFilled :
      (calls : List Call) (w : Process) → HasFilled w → HasFilled (perform_all run calls w)
  unfolding perform_all
  perform_all-HasFilled [] w h = h
  perform_all-HasFilled (c ∷ calls) w h =
      perform_all-HasFilled calls (perform run c w) (perform-HasFilled c w h)

  -- After any calls of the package WipeAll leaves every address that a registered buffer covers,
  -- to the end of its capacity, at zero, and every other address as the registered wipers left it,
  -- which ran over the emptied registry, in their order. No wiper may put an empty slice into the
  -- registry.
  pub wipe_all-memory :
      (memory : ℕ → ℕ) (calls : List Call) (x : ℕ)
      → let w = perform_all run calls (start_process memory) in
        let after_wipers = run_wipers run w.registered_wipers (clear_wipers w) in
        (wipe_all run w).memory x
        ≡ (if covers x w.registered_buffers then 0 else after_wipers.memory x)
  unfolding wipe_all
  wipe_all-memory memory calls x =
      let w = perform_all run calls (start_process memory) in
      zero_bytes_slice-memory w.registered_buffers
        (run_wipers run w.registered_wipers (clear_wipers w)) x
        (perform_all-HasFilled calls (start_process memory) (unfold start_process in tt))
