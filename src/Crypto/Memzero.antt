-- ===== src/Crypto/Memzero.antt =====
-- pkg/crypto/memzero.go: the registry of sensitive buffers and wipers, over the process's memory.
-- A slice is the address of its first byte with its length and capacity; a runtime.Pinner is known
-- by the address that it pins. A wiper is a number that `run` turns into what the callback does.
-- Each function is one step, as its mutex has it.
pub mod Pins
pub mod Zeroed
mod Tests
use zero_feed.Base.{
  ℕ, zero, suc, ◌+◌, ◌-◌, Bool, true, false, ◌||◌, Option, none, some, List, [], ◌∷◌, ◌++◌, ◌==◌,
  if◌then◌else◌, length, get_or, set, take,
}

pub record Slice : Type 0 where
  pub base : ℕ
  pub len : ℕ
  pub capacity : ℕ

-- `pins` counts the live pins of an address in the Go runtime.
pub record Process : Type 0 where
  pub memory : ℕ → ℕ
  pub pins : ℕ → ℕ
  pub registered_wipers : List ℕ
  pub registered_buffers : List Slice
  pub pinned_buffers : List ℕ

abbrev pub nil_slice : Slice
nil_slice = record { base = 0; len = 0; capacity = 0 }

abbrev pub update : (ℕ → ℕ) → ℕ → ℕ → ℕ → ℕ
update f a v b = if a == b then v else f b

unfoldable pub has_key : ℕ → List ℕ → Bool
has_key a [] = false
has_key a (b ∷ keys) = b == a || has_key a keys

unfoldable pub delete_key : ℕ → List ℕ → List ℕ
delete_key a [] = []
delete_key a (b ∷ keys) = if b == a then delete_key a keys else b ∷ delete_key a keys

pub unpin : ℕ → (ℕ → ℕ) → ℕ → ℕ
unpin a pins = update pins a (pins a - 1)

pub pin : ℕ → (ℕ → ℕ) → ℕ → ℕ
pin a pins = update pins a (suc (pins a))

-- `pinner.Unpin()` and `delete(pinnedBuffers, ptr)`, if there is such a key.
pub release_pin : ℕ → Process → Process
release_pin a w =
    if has_key a w.pinned_buffers
    then record w { pins = unpin a w.pins; pinned_buffers = delete_key a w.pinned_buffers }
    else w

-- `for i := range c { c[i] = 0 }`
pub zero_loop : ℕ → ℕ → (ℕ → ℕ) → ℕ → ℕ
zero_loop a zero memory = memory
zero_loop a (suc n) memory = zero_loop (suc a) n (update memory a 0)

zero_memory : Slice → Process → Process
zero_memory b w = record w { memory = zero_loop b.base b.capacity w.memory }

pub zero_bytes : Slice → Process → Process
unfolding zero_memory
zero_bytes b w = if b.len == 0 then w else zero_memory b (release_pin b.base w)

pub zero_bytes_slice : List Slice → Process → Process
zero_bytes_slice [] w = w
zero_bytes_slice (b ∷ slices) w = zero_bytes_slice slices (zero_bytes b w)

-- The argument is `none` for a nil function.
pub register_wiper : Option ℕ → Process → Process
register_wiper none w = w
register_wiper (some f) w = record w { registered_wipers = w.registered_wipers ++ f ∷ [] }

pin_buffer : ℕ → Process → Process
pin_buffer a w =
    if has_key a w.pinned_buffers
    then w
    else record w { pins = pin a w.pins; pinned_buffers = a ∷ w.pinned_buffers }

pub register_buffer : Slice → Process → Process
unfolding pin_buffer
register_buffer b w =
    if b.len == 0
    then w
    else pin_buffer b.base (record w { registered_buffers = w.registered_buffers ++ b ∷ [] })

abbrev pub next_index : Option ℕ → Option ℕ
next_index none = none
next_index (some i) = some (suc i)

-- The index of the first registered slice that is not empty and starts at the address.
pub find_slice : ℕ → List Slice → Option ℕ
find_slice a [] = none
find_slice a (b ∷ buffers) =
    let rest = next_index (find_slice a buffers) in
    if b.len == 0 then rest else if b.base == a then some 0 else rest

-- The last slice takes the place, and the list is shortened.
pub swap_remove : ℕ → List Slice → List Slice
swap_remove i buffers =
    let last = length buffers - 1 in take last (set buffers i (get_or buffers last nil_slice))

pub remove_found : Option ℕ → List Slice → List Slice
unfolding swap_remove
remove_found none buffers = buffers
remove_found (some i) buffers = swap_remove i buffers

drop_buffer : ℕ → Process → Process
unfolding remove_found
drop_buffer a w = record w {
  registered_buffers = remove_found (find_slice a w.registered_buffers) w.registered_buffers;
}

pub unregister_buffer : Slice → Process → Process
unfolding drop_buffer
unregister_buffer b w = if b.len == 0 then w else drop_buffer b.base (release_pin b.base w)

pub unpin_all : List ℕ → (ℕ → ℕ) → ℕ → ℕ
unpin_all [] pins = pins
unpin_all (a ∷ keys) pins = unpin_all keys (unpin a pins)

pub clear_wipers : Process → Process
clear_wipers w = record w {
  pins = unpin_all w.pinned_buffers w.pins;
  registered_wipers = [];
  registered_buffers = [];
  pinned_buffers = [];
}

pub run_wipers : (ℕ → Process → Process) → List ℕ → Process → Process
run_wipers run [] w = w
run_wipers run (f ∷ wipers) w = run_wipers run wipers (run f w)

-- The registry is taken and emptied under the mutex; the wipers run and the buffers are zeroed after.
pub wipe_all : (ℕ → Process → Process) → Process → Process
wipe_all run w =
    zero_bytes_slice w.registered_buffers (run_wipers run w.registered_wipers (clear_wipers w))

-- A call of the package by the program.
pub data Call : Type 0 where
  registers_wiper : Option ℕ → Call
  registers_buffer unregisters_buffer zeroes : Slice → Call
  clears wipes : Call

pub perform : (ℕ → Process → Process) → Call → Process → Process
perform run (registers_wiper f) w = register_wiper f w
perform run (registers_buffer b) w = register_buffer b w
perform run (unregisters_buffer b) w = unregister_buffer b w
perform run (zeroes b) w = zero_bytes b w
perform run clears w = clear_wipers w
perform run wipes w = wipe_all run w

pub perform_all : (ℕ → Process → Process) → List Call → Process → Process
perform_all run [] w = w
perform_all run (c ∷ calls) w = perform_all run calls (perform run c w)

-- `init`, over any memory.
pub start_process : (ℕ → ℕ) → Process
start_process memory = record {
  memory = memory;
  pins = λ _. 0;
  registered_wipers = [];
  registered_buffers = [];
  pinned_buffers = [];
}
