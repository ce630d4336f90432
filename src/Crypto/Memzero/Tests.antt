-- ===== src/Crypto/Memzero/Tests.antt =====
-- The registry of buffers at concrete inputs, with a wiper that zeroes a buffer of its own.
use zero_feed.Base.{ℕ, ◌≡◌, some, List, [], ◌∷◌, if◌then◌else◌}
use zero_feed.Crypto.Memzero.{
  Slice, Process, Call, registers_wiper, registers_buffer, unregisters_buffer, zeroes, zero_bytes,
  wipe_all, run_wipers, clear_wipers, perform_all, start_process,
}
use zero_feed.Crypto.Memzero.Pins.{IsPinned, zero_bytes-IsPinned, perform_all-IsPinned}
use zero_feed.Crypto.Memzero.Zeroed.{covers, wipe_all-memory, zero_bytes-HasFilled}

abbrev passphrase : Slice
passphrase = record { base = 100; len = 3; capacity = 8 }

abbrev chunk : Slice
chunk = record { base = 200; len = 4; capacity = 4 }

abbrev session_key : Slice
session_key = record { base = 300; len = 32; capacity = 32 }

abbrev run : ℕ → Process → Process
run f = zero_bytes session_key

abbrev calls : List Call
calls =
    registers_buffer passphrase
    ∷ registers_buffer chunk
    ∷ registers_wiper (some 0)
    ∷ registers_buffer session_key
    ∷ zeroes passphrase
    ∷ unregisters_buffer passphrase
    ∷ []

abbrev process : Process
process = perform_all run calls (start_process (λ _. 7))

perform_all-IsPinned_example : IsPinned process
perform_all-IsPinned_example =
    perform_all-IsPinned run (λ f w. zero_bytes-IsPinned session_key w) (λ _. 7) calls

wipe_all-memory_example : (wipe_all run process).memory 203 ≡ (
    if covers 203 process.registered_buffers
    then 0
    else (run_wipers run process.registered_wipers (clear_wipers process)).memory 203)
wipe_all-memory_example =
    wipe_all-memory run (λ f w. zero_bytes-HasFilled session_key w) (λ _. 7) calls 203
