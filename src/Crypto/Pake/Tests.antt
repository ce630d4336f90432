-- ===== src/Crypto/Pake/Tests.antt =====
-- The theorem of the key exchange at a concrete input, with toy primitives.
use zero_feed.Base.{ℕ, ◌≡◌, List, [], ◌∷◌, length, ok, arith}
use zero_feed.Crypto.Toy.{
  toy, toy-IsLawful, toy_pake, toy_pake-IsLawfulPake, toy_randomness, toy_noise,
}
use zero_feed.Crypto.Pake.{
  PakePeer, bytes_of, new_pake_peer, update, session_key, confirm_tag, verify_peer_confirm,
}
use zero_feed.Crypto.Pake.Agreement.{update-agrees}

update-agrees_example :
    let rand = toy_randomness in
    (p : PakePeer) × (s : PakePeer) × (p' : PakePeer) × (s' : PakePeer) × (key : List ℕ)
    × (tp : List ℕ) × (ts : List ℕ) × (new_pake_peer toy_pake rand (9 ∷ []) 1 ≡ ok p)
    × (new_pake_peer toy_pake rand (9 ∷ []) 2 ≡ ok s)
    × (update toy_pake toy rand (bytes_of s) p ≡ (ok tt, p'))
    × (update toy_pake toy rand (bytes_of p') s ≡ (ok tt, s'))
    × (length key ≡ 32)
    × (session_key p' ≡ ok key)
    × (session_key s' ≡ ok key)
    × (confirm_tag toy p' ≡ ok tp)
    × (confirm_tag toy s' ≡ ok ts)
    × (verify_peer_confirm toy tp s' ≡ ok tt)
    × (verify_peer_confirm toy ts p' ≡ ok tt)
update-agrees_example =
    update-agrees toy_pake toy_pake-IsLawfulPake toy toy-IsLawful toy_randomness toy_randomness
      (9 ∷ []) (omega arith) toy_noise toy_noise
