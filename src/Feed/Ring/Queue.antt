-- ===== src/Feed/Ring/Queue.antt =====
-- What the replay buffer of pkg/feed/ringbuffer.go stands for: the last messages, oldest first.
use zero_feed.Base.{
  ℕ, zero, suc, ◌+◌, ◌-◌, ◌≤◌, ◌<◌, ◌≡◌, ◌≢◌, refl, ap, sym, ◌∙◌, List, [], ◌∷◌, ◌++◌, append_assoc,
  append-nil, length, length-drop, Bool-cases, inl, inr, ==_iff, length-append, drop, ◌==◌,
  if◌then◌else◌, arith,
}

module _ {ℓ} {A : Type ℓ} where
  -- A queue that forgets its oldest item when it is full.
  unfoldable pub push : ℕ → List A → A → List A
  push capacity q x = if length q == capacity then drop 1 q ++ (x ∷ []) else (q ++ (x ∷ []))

  unfoldable pub push_all : ℕ → List A → List A → List A
  push_all capacity q [] = q
  push_all capacity q (x ∷ xs) = push_all capacity (push capacity q x) xs

  -- The last `capacity` items.
  abbrev pub last_items : ℕ → List A → List A
  last_items capacity xs = drop (length xs - capacity) xs

  drop-append_le : (n : ℕ) (xs ys : List A) → n ≤ length xs → drop n (xs ++ ys) ≡ drop n xs ++ ys
  drop-append_le zero xs ys h = refl
  drop-append_le (suc n) [] ys h = elim h [ ]
  drop-append_le (suc n) (x ∷ xs) ys h = drop-append_le n xs ys (omega arith)

  drop-suc : (n : ℕ) (xs : List A) → drop 1 (drop n xs) ≡ drop (suc n) xs
  drop-suc zero xs = refl
  drop-suc (suc n) [] = refl
  drop-suc (suc n) (x ∷ xs) = drop-suc n xs

  push-last_items :
      (capacity : ℕ) (done : List A) (x : A)
      → 0 < capacity
      → push capacity (last_items capacity done) x ≡ last_items capacity (done ++ (x ∷ []))
  unfolding push
  push-last_items capacity done x h =
      let k = length done - capacity in
      let k' = length (done ++ (x ∷ [])) - capacity in
      let len : length (done ++ (x ∷ [])) ≡ length done + 1 = length-append done (x ∷ []) in
      let sized : length (drop k done) ≡ length done - k = length-drop k done in
      elim (Bool-cases (length (last_items capacity done) == capacity)) [
        | inl full ↦
            let eq = (==_iff (length (drop k done)) capacity).0 full in
            let e : suc k ≡ k' = omega arith in
            rw full (
              ap (λ l. l ++ (x ∷ [])) (drop-suc k done)
              ∙ sym (drop-append_le (suc k) done (x ∷ []) (omega arith))
              ∙ ap (λ n. drop n (done ++ (x ∷ []))) e)
        | inr room ↦
            let ne : length (drop k done) ≢ capacity = ground arith in
            let e : k ≡ k' = omega arith in
            rw room (
              sym (drop-append_le k done (x ∷ []) (omega arith))
              ∙ ap (λ n. drop n (done ++ (x ∷ []))) e)
      ]

  -- From a history, pushing keeps exactly the last `capacity` items of the longer history.
  pub push_all-last_items :
      (capacity : ℕ) (done xs : List A)
      → 0 < capacity
      → push_all capacity (last_items capacity done) xs ≡ last_items capacity (done ++ xs)
  unfolding push_all
  push_all-last_items capacity done [] h = ap (last_items capacity) (sym (append-nil done))
  push_all-last_items capacity done (x ∷ xs) h =
      ap (λ q. push_all capacity q xs) (push-last_items capacity done x h)
      ∙ push_all-last_items capacity (done ++ (x ∷ [])) xs h
      ∙ ap (last_items capacity) (append_assoc done (x ∷ []) xs)
