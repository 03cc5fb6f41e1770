-- ===== src/Api/Streams/Buffer.antt =====
-- A stream's buffer is the end of all that came.
use mathlib.Core.List.{append_assoc, append-nil}
use boxui.Base.{
  ℕ, zero, suc, ◌+◌, ◌-◌, ◌≤◌, false, List, [], ◌∷◌, ◌++◌, ◌≡◌, ◌≢◌, refl, sym, ap, ◌∙◌, arith,
  length, length-append, reduce, nat_eq, Bool-cases, inl, inr,
}
use boxui.Api.Streams.{skip, slice_last, push_item, push_all}

zero_plus : (m : ℕ) → 0 + m ≡ m
zero_plus m = omega arith

suc_plus : (n m : ℕ) → suc n + m ≡ suc (n + m)
suc_plus n m = omega arith

cut_length : (limit x y : ℕ) → (x - limit) + ((y + x - (x - limit)) - limit) ≡ (y + x) - limit
cut_length limit x y = omega arith

module _ {ℓ} {A : Type ℓ} where
  skip-append : (n : ℕ) (xs ys : List A) → n ≤ length xs → skip n (xs ++ ys) ≡ skip n xs ++ ys
  skip-append zero xs ys h = refl
  skip-append (suc n) [] ys h = ground (arith, h)
  skip-append (suc n) (x ∷ xs) ys h = skip-append n xs ys (omega (arith, h))

  skip-nil : (n : ℕ) → ◌≡◌ {A = List A} (skip n []) []
  skip-nil zero = refl
  skip-nil (suc n) = refl

  skip-skip : (m n : ℕ) (xs : List A) → skip m (skip n xs) ≡ skip (n + m) xs
  skip-skip m zero xs = rw (zero_plus m) refl
  skip-skip m (suc n) [] = skip-nil m ∙ sym (skip-nil (suc n + m))
  skip-skip m (suc n) (x ∷ xs) = rw (suc_plus n m) (skip-skip m n xs)

  length-skip : (n : ℕ) (xs : List A) → length (skip n xs) ≡ length xs - n
  length-skip zero xs = omega arith
  length-skip (suc n) [] = omega arith
  length-skip (suc n) (x ∷ xs) = omega (arith, length-skip n xs)

  slice_last-skip :
      (limit : ℕ) (xs : List A) → limit ≢ 0 → slice_last limit xs ≡ skip (length xs - limit) xs
  unfolding slice_last
  slice_last-skip limit xs h = let test : nat_eq limit 0 ≡ false = ground (arith, h) in rw test refl

  -- Cutting before another item comes makes no difference.
  slice_last-append :
      (limit : ℕ) (xs ys : List A)
      → limit ≢ 0
      → slice_last limit (slice_last limit xs ++ ys) ≡ slice_last limit (xs ++ ys)
  slice_last-append limit xs ys h =
      rw
        (
          slice_last-skip limit xs h,
          sym (skip-append (length xs - limit) xs ys (omega arith)),
          slice_last-skip limit (skip (length xs - limit) (xs ++ ys)) h,
          slice_last-skip limit (xs ++ ys) h,
          skip-skip (length (skip (length xs - limit) (xs ++ ys)) - limit) (length xs - limit)
              (xs ++ ys),
        )
        (ap (λ k. skip k (xs ++ ys))
          (omega (arith, length-skip (length xs - limit) (xs ++ ys), length-append xs ys)))

  push_all-slice :
      (limit : ℕ) (current events : List A)
      → limit ≢ 0
      → push_all limit (slice_last limit current) events ≡ slice_last limit (current ++ events)
  unfolding push_all push_item reduce
  push_all-slice limit current [] h = rw (append-nil current) refl
  push_all-slice limit current (x ∷ events) h = rw (slice_last-append limit current (x ∷ []) h) (
      push_all-slice limit (current ++ x ∷ []) events h
      ∙ ap (slice_last limit) (append_assoc current (x ∷ []) events))

  slice_last-nil : (limit : ℕ) → ◌≡◌ {A = List A} (slice_last limit []) []
  unfolding slice_last
  slice_last-nil limit = elim (Bool-cases (nat_eq limit 0)) [
    | inl e ↦ rw e refl
    | inr e ↦ rw e (skip-nil (0 - limit))
  ]

  push_all-empty :
      (limit : ℕ) (events : List A) → limit ≢ 0 → push_all limit [] events ≡ slice_last limit events
  push_all-empty limit events h =
      ap (λ start. push_all limit start events) (sym (slice_last-nil limit))
      ∙ push_all-slice limit [] events h

  -- With a limit other than 0, the buffer that starts empty holds just the last items of the stream,
  -- as many as the limit allows, in their order: the last `limit` of all that came, at most `limit`.
  pub push_all-last :
      (limit : ℕ) (events : List A)
      → limit ≢ 0
      → (push_all limit [] events ≡ slice_last limit events)
        × (length (push_all limit [] events) ≤ limit)
  push_all-last limit events h =
      let same : push_all limit [] events ≡ slice_last limit events =
        push_all-empty limit events h in
      (
        same,
        rw (same, slice_last-skip limit events h)
            (omega (arith, length-skip (length events - limit) events)),
      )
