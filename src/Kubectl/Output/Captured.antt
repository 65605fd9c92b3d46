-- ===== src/Kubectl/Output/Captured.antt =====
-- cappedBuffer of images/agent0-connector/src/kubectl/kubectl.go after any sequence of writes.
use dash0_operator.Base.{
  ℕ, zero, suc, ◌+◌, ◌-◌, ◌≤◌, ◌<◌, ◌≡◌, refl, sym, ◌∙◌, ap, true, false, List, [], ◌∷◌, ◌++◌, ltb,
  length, take, arith, Bool-cases, inl, inr, ltb→lt, ltb-false→le,
}
use dash0_operator.Base.Bytes.{Bytes}
use dash0_operator.Kubectl.Output.{CappedBuffer, write, write_all}

module _ {A : Type 0} where
  length-append : (xs ys : List A) → length (xs ++ ys) ≡ length xs + length ys
  length-append [] ys = omega arith
  length-append (x ∷ xs) ys = ground (arith, length-append xs ys)

  take-all : (n : ℕ) (xs : List A) → length xs ≤ n → take n xs ≡ xs
  take-all zero [] h = refl
  take-all zero (x ∷ xs) h = absurd (omega (arith, h))
  take-all (suc n) [] h = refl
  take-all (suc n) (x ∷ xs) h = rw (take-all n xs (omega (arith, h))) refl

  take-append : (n : ℕ) (xs ys : List A) → take n (xs ++ ys) ≡ take n xs ++ take (n - length xs) ys
  take-append zero xs ys = let none_left : 0 - length xs ≡ 0 = omega arith in rw none_left refl
  take-append (suc n) [] ys = let all_left : suc n - 0 ≡ suc n = omega arith in rw all_left refl
  take-append (suc n) (x ∷ xs) ys =
      let same : suc n - suc (length xs) ≡ n - length xs = omega arith in
      rw (take-append n xs ys, same) refl

  length-take : (n : ℕ) (xs : List A) → n ≤ length xs → length (take n xs) ≡ n
  length-take zero xs h = refl
  length-take (suc n) [] h = absurd (omega (arith, h))
  length-take (suc n) (x ∷ xs) h = rw (length-take n xs (omega (arith, h))) refl

append-nil : (xs : Bytes) → xs ++ [] ≡ xs
append-nil [] = refl
append-nil (x ∷ xs) = rw (append-nil xs) refl

append_assoc : (xs ys zs : Bytes) → (xs ++ ys) ++ zs ≡ xs ++ (ys ++ zs)
append_assoc [] ys zs = refl
append_assoc (x ∷ xs) ys zs = rw (append_assoc xs ys zs) refl

abbrev pub concat : List Bytes → Bytes
concat [] = []
concat (p ∷ ps) = p ++ concat ps

-- The buffer has seen this stream of bytes.
pub record HasSeen (c : CappedBuffer) (stream : Bytes) : Type 0 where
  pub captured : c.buf ≡ take c.limit stream
  pub flagged : c.truncated ≡ ltb c.limit (length stream)

module _ (c : CappedBuffer) (stream p : Bytes) (seen : HasSeen c stream) where
  -- Below the limit, the buffer holds the whole stream.
  write-below : length stream < c.limit → HasSeen (write c p).0 (stream ++ p)
  unfolding write
  write-below below =
      let whole : c.buf ≡ stream = seen.captured ∙ take-all c.limit stream (omega (arith, below)) in
      let total = length-append stream p in
      let cut = take-append c.limit stream p in
      let kept = take-all c.limit stream (omega (arith, below)) in
      let fits = take-all (c.limit - length stream) p in
      let opened : ltb 0 (c.limit - length stream) ≡ true = ground (arith, below) in
      let flag = seen.flagged in
      elim (Bool-cases (ltb (c.limit - length stream) (length p))) [
        | inl over ↦
            let cut_off : ltb c.limit (length (stream ++ p)) ≡ true =
              ground (arith, total, over, below) in
            rw (whole, opened, over)
              (record {
                captured = sym (cut ∙ ap (λ s. s ++ take (c.limit - length stream) p) kept);
                flagged = sym cut_off;
              })
        | inr fit ↦
            let small : length p ≤ c.limit - length stream = ground (arith, fit) in
            let uncut : c.truncated ≡ false = ground (arith, flag, below) in
            let inside : ltb c.limit (length (stream ++ p)) ≡ false =
              ground (arith, total, small, below) in
            rw (whole, opened, fit)
              (record {
                captured = sym (cut ∙ rw (kept, fits small) refl);
                flagged = uncut ∙ sym inside;
              })
      ]

  -- At the limit, nothing is added.
  write-full : c.limit ≤ length stream → HasSeen (write c p).0 (stream ++ p)
  unfolding write
  write-full full =
      let size : length c.buf ≡ c.limit =
        ap (λ b. length b) seen.captured ∙ length-take c.limit stream full in
      let total = length-append stream p in
      let cut = take-append c.limit stream p in
      let closed : ltb 0 (c.limit - length c.buf) ≡ false = ground (arith, size) in
      let none_left : c.limit - length stream ≡ 0 = omega (arith, full) in
      let same : take c.limit (stream ++ p) ≡ c.buf =
        cut ∙ rw none_left (append-nil (take c.limit stream) ∙ sym seen.captured) in
      elim (Bool-cases (ltb 0 (length p))) [
        | inl more ↦
            let cut_off : ltb c.limit (length (stream ++ p)) ≡ true =
              ground (arith, total, more, full) in
            rw (closed, more) (record { captured = sym same; flagged = sym cut_off })
        | inr nothing ↦
            let still : ltb c.limit (length (stream ++ p)) ≡ ltb c.limit (length stream) =
              ground (arith, total, nothing) in
            rw (closed, nothing)
              (record { captured = sym same; flagged = seen.flagged ∙ sym still })
      ]

limit-write : (c : CappedBuffer) (p : Bytes) → (write c p).0.limit ≡ c.limit
unfolding write
limit-write c p = ground arith

HasSeen-write :
    (c : CappedBuffer) (stream p : Bytes) → HasSeen c stream → HasSeen (write c p).0 (stream ++ p)
HasSeen-write c stream p seen = elim (Bool-cases (ltb (length stream) c.limit)) [
  | inl below ↦ write-below c stream p seen (ltb→lt _ _ below)
  | inr full ↦ write-full c stream p seen (ltb-false→le _ _ full)
]

write_all-HasSeen :
    (c : CappedBuffer) (stream : Bytes) (ps : List Bytes)
    → HasSeen c stream
    → HasSeen (write_all c ps) (stream ++ concat ps) × ((write_all c ps).limit ≡ c.limit)
unfolding write_all
write_all-HasSeen c stream [] seen = (rw (append-nil stream) seen, refl)
write_all-HasSeen c stream (p ∷ ps) seen =
    let (rest, limit) =
      write_all-HasSeen (write c p).0 (stream ++ p) ps (HasSeen-write c stream p seen) in
    (rw (append_assoc stream p (concat ps)) at rest, limit ∙ limit-write c p)

abbrev pub empty_buffer : ℕ → CappedBuffer
empty_buffer limit = record { limit = limit; buf = []; truncated = false }

-- After any sequence of writes, a buffer that started empty holds the bytes written, up to its
-- limit, and is marked as truncated exactly when more than that have been written.
pub write_all-captured :
    (limit : ℕ) (ps : List Bytes)
    → ((write_all (empty_buffer limit) ps).buf ≡ take limit (concat ps))
      × ((write_all (empty_buffer limit) ps).truncated ≡ ltb limit (length (concat ps)))
write_all-captured limit ps =
    let start : HasSeen (empty_buffer limit) [] = record {
      captured = sym (take-all limit [] (omega arith));
      flagged = ground arith;
    } in
    let (seen, same) = write_all-HasSeen (empty_buffer limit) [] ps start in
    (seen.captured ∙ rw same refl, seen.flagged ∙ rw same refl)
