-- ===== src/Peer/Stream/Until.antt =====
-- What a read gives does not depend on how the bytes arrive in chunks.
use mathlib.Core.List.{append_assoc, append-nil}
use native.Mathlib.Nat.{zero-add}
use robotframework_jsonrpcre.Base.{
  ℕ, zero, suc, true, false, none, some, List, [], ◌∷◌, ◌++◌, ◌+◌, ◌-◌, ◌≤◌, ◌<◌, ◌≡◌, inl, inr,
  refl, sym, ap, ◌∙◌, arith, length, take, drop, ltb, leb, Option-cases, Bool-cases,
}
use robotframework_jsonrpcre.Peer.State.{Bytes}
use robotframework_jsonrpcre.Peer.Stream.{
  concat, total, find_crlf, scan, Read, bytes, overrun, incomplete, at_buffer, read_until,
  read_exactly,
}

pub take-append : (n : ℕ) (xs ys : Bytes) → n ≤ length xs → take n (xs ++ ys) ≡ take n xs
take-append zero xs ys h = refl
take-append (suc n) [] ys h = absurd (omega arith)
take-append (suc n) (x ∷ xs) ys h = ap (◌∷◌ x) (take-append n xs ys (omega arith))

pub drop-append : (n : ℕ) (xs ys : Bytes) → n ≤ length xs → drop n (xs ++ ys) ≡ drop n xs ++ ys
drop-append zero xs ys h = refl
drop-append (suc n) [] ys h = absurd (omega arith)
drop-append (suc n) (x ∷ xs) ys h = drop-append n xs ys (omega arith)

pub drop-nil : (n : ℕ) → drop {A = ℕ} n [] ≡ []
drop-nil zero = refl
drop-nil (suc n) = refl

pub drop-drop : (m n : ℕ) (xs : Bytes) → drop n (drop m xs) ≡ drop (m + n) xs
drop-drop zero n xs = rw zero-add refl
drop-drop (suc m) n [] = drop-nil n ∙ sym (drop-nil (suc m + n))
drop-drop (suc m) n (x ∷ xs) =
    drop-drop m n xs ∙ (let e : suc m + n ≡ suc (m + n) = omega arith in rw e refl)

-- A separator in the buffer lies whole in it, and stays the first when more bytes come.
find_crlf-some :
    (xs ys : Bytes) (i : ℕ)
    → find_crlf xs ≡ some i
    → (find_crlf (xs ++ ys) ≡ some i) × (i + 2 ≤ length xs)
unfolding find_crlf
find_crlf-some [] ys i h = absurd (cc)
find_crlf-some (c ∷ []) ys i h = absurd (cc)
find_crlf-some (c ∷ d ∷ s) ys i h = ground (arith, find_crlf-some (d ∷ s) ys (i - 1))

-- One that is not there yet starts at the last byte of the buffer or behind.
find_crlf-none :
    (xs ys : Bytes) (i : ℕ)
    → find_crlf xs ≡ none
    → find_crlf (xs ++ ys) ≡ some i
    → length xs ≤ i + 1
unfolding find_crlf
find_crlf-none [] ys i h k = omega arith
find_crlf-none (c ∷ []) ys i h k = omega arith
find_crlf-none (c ∷ d ∷ s) ys i h k = ground (arith, find_crlf-none (d ∷ s) ys (i - 1))

-- The first separator behind a place before it.
pub find_crlf-drop :
    (k : ℕ) (xs : Bytes) (i : ℕ)
    → find_crlf xs ≡ some i
    → k ≤ i
    → find_crlf (drop k xs) ≡ some (i - k)
unfolding find_crlf
find_crlf-drop zero xs i h le = ground arith
find_crlf-drop (suc k) [] i h le = absurd (cc)
find_crlf-drop (suc k) (c ∷ []) i h le = absurd (cc)
find_crlf-drop (suc k) (c ∷ d ∷ s) i h le = ground (arith, find_crlf-drop k (d ∷ s) (i - 1))

-- A read up to the separator at place `i`: the bytes up to and with it, if it is within the limit;
-- otherwise an overrun by more than the limit that does not go past it, and nothing is read.
abbrev pub ReadsTo : ℕ → ℕ → Bytes → Read → Type 0
ReadsTo limit i all (bytes line s) =
    (i ≤ limit) × (line ≡ take (i + 2) all) × (total s ≡ drop (i + 2) all) × (s.limit ≡ limit)
ReadsTo limit i all (overrun k s) = (limit < k) × (k ≤ i) × (total s ≡ all) × (s.limit ≡ limit)
ReadsTo limit i all (incomplete b) = ⊥

module _ (limit : ℕ) (buffer : Bytes) (coming : List Bytes) (i : ℕ)
    (h : find_crlf (buffer ++ concat coming) ≡ some i) where
  first_in_buffer : (j : ℕ) → find_crlf buffer ≡ some j → j ≡ i
  first_in_buffer j e = ground (arith, h, find_crlf-some buffer (concat coming) j e)

  found-ReadsTo :
      (j : ℕ)
      → find_crlf buffer ≡ some j
      → ltb limit j ≡ false
      → ReadsTo limit i (buffer ++ concat coming) (at_buffer limit buffer coming (j + 2))
  found-ReadsTo j e f =
      let within = (find_crlf-some buffer (concat coming) j e).1 in
      rw (← first_in_buffer j e) (
        ground arith,
        sym (take-append (j + 2) buffer (concat coming) within),
        sym (drop-append (j + 2) buffer (concat coming) within),
        refl,
      )

  over-ReadsTo :
      (k : ℕ)
      → k ≤ i
      → ltb limit k ≡ true
      → ReadsTo limit i
          (buffer ++ concat coming)
          (overrun k (record { buffer = buffer; coming = coming; limit = limit }))
  over-ReadsTo k le t = (ground arith, le, refl, refl)

  last-le : find_crlf buffer ≡ none → length buffer - 1 ≤ i
  last-le e = omega (arith, find_crlf-none buffer (concat coming) i e h)

  first-le : (j : ℕ) → find_crlf buffer ≡ some j → j ≤ i
  first-le j e = omega (arith, first_in_buffer j e)

pub read_until-ReadsTo :
    (limit : ℕ) (buffer : Bytes) (coming : List Bytes) (i : ℕ)
    → find_crlf (buffer ++ concat coming) ≡ some i
    → ReadsTo limit i (buffer ++ concat coming) (read_until limit buffer coming)
unfolding read_until scan
read_until-ReadsTo limit buffer [] i h = elim (Option-cases (find_crlf buffer)) [
  | inl e ↦ absurd (ground (arith, h, append-nil buffer))
  | inr (j, e) ↦ elim (Bool-cases (ltb limit j)) [
    | inl t ↦
        rw (e, t, read_until)
          (over-ReadsTo limit buffer [] i h j (first-le limit buffer [] i h j e) t)
    | inr f ↦ rw (e, f, read_until) (found-ReadsTo limit buffer [] i h j e f)
  ]
]
read_until-ReadsTo limit buffer (chunk ∷ coming) i h =
    let cs = chunk ∷ coming in
    elim (Option-cases (find_crlf buffer)) [
      | inl e ↦ elim (Bool-cases (ltb limit (length buffer - 1))) [
        | inl t ↦
            rw (e, t, read_until)
              (over-ReadsTo limit buffer cs i h _ (last-le limit buffer cs i h e) t)
        | inr f ↦
            rw (e, f, read_until)
              (rw (← append_assoc buffer chunk (concat coming)) (
                read_until-ReadsTo limit (buffer ++ chunk) coming i
                  (rw (append_assoc buffer chunk (concat coming)) h)))
      ]
      | inr (j, e) ↦ elim (Bool-cases (ltb limit j)) [
        | inl t ↦
            rw (e, t, read_until)
              (over-ReadsTo limit buffer cs i h j (first-le limit buffer cs i h j e) t)
        | inr f ↦ rw (e, f, read_until) (found-ReadsTo limit buffer cs i h j e f)
      ]
    ]

-- Enough bytes are there: exactly the first `n` are read, and the rest is left.
abbrev pub ReadsExactly : ℕ → ℕ → Bytes → Read → Type 0
ReadsExactly limit n all (bytes b s) = (b ≡ take n all) × (total s ≡ drop n all) × (s.limit ≡ limit)
ReadsExactly limit n all _ = ⊥

enough-ReadsExactly :
    (limit n : ℕ) (buffer : Bytes) (coming : List Bytes)
    → n ≤ length buffer
    → ReadsExactly limit n (buffer ++ concat coming) (at_buffer limit buffer coming n)
enough-ReadsExactly limit n buffer coming h =
    (sym (take-append n buffer _ h), sym (drop-append n buffer _ h), refl)

pub read_exactly-ReadsExactly :
    (limit n : ℕ) (buffer : Bytes) (coming : List Bytes)
    → n ≤ length (buffer ++ concat coming)
    → ReadsExactly limit n (buffer ++ concat coming) (read_exactly limit n buffer coming)
unfolding read_exactly
read_exactly-ReadsExactly limit n buffer [] h =
    let le : n ≤ length buffer = rw append-nil at h in
    let t : leb n (length buffer) ≡ true = ground arith in
    rw (t, read_exactly) (enough-ReadsExactly limit n buffer [] le)
read_exactly-ReadsExactly limit n buffer (chunk ∷ coming) h =
    elim (Bool-cases (leb n (length buffer))) [
      | inl t ↦
          rw (t, read_exactly) (enough-ReadsExactly limit n buffer (chunk ∷ coming) (ground arith))
      | inr f ↦
          rw (f, read_exactly)
            (rw (← append_assoc buffer chunk (concat coming)) (
              read_exactly-ReadsExactly limit n (buffer ++ chunk) coming
                (rw (append_assoc buffer chunk (concat coming)) h)))
    ]

pub find_crlf_bound : (xs : Bytes) (i : ℕ) → find_crlf xs ≡ some i → i + 2 ≤ length xs
find_crlf_bound xs i h = (find_crlf-some xs [] i h).1

pub take-take : (m n : ℕ) (xs : Bytes) → m ≤ n → take m (take n xs) ≡ take m xs
take-take zero n xs h = refl
take-take (suc m) zero xs h = absurd (omega arith)
take-take (suc m) (suc n) [] h = refl
take-take (suc m) (suc n) (x ∷ xs) h = ap (◌∷◌ x) (take-take m n xs (omega arith))

pub length-take : (n : ℕ) (xs : Bytes) → n ≤ length xs → length (take n xs) ≡ n
length-take zero xs h = refl
length-take (suc n) [] h = absurd (omega arith)
length-take (suc n) (x ∷ xs) h = ap suc (length-take n xs (omega arith))

pub length-drop : (n : ℕ) (xs : Bytes) → length (drop n xs) ≡ length xs - n
length-drop zero xs = omega arith
length-drop (suc n) [] = omega arith
length-drop (suc n) (x ∷ xs) = omega (arith, length-drop n xs)
