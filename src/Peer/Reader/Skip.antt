-- ===== src/Peer/Reader/Skip.antt =====
-- How much `_skip_content` drops.
use robotframework_jsonrpcre.Base.{
  ℕ, zero, suc, false, List, [], ◌∷◌, ◌++◌, ◌+◌, ◌-◌, ◌≤◌, ◌≡◌, refl, sym, ap, ◌∙◌, arith, length,
  take, drop, min, ◌==◌,
}
use robotframework_jsonrpcre.Peer.State.{Bytes}
use robotframework_jsonrpcre.Peer.Stream.{Stream, concat, total}
use robotframework_jsonrpcre.Peer.Stream.Until.{drop-drop, drop-nil}
use robotframework_jsonrpcre.Peer.Reader.{fill, on_chunk, read_some, skip, skip_content}

fill_lem :
    (buffer : Bytes) (coming : List Bytes)
    → (fill buffer coming).0 ++ concat (fill buffer coming).1 ≡ buffer ++ concat coming
fill_lem (b ∷ buffer) coming = refl
fill_lem [] [] = refl
fill_lem [] (chunk ∷ coming) = fill_lem chunk coming

-- A round is at EOF, or takes at least a byte and at most `m` of them.
abbrev RoundOf : ℕ → Bytes → Bytes × Stream → Type 0
RoundOf m all ([], rest) = (all ≡ []) × (total rest ≡ all)
RoundOf m all (b ∷ chunk, rest) =
    (suc (length chunk) ≤ m) × (total rest ≡ drop (suc (length chunk)) all)

taken_left :
    (m : ℕ) (xs ys : Bytes)
    → (length (take m xs) ≤ m) × (drop m xs ++ ys ≡ drop (length (take m xs)) (xs ++ ys))
taken_left zero xs ys = (omega arith, refl)
taken_left (suc m) [] ys = (omega arith, refl)
taken_left (suc m) (x ∷ xs) ys = let rest = taken_left m xs ys in (omega (arith, rest.0), rest.1)

taken-RoundOf :
    (m limit : ℕ) (buffer : Bytes) (coming : List Bytes)
    → (buffer ≡ [] → concat coming ≡ [])
    → RoundOf (suc m) (buffer ++ concat coming) (
      take (suc m) buffer,
      record { buffer = drop (suc m) buffer; coming = coming; limit = limit },
    )
taken-RoundOf m limit [] coming h = (h refl, refl)
taken-RoundOf m limit (b ∷ buffer) coming h =
    let rest = taken_left m buffer (concat coming) in (omega (arith, rest.0), rest.1)

fill-end :
    (buffer : Bytes) (coming : List Bytes)
    → (fill buffer coming).0 ≡ []
    → concat (fill buffer coming).1 ≡ []
fill-end (b ∷ buffer) coming h = absurd (cc)
fill-end [] [] h = refl
fill-end [] (chunk ∷ coming) h = fill-end chunk coming h

read_some-RoundOf : (m : ℕ) (s : Stream) → RoundOf (suc m) (total s) (read_some (suc m) s)
unfolding read_some
read_some-RoundOf m s =
    rw (← fill_lem s.buffer s.coming)
      (taken-RoundOf m s.limit _ (fill s.buffer s.coming).1 (fill-end s.buffer s.coming))

-- One round, when the next rounds drop what is then to drop.
on_chunk-total :
    (fuel n m : ℕ) (all : Bytes) (r : Bytes × Stream)
    → n ≤ suc fuel
    → m ≤ n
    → RoundOf m all r
    → ((k : ℕ) (s : Stream) → k ≤ fuel → total (skip fuel k s) ≡ drop k (total s))
    → total (on_chunk (λ k rest. skip fuel k rest) n r) ≡ drop n all
on_chunk-total fuel n m all ([], rest) h le (e, t) again = t ∙ e ∙ sym (ap (drop n) e ∙ drop-nil n)
on_chunk-total fuel n m all (b ∷ chunk, rest) h le (few, t) again =
    let k = suc (length chunk) in
    let e : k + (n - k) ≡ n = omega (arith, le, few) in
    again (n - k) rest (omega (arith, h))
    ∙ ap (drop (n - k)) t
    ∙ drop-drop k (n - k) all
    ∙ ap (λ i. drop i all) e

skip-total : (fuel n : ℕ) (s : Stream) → n ≤ fuel → total (skip fuel n s) ≡ drop n (total s)
unfolding skip
skip-total zero zero s h = refl
skip-total zero (suc n) s h = absurd (omega arith)
skip-total (suc fuel) zero s h = refl
skip-total (suc fuel) (suc n) s h =
    let f : (suc n == 0) ≡ false = ground arith in
    let k = min (suc n) 65536 in
    let e : suc (k - 1) ≡ k = ground arith in
    let r : RoundOf k (total s) (read_some k s) = rw e at (read_some-RoundOf (k - 1) s) in
    let le : k ≤ suc n = ground arith in
    rw f (on_chunk-total fuel (suc n) k (total s) _ h le r (λ k s le. skip-total fuel k s le))

-- `_skip_content` drops the next `n` bytes, in whatever chunks they arrive, or all of them if there
-- are fewer, and nothing behind them.
pub skip_content-total : (n : ℕ) (s : Stream) → total (skip_content n s) ≡ drop n (total s)
unfolding skip_content
skip_content-total n s = skip-total n n s (omega arith)
