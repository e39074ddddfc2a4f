-- ===== src/Peer/Reader/HeaderLine.antt =====
-- A header line ends at its first CR LF, whatever chunks it arrives in, and only its length decides
-- whether it is dropped.
use robotframework_jsonrpcre.Base.{
  ℕ, zero, suc, Bool, true, false, Option, none, some, ◌++◌, ◌+◌, ◌-◌, ◌≤◌, ◌<◌, ◌≡◌, ◌||◌, refl,
  sym, ap, ◌∙◌, arith, length, take, drop, ltb, if◌then◌else◌,
}
use robotframework_jsonrpcre.Base.Codes.{Codes}
use robotframework_jsonrpcre.Peer.State.{Bytes}
use robotframework_jsonrpcre.Peer.Stream.{
  Stream, concat, total, find_crlf, Read, bytes, overrun, incomplete,
}
use robotframework_jsonrpcre.Peer.Stream.Until.{
  ReadsTo, read_until-ReadsTo, ReadsExactly, read_exactly-ReadsExactly, find_crlf-drop,
  find_crlf_bound, drop-drop, take-take, length-take,
}
use robotframework_jsonrpcre.Peer.Reader.{
  Reading, got, eof, decode_ascii, cut_end, on_dropped, on_read, read_line, read_header_line,
}

-- A line of `i` bytes: without its line end, or none if it is longer than the limit.
abbrev pub line_text : Bool → ℕ → ℕ → Bytes → Option Codes
line_text too_long i limit all =
    if too_long || ltb limit i then none else some (decode_ascii (take i all))

abbrev pub Gives : {A : Type 0} → A → Bytes → ℕ → Reading A → Type 0
Gives a left limit (got b s) = (b ≡ a) × (total s ≡ left) × (s.limit ≡ limit)
Gives a left limit (eof partial) = ⊥

module _ (limit i : ℕ) (all : Bytes) (h : find_crlf all ≡ some i) where
  cut_end_lem : cut_end (take (i + 2) all) ≡ take i all
  cut_end_lem =
      let e : length (take (i + 2) all) ≡ i + 2 =
        length-take (i + 2) all (find_crlf_bound all i h) in
      let f : i + 2 - 2 ≡ i = omega arith in rw (e, f) (take-take i (i + 2) all (omega arith))

line_text_short :
    (limit i : ℕ) (all : Bytes)
    → ltb limit i ≡ false
    → some (decode_ascii (take i all)) ≡ line_text false i limit all
line_text_short limit i all f =
    ap (λ b. if b then none else some (decode_ascii (take i all))) (sym f)

line_text-none :
    (too_long : Bool) (limit i : ℕ) (all : Bytes)
    → limit < i
    → none ≡ line_text too_long i limit all
line_text-none true limit i all lo = refl
line_text-none false limit i all lo =
    let f : ltb limit i ≡ true = ground arith in
    ap (λ b. if b then none else some (decode_ascii (take i all))) (sym f)

line_text_lem :
    (limit i : ℕ) (all : Bytes)
    → find_crlf all ≡ some i
    → (too_long : Bool) (line : Bytes) → i ≤ limit
    → line ≡ take (i + 2) all
    → (if too_long then none else some (decode_ascii (cut_end line)))
      ≡ line_text too_long i limit all
line_text_lem limit i all h true line within l = refl
line_text_lem limit i all h false line within l =
    let f : ltb limit i ≡ false = ground arith in
    rw (l, cut_end_lem limit i all h) (line_text_short limit i all f)

rest-Gives :
    (fuel i k : ℕ) (all : Bytes) (limit : ℕ) (s : Stream)
    → find_crlf all ≡ some i
    → total s ≡ drop k all
    → s.limit ≡ limit
    → limit < k
    → k ≤ i
    → i < suc fuel
    → (find_crlf (total s) ≡ some (i - k)
        → i - k < fuel
        → Gives none (drop (i - k + 2) (total s)) s.limit (read_line fuel true s))
    → Gives none (drop (i + 2) all) limit (read_line fuel true s)
rest-Gives fuel i k all limit s h t l lo hi e rest =
    let there : find_crlf (total s) ≡ some (i - k) = rw t (find_crlf-drop k all i h hi) in
    let left : drop (i - k + 2) (total s) ≡ drop (i + 2) all =
      let e : k + (i - k + 2) ≡ i + 2 = omega (arith, hi) in
      ap (drop (i - k + 2)) t ∙ drop-drop k (i - k + 2) all ∙ ap (λ n. drop n all) e in
    rw (← l, ← left) (rest there (omega arith))

dropped-Gives :
    (limit i fuel k : ℕ) (all : Bytes) (r : Read)
    → ReadsExactly limit k all r
    → ((s : Stream)
        → total s ≡ drop k all
        → s.limit ≡ limit
        → Gives none (drop (i + 2) all) limit (read_line fuel true s))
    → Gives none (drop (i + 2) all) limit (on_dropped (λ left. read_line fuel true left) r)
dropped-Gives limit i fuel k all (bytes b s) e again = again s e.1 e.2
dropped-Gives limit i fuel k all (overrun n s) e again = absurd e
dropped-Gives limit i fuel k all (incomplete b) e again = absurd e

-- A read within the limit ends the line, and one past it goes on with what it has not dropped.
read-Gives :
    (all : Bytes) (limit i fuel : ℕ) (too_long : Bool) (r : Read)
    → find_crlf all ≡ some i
    → i < suc fuel
    → ReadsTo limit i all r
    → ((s : Stream) (k : ℕ)
        → total s ≡ drop k all
        → s.limit ≡ limit
        → limit < k
        → k ≤ i
        → Gives none (drop (i + 2) all) limit (read_line fuel true s))
    → Gives
        (line_text too_long i limit all)
        (drop (i + 2) all)
        limit
        (on_read too_long (λ left. read_line fuel true left) r)
read-Gives all limit i fuel too_long (bytes line s) h e (within, l, t, lim) again =
    (line_text_lem limit i all h too_long line within l, t, lim)
read-Gives all limit i fuel too_long (overrun k s) h e (lo, hi, t, lim) again =
    let within : k ≤ length (s.buffer ++ concat s.coming) =
      rw t (omega (arith, find_crlf_bound all i h)) in
    let r = rw (lim, t) at (read_exactly-ReadsExactly s.limit k s.buffer s.coming within) in
    rw (← line_text-none too_long limit i all (omega arith))
      (rw lim (dropped-Gives limit i fuel k all _ r (λ left l m. again left k l m lo hi)))
read-Gives all limit i fuel too_long (incomplete b) h e r again = absurd r

-- What `_read_header_line` gives for a line of `i` bytes, on enough fuel: without the line end, or
-- none if it is longer than the limit; the bytes behind the line end are left.
pub read_line-Gives :
    (fuel i : ℕ) (too_long : Bool) (s : Stream)
    → find_crlf (total s) ≡ some i
    → i < fuel
    → Gives
        (line_text too_long i s.limit (total s))
        (drop (i + 2) (total s))
        s.limit
        (read_line fuel too_long s)
unfolding read_line
read_line-Gives zero i too_long s h e = absurd (omega arith)
read_line-Gives (suc fuel) i too_long s h e =
    read-Gives (total s) s.limit i fuel too_long _ h e
      (read_until-ReadsTo s.limit s.buffer s.coming i h)
      (λ left k l m lo hi.
        rest-Gives fuel i k (total s) s.limit left h l m lo hi e
          (read_line-Gives fuel (i - k) true left))

-- A header line of `i` bytes, in whatever chunks it arrives: `_read_header_line` gives its text
-- without the line end, or nothing if it is longer than the limit of the stream; either way the
-- bytes behind the line end are left.
pub read_header_line-Gives :
    (s : Stream) (i : ℕ)
    → find_crlf (total s) ≡ some i
    → Gives
        (line_text false i s.limit (total s))
        (drop (i + 2) (total s))
        s.limit
        (read_header_line s)
unfolding read_header_line
read_header_line-Gives s i h =
    read_line-Gives (suc (length (total s))) i false s h
      (omega (arith, find_crlf_bound (total s) i h))
