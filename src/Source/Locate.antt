-- ===== src/Source/Locate.antt =====
-- src/source.c, `pigen_source_locate`: the search through the starts of the lines.
use pigen.Common.{
  ℕ, zero, suc, ◌+◌, ◌-◌, ◌/◌, ◌≤◌, ◌<◌, ◌≡◌, refl, sym, subst, ap, ap₂, ◌∙◌, inl, inr, true,
  Option, some, List, [], ◌∷◌, arith, ltb, leb, ◌==◌, length, get_or, Bool-cases,
}
use pigen.Source.{
  SourceSpan, SourceFile, SourceLocation, newline_starts, new_file, pigen_source_get,
  pigen_source_span_valid, span_in, locate_loop, pigen_source_locate, diagnostic_place,
}

abbrev location : ℕ → ℕ → SourceLocation
location line column = record { line = line; column = column }

span_in_text :
    (files : List SourceFile) (span : SourceSpan) (path text : List ℕ)
    → pigen_source_get files span.source ≡ some (new_file path text)
    → pigen_source_span_valid files span ≡ true
    → (span.start ≤ span.end) × (span.end ≤ length text)
unfolding pigen_source_span_valid
span_in_text files span path text f v =
    let within : span_in (some (new_file path text)) span ≡ true =
      ap (λ (o : Option SourceFile). span_in o span) (sym f) ∙ v in
    ground arith

-- The line `k` of those that start at `starts` has the offset.
record IsLine (starts : List ℕ) (offset k : ℕ) : Type 0 where
  inside : k < length starts
  begun : get_or starts k 0 ≤ offset
  open_yet : suc k < length starts → offset < get_or starts (suc k) 0

locate_loop-IsLine :
    (fuel : ℕ) (starts : List ℕ) (offset first after : ℕ)
    → after - first ≤ fuel
    → first < after
    → after ≤ length starts
    → get_or starts first 0 ≤ offset
    → (after < length starts → offset < get_or starts after 0)
    → IsLine starts offset (locate_loop fuel starts offset first after)
unfolding locate_loop
locate_loop-IsLine zero starts offset first after f l a b n = absurd (omega arith)
locate_loop-IsLine (suc fuel) starts offset first after f l a b n =
    elim (Bool-cases (ltb (first + 1) after)) [
      | inl more ↦
          let m : ℕ = first + (after - first) / 2 in
          let low : first < m = ground arith in
          let high : m < after = ground arith in
          elim (Bool-cases (leb (get_or starts m 0) offset)) [
            | inl above ↦
                rw (more, above)
                  (locate_loop-IsLine fuel starts offset m after (omega arith) high a (ground arith)
                    n)
            | inr below ↦
                rw (more, below)
                  (locate_loop-IsLine fuel starts offset first m (omega arith) low (omega arith) b
                    (λ q. ground arith))
          ]
      | inr found ↦
          let e : after ≡ suc first = ground arith in
          rw found (record { inside = omega arith; begun = b; open_yet = rw e at n })
    ]

behind :
    (more : List ℕ) (i k : ℕ)
    → ((j : ℕ) → j < length more → suc i < get_or more j 0)
    → k < suc (length more)
    → i < get_or (suc i ∷ more) k 0
behind more i zero h l = omega arith
behind more i (suc k) h l = omega (arith, h k (omega arith))

newline_starts-gt :
    (text : List ℕ) (i k : ℕ)
    → k < length (newline_starts i text)
    → i < get_or (newline_starts i text) k 0
unfolding newline_starts
newline_starts-gt [] i k h = absurd (omega arith)
newline_starts-gt (c ∷ text) i k h = elim (Bool-cases (c == b'\n')) [
  | inl newline ↦
      rw newline (
        behind (newline_starts (suc i) text) i k (newline_starts-gt text (suc i)) (rw newline at h))
  | inr other ↦ rw other (omega (arith, newline_starts-gt text (suc i) k (rw other at h)))
]

-- The place behind no byte.
IsLine-zero :
    (text : List ℕ) (i b k line : ℕ)
    → IsLine (b ∷ newline_starts i text) (i + 0) k
    → location line (i - b + 1)
      ≡ location (line + k) (i + 0 - get_or (b ∷ newline_starts i text) k 0 + 1)
IsLine-zero text i b zero line r = ap₂ location (omega arith) (omega arith)
IsLine-zero text i b (suc k) line r =
    absurd (omega (arith, r.inside, r.begun, newline_starts-gt text i k))

-- The lines behind a newline.
IsLine-newline :
    (more : List ℕ) (n i b k : ℕ)
    → b ≤ i
    → IsLine (b ∷ suc i ∷ more) (i + suc n) k
    → (j : ℕ) × (k ≡ suc j) × IsLine (suc i ∷ more) (suc i + n) j
IsLine-newline more n i b zero h r = absurd (omega (arith, r.open_yet (omega arith)))
IsLine-newline more n i b (suc k) h r = (
  k,
  refl,
  record {
    inside = omega (arith, r.inside);
    begun = omega (arith, r.begun);
    open_yet = λ l. omega (arith, r.open_yet (omega arith));
  },
)

IsLine-at : (starts : List ℕ) (m n k : ℕ) → m ≡ n → IsLine starts m k → IsLine starts n k
IsLine-at starts m n k e r = subst (λ (o : ℕ). IsLine starts o k) e r

-- The lines of the rest of a text behind its first `i` bytes, whose last line starts at `b`.
place-IsLine :
    (text : List ℕ) (n i b k line : ℕ)
    → b ≤ i
    → n ≤ length text
    → IsLine (b ∷ newline_starts i text) (i + n) k
    → diagnostic_place text n line (i - b + 1)
      ≡ location (line + k) (i + n - get_or (b ∷ newline_starts i text) k 0 + 1)
unfolding diagnostic_place newline_starts
place-IsLine text zero i b k line h l r = IsLine-zero text i b k line r
place-IsLine [] (suc n) i b k line h l r = absurd (omega arith)
place-IsLine (c ∷ text) (suc n) i b k line h l r = elim (Bool-cases (c == b'\n')) [
  | inl newline ↦
      let q = IsLine-newline (newline_starts (suc i) text) n i b k h (rw newline at r) in
      rw newline (
        ap (diagnostic_place text n (line + 1)) (omega arith)
        ∙ place-IsLine text n (suc i) (suc i) q.0 (line + 1) (omega arith) (omega arith) q.2
        ∙ ap₂ location (omega (arith, q.1)) (
            omega
              (arith, ap (λ (x : ℕ). get_or (b ∷ suc i ∷ newline_starts (suc i) text) x 0) q.1)))
  | inr other ↦ rw other (
      ap (diagnostic_place text n line) (omega arith)
      ∙ place-IsLine text n (suc i) b k line (omega arith) (omega arith) (
          IsLine-at (b ∷ newline_starts (suc i) text) (i + suc n) (suc i + n) k (omega arith)
            (rw other at r))
      ∙ ap₂ location (omega arith) (omega arith))
]

module _ (files : List SourceFile) (span : SourceSpan) (path text : List ℕ)
    (found : pigen_source_get files span.source ≡ some (new_file path text))
    (valid : pigen_source_span_valid files span ≡ true) where
  locate-new_file : pigen_source_locate files span ≡ diagnostic_place text span.start 1 1
  unfolding pigen_source_locate
  locate-new_file =
      let starts : List ℕ = 0 ∷ newline_starts 0 text in
      let line =
        locate_loop-IsLine (length starts) starts span.start 0 (length starts) (omega arith)
          (omega arith) (omega arith) (omega arith) (λ q. absurd (omega arith)) in
      rw (valid, found)
        (ap₂ location (omega arith) (omega arith)
          ∙ sym (
              place-IsLine text span.start 0 0
                (locate_loop (length starts) starts span.start 0 (length starts)) 1 (omega arith)
                inside (IsLine-at starts span.start (0 + span.start) _ (omega arith) line)))
    where
      inside : span.start ≤ length text
      inside = ground (arith, span_in_text files span path text found valid)

-- The starts of a file's lines are those behind its newlines.
abbrev pub HasLines : SourceFile → Type 0
HasLines file = file.line_starts ≡ 0 ∷ newline_starts 0 file.text

-- The location of a valid span is the place that `pigen_fail` counts for its start; the starts of
-- the lines of its file are those behind the newlines.
pub pigen_source_locate-diagnostic_place :
    (files : List SourceFile) (span : SourceSpan) (file : SourceFile)
    → pigen_source_get files span.source ≡ some file
    → HasLines file
    → pigen_source_span_valid files span ≡ true
    → pigen_source_locate files span ≡ diagnostic_place file.text span.start 1 1
pigen_source_locate-diagnostic_place files span file e h v =
    locate-new_file files span file.path file.text (e ∙ ap some whole) v
  where
    whole : file ≡ new_file file.path file.text
    whole =
        ap
          (λ (starts : List ℕ). record { path = file.path; text = file.text; line_starts = starts })
          h
