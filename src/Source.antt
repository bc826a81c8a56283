-- ===== src/Source.antt =====
-- src/source.c, include/pigen/source.h, and the loop of `pigen_fail` in src/util.c: source files, the
-- starts of their lines, and the place of an offset. A text is the list of its bytes, so `length` and
-- `line_count` are the lengths of lists; `pigen_fail`, which ends the process, is `none`.
pub mod Locate
pub mod Add
pub mod Text
mod Tests
use pigen.Common.{
  ℕ, zero, suc, ◌+◌, ◌-◌, ◌/◌, ◌^◌, Bool, true, false, ◌&&◌, Option, none, some, List, [], ◌∷◌,
  ◌++◌, ltb, leb, ◌==◌, if◌then◌else◌, u32, length, get_elem?, get_or, take, drop,
}
use pigen.Integer.{invalid_id}

pub record SourceSpan : Type 0 where
  pub source : ℕ
  pub start : ℕ
  pub end : ℕ

abbrev pub invalid_span : SourceSpan
invalid_span = record { source = invalid_id; start = 0; end = 0 }

pub record SourceLocation : Type 0 where
  pub line : ℕ
  pub column : ℕ

pub record SourceFile : Type 0 where
  pub path : List ℕ
  pub text : List ℕ
  pub line_starts : List ℕ

-- The offsets behind the newlines, from offset `cursor` on.
unfoldable pub newline_starts : ℕ → List ℕ → List ℕ
newline_starts cursor [] = []
newline_starts cursor (c ∷ text) =
    let rest = newline_starts (suc cursor) text in if c == b'\n' then suc cursor ∷ rest else rest

abbrev pub new_file : List ℕ → List ℕ → SourceFile
new_file path text = record { path = path; text = text; line_starts = 0 ∷ newline_starts 0 text }

-- The manager is the list of its files.
unfoldable pub pigen_source_add : List SourceFile → List ℕ → List ℕ → Option (List SourceFile × ℕ)
pigen_source_add files path text =
    if length files == invalid_id
    then none
    else some (files ++ new_file path text ∷ [], u32 (length files))

unfoldable pub pigen_source_get : List SourceFile → ℕ → Option SourceFile
pigen_source_get files source = if source == invalid_id then none else get_elem? files source

abbrev pub span_in : Option SourceFile → SourceSpan → Bool
span_in none span = false
span_in (some file) span = leb span.start span.end && leb span.end (length file.text)

unfoldable pub pigen_source_span_valid : List SourceFile → SourceSpan → Bool
pigen_source_span_valid files span = span_in (pigen_source_get files span.source) span

-- The search for the line: `fuel` bounds its rounds.
unfoldable pub locate_loop : ℕ → List ℕ → ℕ → ℕ → ℕ → ℕ
locate_loop zero starts offset first after = first
locate_loop (suc fuel) starts offset first after =
    let middle = first + (after - first) / 2 in
    let above = locate_loop fuel starts offset middle after in
    let below = locate_loop fuel starts offset first middle in
    if ltb (first + 1) after
    then (if leb (get_or starts middle 0) offset then above else below)
    else first

abbrev line_location : List ℕ → ℕ → ℕ → SourceLocation
line_location starts offset first = record {
  line = first + 1;
  column = offset - get_or starts first 0 + 1;
}

abbrev no_location : SourceLocation
no_location = record { line = 0; column = 0 }

abbrev locate_in : Option SourceFile → ℕ → SourceLocation
locate_in none offset = no_location
locate_in (some file) offset =
    line_location file.line_starts offset
      (locate_loop (length file.line_starts) file.line_starts offset 0 (length file.line_starts))

unfoldable pub pigen_source_locate : List SourceFile → SourceSpan → SourceLocation
pigen_source_locate files span =
    if pigen_source_span_valid files span
    then locate_in (pigen_source_get files span.source) span.start
    else no_location

abbrev text_in : Option SourceFile → SourceSpan → Option (List ℕ)
text_in none span = none
text_in (some file) span = some (take (span.end - span.start) (drop span.start file.text))

unfoldable pub pigen_source_span_text : List SourceFile → SourceSpan → Option (List ℕ)
pigen_source_span_text files span =
    if pigen_source_span_valid files span
    then text_in (pigen_source_get files span.source) span
    else none

-- The loop of `pigen_fail`: the place behind the first `offset` bytes of a text.
unfoldable pub diagnostic_place : List ℕ → ℕ → ℕ → ℕ → SourceLocation
diagnostic_place text zero line column = record { line = line; column = column }
diagnostic_place [] (suc offset) line column = record { line = line; column = column }
diagnostic_place (c ∷ text) (suc offset) line column =
    if c == b'\n'
    then diagnostic_place text offset (line + 1) 1
    else diagnostic_place text offset line (column + 1)
