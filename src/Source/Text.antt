-- ===== src/Source/Text.antt =====
-- src/source.c, `pigen_source_span_text`: the text of a valid span.
use pigen.Common.{◌≡◌, ◌≢◌, inl, inr, true, none, List, Option-cases}
use pigen.Source.{
  SourceSpan, SourceFile, pigen_source_get, pigen_source_span_valid, pigen_source_span_text,
}

pub pigen_source_span_text-found :
    (files : List SourceFile) (span : SourceSpan)
    → pigen_source_span_valid files span ≡ true
    → pigen_source_span_text files span ≢ none
unfolding pigen_source_span_valid pigen_source_span_text
pigen_source_span_text-found files span v e =
    elim (Option-cases (pigen_source_get files span.source)) [
      | inl h ↦ cc (rw h at v)
      | inr (file, h) ↦ cc (rw (rw h at v) at (rw h at e))
    ]
