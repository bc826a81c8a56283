-- ===== src/Source/Tests.antt =====
-- Source files at concrete inputs.
use pigen.Common.{ℕ, ◌≡◌, refl, true, ◌⊎◌, none, some, List, [], ◌∷◌, length, arith}
use pigen.Integer.{invalid_id}
use pigen.Source.{
  SourceSpan, SourceFile, new_file, newline_starts, pigen_source_add, pigen_source_get,
  pigen_source_span_valid, pigen_source_locate, locate_loop, diagnostic_place,
}
use pigen.Source.Locate.{pigen_source_locate-diagnostic_place}
use pigen.Source.Add.{Adds, IsManager, pigen_source_add-Adds}

abbrev file : SourceFile
file = new_file (b'f' ∷ []) (b'a' ∷ b'\n' ∷ b'\n' ∷ b'b' ∷ b'c' ∷ [])

abbrev span : SourceSpan
span = record { source = 0; start = 4; end = 5 }

located : pigen_source_locate (file ∷ []) span ≡ record { line = 3; column = 2 }
unfolding newline_starts pigen_source_get pigen_source_span_valid locate_loop pigen_source_locate
located = refl

got : pigen_source_get (file ∷ []) 0 ≡ some file
unfolding pigen_source_get
got = refl

valid : pigen_source_span_valid (file ∷ []) span ≡ true
unfolding pigen_source_get pigen_source_span_valid
valid = refl

pigen_source_locate-diagnostic_place_example :
    pigen_source_locate (file ∷ []) span ≡ diagnostic_place file.text 4 1 1
pigen_source_locate-diagnostic_place_example =
    pigen_source_locate-diagnostic_place (file ∷ []) span file got refl valid

one_file : IsManager (file ∷ [])
one_file = record { lined = (refl, tt); countable = omega arith }

pigen_source_add-Adds_example :
    ((pigen_source_add (file ∷ []) (b'g' ∷ []) (b'\n' ∷ []) ≡ none)
      × (length (file ∷ []) ≡ invalid_id))
    ⊎ ((r : List SourceFile × ℕ) × (pigen_source_add (file ∷ []) (b'g' ∷ []) (b'\n' ∷ []) ≡ some r)
        × Adds (file ∷ []) (b'g' ∷ []) (b'\n' ∷ []) r)
pigen_source_add-Adds_example = pigen_source_add-Adds (file ∷ []) (b'g' ∷ []) (b'\n' ∷ []) one_file
