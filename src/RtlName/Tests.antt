-- ===== src/RtlName/Tests.antt =====
-- The names of an RTL model at concrete inputs.
use pigen.Common.{zero, suc, ◌≡◌, ◌≢◌, refl, ap, true, some, List, [], ◌∷◌, arith}
use pigen.Source.{
  SourceSpan, SourceFile, invalid_span, new_file, pigen_source_get, pigen_source_span_valid,
  pigen_source_span_text,
}
use pigen.RtlName.{
  RtlName, NameRequest, source_kind, c_string, role_stem, suffix_loop, unique_name, assigned,
  indeterminate, resolve_loop, publish_loop, pigen_rtl_assign_names,
}
use pigen.RtlName.Publish.{IsUnnamed}
use pigen.RtlName.Assign.{
  Assigns, pigen_rtl_assign_names-Assigns, pigen_rtl_assign_names-collision,
  pigen_rtl_assign_names-indeterminate,
}

abbrev files : List SourceFile
files = new_file [] (b'p' ∷ b'a' ∷ b'y' ∷ b'l' ∷ b'o' ∷ b'a' ∷ b'd' ∷ []) ∷ []

abbrev whole : SourceSpan
whole = record { source = 0; start = 0; end = 7 }

abbrev payload : NameRequest
payload = record { kind = 2; origin = invalid_span }

abbrev ready : NameRequest
ready = record { kind = 4; origin = invalid_span }

abbrev source : NameRequest
source = record { kind = source_kind; origin = whole }

abbrev names : List RtlName
names = record { origin = invalid_span; kind = 4; text = b'r' ∷ [] } ∷ []

suffixed :
    pigen_rtl_assign_names files (source ∷ payload ∷ []) []
    ≡ assigned (
        record { origin = whole; kind = source_kind; text = role_stem 2 }
        ∷ record {
          origin = invalid_span;
          kind = 2;
          text = b'p' ∷ b'a' ∷ b'y' ∷ b'l' ∷ b'o' ∷ b'a' ∷ b'd' ∷ b'_' ∷ b'1' ∷ [];
        }
        ∷ [])
unfolding role_stem resolve_loop unique_name suffix_loop publish_loop pigen_rtl_assign_names
    pigen_source_get pigen_source_span_valid pigen_source_span_text
suffixed = refl

pigen_rtl_assign_names-Assigns_example :
    Assigns files
      (source ∷ payload ∷ [])
      names
      (pigen_rtl_assign_names files (source ∷ payload ∷ []) names)
pigen_rtl_assign_names-Assigns_example =
    pigen_rtl_assign_names-Assigns files (source ∷ payload ∷ []) names (omega arith)

valid : pigen_source_span_valid files whole ≡ true
unfolding pigen_source_get pigen_source_span_valid
valid = refl

text : pigen_source_span_text files whole ≡ some (role_stem 2)
unfolding pigen_source_get pigen_source_span_valid pigen_source_span_text role_stem
text = refl

same_text : c_string (role_stem 2) ≡ role_stem 2
unfolding role_stem
same_text = refl

pigen_rtl_assign_names-collision_example :
    pigen_rtl_assign_names files (payload ∷ source ∷ []) []
    ≡ assigned (
        record { origin = invalid_span; kind = 2; text = role_stem 2 }
        ∷ record { origin = whole; kind = source_kind; text = role_stem 2 }
        ∷ [])
pigen_rtl_assign_names-collision_example =
    pigen_rtl_assign_names-collision files whole (role_stem 2) valid text same_text

apart : b'r' ∷ [] ≢ role_stem 2
unfolding role_stem
apart q = cc

payload_new : IsUnnamed names payload
payload_new zero name e q =
    let named : record { origin = invalid_span; kind = 4; text = b'r' ∷ [] } ≡ name = cc in
    omega (arith, ap (λ (n : RtlName). n.kind) named, ap (λ (r : NameRequest). r.kind) q)
payload_new (suc i) name e q = cc

pigen_rtl_assign_names-indeterminate_example :
    pigen_rtl_assign_names files (ready ∷ payload ∷ []) names ≡ indeterminate
pigen_rtl_assign_names-indeterminate_example =
    pigen_rtl_assign_names-indeterminate files names 0 ready payload (omega arith) refl refl
      (record { origin = invalid_span; kind = 4; text = b'r' ∷ [] }, refl, refl) payload_new
      (omega arith) (apart, tt)
