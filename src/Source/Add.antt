-- ===== src/Source/Add.antt =====
-- src/source.c, `pigen_source_add`: the files that a manager has.
use pigen.Common.{
  ℕ, suc, ◌⊎◌, false, length-append, ◌≤◌, ◌≡◌, refl, ◌∙◌, inl, inr, none, some, List, [], ◌∷◌, ◌++◌,
  arith, ◌==◌, length, get_elem?, All, All-append, get_elem?-append_left, get_elem?-append_self,
  get_elem?-lt, Bool-cases, u32,
}
use pigen.Integer.{invalid_id}
use pigen.Source.{SourceFile, new_file, pigen_source_add, pigen_source_get}
use pigen.Source.Locate.{HasLines}

pub record IsManager (files : List SourceFile) : Type 0 where
  pub lined : All HasLines files
  pub countable : length files ≤ invalid_id

-- What a file's addition promises.
pub record Adds (files : List SourceFile) (path text : List ℕ) (r : List SourceFile × ℕ)
    : Type 0 where
  pub manager : IsManager r.0
  pub added : pigen_source_get r.0 r.1 ≡ some (new_file path text)
  pub keeps :
      (id : ℕ) (file : SourceFile)
      → pigen_source_get files id ≡ some file
      → pigen_source_get r.0 id ≡ some file

pigen_source_get-get_elem? :
    (files : List SourceFile) (id : ℕ) (file : SourceFile)
    → pigen_source_get files id ≡ some file
    → ((id == invalid_id) ≡ false) × (get_elem? files id ≡ some file)
unfolding pigen_source_get
pigen_source_get-get_elem? files id file e = elim (Bool-cases (id == invalid_id)) [
  | inl b ↦ absurd (none-some (rw b at e))
  | inr b ↦ (b, rw b at e)
]
  where
    none-some : none ≡ some file → ⊥
    none-some q = cc

pigen_source_get-keeps :
    (files : List SourceFile) (f : SourceFile) (id : ℕ) (file : SourceFile)
    → pigen_source_get files id ≡ some file
    → pigen_source_get (files ++ f ∷ []) id ≡ some file
unfolding pigen_source_get
pigen_source_get-keeps files f id file e =
    let h = pigen_source_get-get_elem? files id file e in
    rw h.0 (get_elem?-append_left files (f ∷ []) id (get_elem?-lt files id h.1) ∙ h.1)

-- A file is added unless all ids are given out: the manager has it under the new id, its lines start
-- behind its newlines, and the older files keep their ids.
pub pigen_source_add-Adds :
    (files : List SourceFile) (path text : List ℕ)
    → IsManager files
    → ((pigen_source_add files path text ≡ none) × (length files ≡ invalid_id))
      ⊎ ((r : List SourceFile × ℕ) × (pigen_source_add files path text ≡ some r)
          × Adds files path text r)
unfolding pigen_source_add pigen_source_get
pigen_source_add-Adds files path text v = elim (Bool-cases (length files == invalid_id)) [
  | inl full ↦ rw full (inl (refl, ground arith))
  | inr free ↦ rw free (
      inr (
        _,
        refl,
        record {
          manager = record {
            lined = All-append HasLines files (new_file path text ∷ []) v.lined (refl, tt);
            countable =
                omega
                  (arith, v.countable, length-append files (new_file path text ∷ []), room free);
          };
          added = added_file free;
          keeps = λ id file e. pigen_source_get-keeps files (new_file path text) id file e;
        },
      ))
]
  where
    room : (length files == invalid_id) ≡ false → suc (length files) ≤ invalid_id
    room e = ground (arith, v.countable)

    index : (length files == invalid_id) ≡ false → u32 (length files) ≡ length files
    index e = ground (arith, room e)

    added_file :
        (length files == invalid_id) ≡ false
        → pigen_source_get (files ++ new_file path text ∷ []) (u32 (length files))
          ≡ some (new_file path text)
    added_file e = rw (index e, e) (get_elem?-append_self files (new_file path text))
