-- ===== src/Scope/Lookup.antt =====
-- src/semantic.c, `pigen_symbol_lookup`: names in the scopes around.
use pigen.Common.{
  ℕ, zero, suc, ◌<◌, ◌≡◌, ◌↔◌, refl, sym, ap, subst, ◌∙◌, ◌⊎◌, inl, inr, true, false, Option, none,
  some, List, arith, ltb, ◌==◌, length, get_elem?, get_elem?-lt, Bool-cases, Option-cases,
}
use pigen.Integer.{invalid_id}
use pigen.TransferType.Laws.{bytes_same_iff}
use pigen.Source.{SourceSpan, pigen_source_span_text}
use pigen.Scope.{
  Scope, Symbol, SymbolTable, same_text, same_name, pigen_scope_get, lookup_loop,
  pigen_symbol_lookup,
}
use pigen.Scope.Chain.{IsTable, lookup_local-IsLocal}

-- No symbol of the scope has the name.
abbrev pub HasNone : SymbolTable → SourceSpan → ℕ → Type 0
HasNone t name scope =
    (k : ℕ) (y : Symbol)
    → get_elem? t.symbols k ≡ some y
    → y.scope ≡ scope
    → same_name t y.name name ≡ false

-- What a name is, looked up in a scope: the symbol `r`, or the invalid id outside of all scopes.
pub data Resolves (t : SymbolTable) (name : SourceSpan) : ℕ → ℕ → Type 0 where
  nowhere : (scope : ℕ) → pigen_scope_get t scope ≡ none → Resolves t name scope invalid_id
  here :
      (scope r : ℕ) (s : Scope) (y : Symbol)
      → pigen_scope_get t scope ≡ some s
      → get_elem? t.symbols r ≡ some y
      → y.scope ≡ scope
      → same_name t y.name name ≡ true
      → Resolves t name scope r
  outer :
      (scope r : ℕ) (s : Scope)
      → pigen_scope_get t scope ≡ some s
      → HasNone t name scope
      → Resolves t name s.parent r
      → Resolves t name scope r

same_text-join :
    (a b n : Option (List ℕ)) → same_text a n ≡ true → same_text b n ≡ true → same_text a b ≡ true
same_text-join none b n e f = cc
same_text-join (some a) none n e f = cc
same_text-join (some a) (some b) none e f = cc
same_text-join (some a) (some b) (some n) e f =
    (bytes_same_iff a b).1 ((bytes_same_iff a n).0 e ∙ sym ((bytes_same_iff b n).0 f))

same_name-join :
    (t : SymbolTable) (a b n : SourceSpan)
    → same_name t a n ≡ true
    → same_name t b n ≡ true
    → same_name t a b ≡ true
unfolding same_name
same_name-join t a b n e f =
    same_text-join (pigen_source_span_text t.files a) (pigen_source_span_text t.files b)
      (pigen_source_span_text t.files n) e f

pub pigen_scope_get-get_elem? :
    (t : SymbolTable) (scope : ℕ) (s : Scope)
    → pigen_scope_get t scope ≡ some s
    → ((scope == invalid_id) ≡ false) × (get_elem? t.scopes scope ≡ some s)
unfolding pigen_scope_get
pigen_scope_get-get_elem? t scope s e = elim (Bool-cases (scope == invalid_id)) [
  | inl h ↦ cc (rw h at e)
  | inr h ↦ (h, rw h at e)
]

pub invalid_scope : (t : SymbolTable) → pigen_scope_get t invalid_id ≡ none
unfolding pigen_scope_get
invalid_scope t = refl

module _ (t : SymbolTable) (v : IsTable t) (name : SourceSpan) where
  valid_symbol : (r : ℕ) (y : Symbol) → get_elem? t.symbols r ≡ some y → (r == invalid_id) ≡ false
  valid_symbol r y f = let l = get_elem?-lt t.symbols r f in ground (arith, l, v.symbols_countable)

  lookup_loop-Resolves :
      (fuel scope : ℕ)
      → (pigen_scope_get t scope ≡ none) ⊎ (scope < fuel)
      → (r : ℕ) × (lookup_loop (suc fuel) t name scope ≡ some r) × Resolves t name scope r
  unfolding lookup_loop
  lookup_loop-Resolves fuel scope (inl e) = (invalid_id, rw e refl, nowhere scope e)
  lookup_loop-Resolves zero scope (inr l) = absurd (omega (arith, l))
  lookup_loop-Resolves (suc fuel) scope (inr l) = elim (Option-cases (pigen_scope_get t scope)) [
    | inl e ↦ (invalid_id, rw e refl, nowhere scope e)
    | inr (s, e) ↦
        let g = pigen_scope_get-get_elem? t scope s e in
        let h = lookup_local-IsLocal t scope name v (get_elem?-lt t.scopes scope g.1) in
        elim h.2 [
          | inl n ↦
              let o = lookup_loop-Resolves fuel s.parent (parent_fuel s g.1) in
              (
                o.0,
                rw (e, h.1, n.0) o.1,
                outer scope o.0 s e (λ k y f q. n.1 k y (get_elem?-lt t.symbols k f) f q) o.2,
              )
          | inr (y, f, q, m) ↦
              (h.0, rw (e, h.1, valid_symbol h.0 y f) refl, here scope h.0 s y e f q m)
        ]
  ]
    where
      parent_fuel :
          (s : Scope)
          → get_elem? t.scopes scope ≡ some s
          → (pigen_scope_get t s.parent ≡ none) ⊎ (s.parent < fuel)
      parent_fuel s g = elim (v.parents scope s g) [
        | inl n ↦ inl (ap (pigen_scope_get t) n ∙ invalid_scope t)
        | inr b ↦ inr (omega (arith, b, l))
      ]

  scope-cases : (scope : ℕ) → (pigen_scope_get t scope ≡ none) ⊎ (scope < length t.scopes)
  scope-cases scope = elim (Option-cases (pigen_scope_get t scope)) [
    | inl e ↦ inl e
    | inr (s, e) ↦ inr (get_elem?-lt t.scopes scope (pigen_scope_get-get_elem? t scope s e).1)
  ]

  Resolves-unique : (scope a b : ℕ) → Resolves t name scope a → Resolves t name scope b → a ≡ b
  Resolves-unique scope a b (nowhere _ e) (nowhere _ f) = refl
  Resolves-unique scope a b (nowhere _ e) (here _ r s y f g q m) = cc
  Resolves-unique scope a b (nowhere _ e) (outer _ r s f n o) = cc
  Resolves-unique scope a b (here _ r s y f g q m) (nowhere _ e) = cc
  Resolves-unique scope a b (here _ r s y f g q m) (here _ u w z h i j k) =
      elim (Bool-cases (ltb a b)) [
        | inl below ↦ cc (
          v.different a b y z g i (q ∙ sym j) (ground arith),
          same_name-join t y.name z.name name m k,
        )
        | inr over ↦ elim (Bool-cases (ltb b a)) [
          | inl below ↦ cc (
            v.different b a z y i g (j ∙ sym q) (ground arith),
            same_name-join t z.name y.name name k m,
          )
          | inr same ↦ ground arith
        ]
      ]
  Resolves-unique scope a b (here _ r s y f g q m) (outer _ u w h n o) = cc (n r y g q)
  Resolves-unique scope a b (outer _ r s f n o) (nowhere _ e) = cc
  Resolves-unique scope a b (outer _ r s f n o) (here _ u w y h g q m) = cc (n u y g q)
  Resolves-unique scope a b (outer _ r s f n o) (outer _ u w g m p) =
      let same : s ≡ w = cc in
      Resolves-unique s.parent a b o
        (subst (λ (x : Scope). Resolves t name x.parent b) (sym same) p)

-- In a table in order, looking a name up ends, and gives what the scopes around say that it is: the
-- symbol of the nearest scope that has one of that name, or the invalid id.
pub pigen_symbol_lookup_iff :
    (t : SymbolTable) (name : SourceSpan) (scope r : ℕ)
    → IsTable t
    → (pigen_symbol_lookup t scope name ≡ some r) ↔ Resolves t name scope r
unfolding pigen_symbol_lookup
pigen_symbol_lookup_iff t name scope r v =
    let h = lookup_loop-Resolves t v name (length t.scopes) scope (scope-cases t v name scope) in
    (
      λ e. subst (Resolves t name scope) (apart h.0 (sym h.1 ∙ e)) h.2,
      λ o. h.1 ∙ ap some (Resolves-unique t v name scope h.0 r h.2 o),
    )
  where
    apart : (a : ℕ) → some a ≡ some r → a ≡ r
    apart a q = cc

pub pigen_symbol_lookup-found :
    (t : SymbolTable) (name : SourceSpan) (scope : ℕ)
    → IsTable t
    → (r : ℕ) × (pigen_symbol_lookup t scope name ≡ some r) × Resolves t name scope r
unfolding pigen_symbol_lookup
pigen_symbol_lookup-found t name scope v =
    lookup_loop-Resolves t v name (length t.scopes) scope (scope-cases t v name scope)
