-- ===== src/Scope/Declare.antt =====
-- src/semantic.c, `pigen_symbol_declare`: the table with one symbol more.
use pigen.Common.{
  ℕ, suc, ◌≤◌, ◌<◌, ◌≡◌, ◌≢◌, sym, ap, subst, ◌∙◌, ◌⊎◌, inl, inr, false, some, [], ◌∷◌, arith, ◌==◌,
  u32, length, length-append, length-set_elem, get_elem?, get_elem?-lt, get_elem?-append_left,
  get_elem?-append_self, get_elem?-append_cases, get_elem?-set_elem_same, get_elem?-set_elem_other,
  Bool-cases,
}
use pigen.Integer.{invalid_id}
use pigen.Scope.{Scope, Symbol, SymbolTable, same_name, with_last, with_symbol}
use pigen.Scope.Chain.{IsLatest, IsTable}
use pigen.Scope.Lookup.{HasNone}

-- The latest symbol of a scope, in a table with more symbols.
IsLatest-keep :
    (t u : SymbolTable) (scope bound r : ℕ)
    → bound ≤ length t.symbols
    → ((k : ℕ) → k < length t.symbols → get_elem? u.symbols k ≡ get_elem? t.symbols k)
    → IsLatest t scope bound r
    → IsLatest u scope bound r
IsLatest-keep t u scope bound r b k (inl h) =
    inl (h.0, λ i y l e. h.1 i y l (sym (k i (omega (arith, l, b))) ∙ e))
IsLatest-keep t u scope bound r b k (inr (y, e, s, l, above)) = inr (
  y,
  k r (omega (arith, l, b)) ∙ e,
  s,
  l,
  λ i z m n f. above i z m n (sym (k i (omega (arith, n, b))) ∙ f),
)

module _ (t : SymbolTable) (v : IsTable t) (scope : ℕ) (owner : Scope) (new : Symbol)
    (known : get_elem? t.scopes scope ≡ some owner) (room : length t.symbols < invalid_id)
    (placed : new.scope ≡ scope) (previous : new.previous_in_scope ≡ owner.last_symbol)
    (unnamed : HasNone t new.name scope) where
  abbrev u : SymbolTable
  u = with_symbol t scope owner new

  index : u32 (length t.symbols) ≡ length t.symbols
  index = omega (arith, room)

  older : (k : ℕ) → k < length t.symbols → get_elem? u.symbols k ≡ get_elem? t.symbols k
  older k l = get_elem?-append_left t.symbols (new ∷ []) k l

  newest : get_elem? u.symbols (length t.symbols) ≡ some new
  newest = get_elem?-append_self t.symbols new

  symbol-cases :
      (k : ℕ) (y : Symbol)
      → get_elem? u.symbols k ≡ some y
      → (get_elem? t.symbols k ≡ some y) ⊎ ((k ≡ length t.symbols) × (new ≡ y))
  symbol-cases k y e = get_elem?-append_cases t.symbols new y k e

  scope-cases :
      (i : ℕ) (s : Scope)
      → get_elem? u.scopes i ≡ some s
      → ((i ≡ scope) × (with_last owner (u32 (length t.symbols)) ≡ s))
        ⊎ ((i ≢ scope) × (get_elem? t.scopes i ≡ some s))
  scope-cases i s e = elim (Bool-cases (i == scope)) [
    | inl q ↦
        let j : i ≡ scope = ground arith in
        let set =
          get_elem?-set_elem_same t.scopes scope (with_last owner (u32 (length t.symbols)))
            (get_elem?-lt t.scopes scope known) in
        inl (j, some_same s (sym set ∙ ap (λ (k : ℕ). get_elem? u.scopes k) (sym j) ∙ e))
    | inr q ↦
        let j : i ≢ scope = ground arith in
        inr (
          j,
          sym (
                get_elem?-set_elem_other t.scopes scope i (with_last owner (u32 (length t.symbols)))
                  (λ k. j (sym k)))
              ∙ e,
        )
  ]
    where
      some_same :
          (r : Scope)
          → some (with_last owner (u32 (length t.symbols))) ≡ some r
          → with_last owner (u32 (length t.symbols)) ≡ r
      some_same r q = cc

  IsLatest-other :
      (i r : ℕ)
      → i ≢ scope
      → IsLatest t i (length t.symbols) r
      → IsLatest u i (suc (length t.symbols)) r
  IsLatest-other i r d (inl h) =
      inl (h.0, λ k y l e. none_of k y e (λ f. h.1 k y (get_elem?-lt t.symbols k f) f))
    where
      none_of :
          (k : ℕ) (y : Symbol)
          → get_elem? u.symbols k ≡ some y
          → (get_elem? t.symbols k ≡ some y → y.scope ≢ i)
          → y.scope ≢ i
      none_of k y e f = elim (symbol-cases k y e) [
        | inl g ↦ f g
        | inr g ↦ λ q. d (sym q ∙ ap (λ (s : Symbol). s.scope) (sym g.1) ∙ placed)
      ]
  IsLatest-other i r d (inr (y, e, s, l, above)) =
      inr (y, older r l ∙ e, s, omega (arith, l), λ k z a b f. none_of k z a f)
    where
      none_of : (k : ℕ) (z : Symbol) → r < k → get_elem? u.symbols k ≡ some z → z.scope ≢ i
      none_of k z a e = elim (symbol-cases k z e) [
        | inl g ↦ above k z a (get_elem?-lt t.symbols k g) g
        | inr g ↦ λ q. d (sym q ∙ ap (λ (s : Symbol). s.scope) (sym g.1) ∙ placed)
      ]

  IsLatest-new : IsLatest u scope (suc (length t.symbols)) (u32 (length t.symbols))
  IsLatest-new =
      subst (IsLatest u scope (suc (length t.symbols))) (sym index)
        (inr (new, newest, placed, omega arith, λ k z l m. absurd (omega (arith, l, m))))

  new_lasts :
      (i : ℕ) (s : Scope)
      → get_elem? u.scopes i ≡ some s
      → IsLatest u i (length u.symbols) s.last_symbol
  new_lasts i s e =
      let n : length u.symbols ≡ suc (length t.symbols) =
        omega (arith, length-append t.symbols (new ∷ [])) in
      subst (λ (b : ℕ). IsLatest u i b s.last_symbol) (sym n)
        (elim (scope-cases i s e) [
          | inl h ↦
              subst (λ (r : Scope). IsLatest u i (suc (length t.symbols)) r.last_symbol) h.1
                (subst (λ (j : ℕ). IsLatest u j (suc (length t.symbols)) (u32 (length t.symbols)))
                  (sym h.0) IsLatest-new)
          | inr h ↦ IsLatest-other i s.last_symbol h.0 (v.lasts i s h.1)
        ])

  new_chained :
      (i : ℕ) (y : Symbol)
      → get_elem? u.symbols i ≡ some y
      → IsLatest u y.scope i y.previous_in_scope
  new_chained i y e = elim (symbol-cases i y e) [
    | inl f ↦
        IsLatest-keep t u y.scope i y.previous_in_scope (omega (arith, get_elem?-lt t.symbols i f))
          older (v.chained i y f)
    | inr f ↦
        subst (λ (s : Symbol). IsLatest u s.scope i s.previous_in_scope) f.1
          (subst (λ (j : ℕ). IsLatest u new.scope j new.previous_in_scope) (sym f.0)
            (subst (λ (s : ℕ). IsLatest u s (length t.symbols) new.previous_in_scope) (sym placed)
              (subst (IsLatest u scope (length t.symbols)) (sym previous) (
                IsLatest-keep t u scope (length t.symbols) owner.last_symbol (omega arith) older
                  (v.lasts scope owner known)))))
  ]

  new_different :
      (i j : ℕ) (y z : Symbol)
      → get_elem? u.symbols i ≡ some y
      → get_elem? u.symbols j ≡ some z
      → y.scope ≡ z.scope
      → i < j
      → same_name t y.name z.name ≡ false
  new_different i j y z e f q l = elim (symbol-cases j z f) [
    | inl g ↦
        v.different i j y z (sym (older i (omega (arith, l, get_elem?-lt t.symbols j g))) ∙ e) g q l
    | inr g ↦
        subst (λ (s : Symbol). same_name t y.name s.name ≡ false) g.1
          (unnamed i y (sym (older i (omega (arith, l, g.0))) ∙ e)
            (q ∙ sym (ap (λ (s : Symbol). s.scope) g.1) ∙ placed))
  ]

  pub with_symbol-IsTable : IsTable u
  unfolding same_name
  with_symbol-IsTable = record {
    scopes_countable = omega (
      arith,
      v.scopes_countable,
      length-set_elem t.scopes scope (with_last owner (u32 (length t.symbols))),
    );
    symbols_countable = omega (arith, room, length-append t.symbols (new ∷ []));
    parents = λ i s e. elim (scope-cases i s e) [
      | inl h ↦
          subst (λ (r : Scope). (r.parent ≡ invalid_id) ⊎ (r.parent < i)) h.1
            (subst (λ (j : ℕ). (owner.parent ≡ invalid_id) ⊎ (owner.parent < j)) (sym h.0)
              (v.parents scope owner known))
      | inr h ↦ v.parents i s h.1
    ];
    lasts = new_lasts;
    chained = new_chained;
    owned = λ i y e.
        let n = length-set_elem t.scopes scope (with_last owner (u32 (length t.symbols))) in
        elim (symbol-cases i y e) [
          | inl f ↦ omega (arith, n, v.owned i y f)
          | inr f ↦ omega (
            arith,
            n,
            get_elem?-lt t.scopes scope known,
            placed,
            ap (λ (s : Symbol). s.scope) f.1,
          )
        ];
    different = new_different;
  }
