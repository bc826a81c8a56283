-- ===== src/RtlName/Publish.antt =====
-- src/rtl_name.c, `pigen_rtl_assign_names`: what it publishes.
use pigen.Common.{
  ℕ, zero, suc, ◌+◌, ◌≤◌, ◌<◌, ◌≡◌, ◌≢◌, ◌↔◌, refl, sym, ap, ap₂, subst, ◌∙◌, ◌⊎◌, inl, inr, true,
  false, some, List, [], ◌∷◌, ◌++◌, arith, length, get_elem?, get_elem?-append_left,
  get_elem?-append_self, get_elem?-append_cases, get_elem?-lt, All, All-append, All-mono,
  All-get_elem?, Bool-cases,
}
use pigen.Integer.{invalid_id}
use pigen.Source.{SourceSpan, SourceFile, pigen_source_span_text}
use pigen.RtlName.{
  RtlName, NameRequest, source_kind, request_matches_name, requests_match, found, match_name,
  match_request, new_name, copied_text,
}

-- The role and the origin of a name.
abbrev request_of : RtlName → NameRequest
request_of name = record { kind = name.kind; origin = name.origin }

pub requests_match_iff : (a b : NameRequest) → (requests_match a b ≡ true) ↔ (a ≡ b)
requests_match_iff a b = (to, λ q. rw q (same b))
  where
    same : (c : NameRequest) → requests_match c c ≡ true
    same c = ground arith

    to : requests_match a b ≡ true → a ≡ b
    to e =
        let kind : a.kind ≡ b.kind = ground arith in
        let source : a.origin.source ≡ b.origin.source = ground arith in
        let start : a.origin.start ≡ b.origin.start = ground arith in
        let end : a.origin.end ≡ b.origin.end = ground arith in
        ap₂ (λ (k : ℕ) (o : SourceSpan). record { kind = k; origin = o }) kind
          (ap (λ (n : ℕ). record { source = n; start = a.origin.start; end = a.origin.end }) source
            ∙ ap₂ (λ (n m : ℕ). record { source = b.origin.source; start = n; end = m }) start end)

-- The name of this id has the identity that is requested.
abbrev pub NamedAt : List RtlName → ℕ → NameRequest → Type 0
NamedAt names id request =
    (name : RtlName) × (get_elem? names id ≡ some name) × (request_of name ≡ request)

abbrev pub IsUnnamed : List RtlName → NameRequest → Type 0
IsUnnamed names request =
    (i : ℕ) (name : RtlName) → get_elem? names i ≡ some name → request_of name ≢ request

pub match_name-cases :
    (names : List RtlName) (j : ℕ) (request : NameRequest)
    → j + length names < invalid_id
    → ((match_name names j request ≡ invalid_id) × IsUnnamed names request)
      ⊎ ((i : ℕ) × (match_name names j request ≡ j + i) × NamedAt names i request)
match_name-cases [] j request b = inl (refl, λ i name e. cc)
match_name-cases (name ∷ names) j request b =
    elim (Bool-cases (request_matches_name name request)) [
      | inl e ↦ rw e (
          inr
            (0, omega (arith, b), (name, refl, (requests_match_iff (request_of name) request).0 e)))
      | inr e ↦ rw e (elim (match_name-cases names (suc j) request (omega (arith, b))) [
        | inl h ↦ inl (h.0, unnamed e h.1)
        | inr (i, q, n) ↦ inr (suc i, omega (arith, q), n)
      ])
    ]
  where
    unnamed :
        request_matches_name name request ≡ false
        → IsUnnamed names request
        → IsUnnamed (name ∷ names) request
    unnamed e h zero n q r =
        let s : name ≡ n = cc in
        cc (e, (requests_match_iff (request_of name) request).1 (ap request_of s ∙ r))
    unnamed e h (suc i) n q r = h i n q r

pub match_request-cases :
    (names : List RtlName) (earlier : List (NameRequest × ℕ)) (request : NameRequest)
    → All (λ (e : NameRequest × ℕ). NamedAt names e.1 e.0) earlier
    → ((match_request earlier request ≡ invalid_id)
        × All (λ (e : NameRequest × ℕ). e.0 ≢ request) earlier)
      ⊎ NamedAt names (match_request earlier request) request
match_request-cases names [] request h = inl (refl, tt)
match_request-cases names (e ∷ earlier) request h = elim (Bool-cases (requests_match e.0 request)) [
  | inl q ↦ rw q (inr (h.0.0, h.0.1, h.0.2 ∙ (requests_match_iff e.0 request).0 q))
  | inr q ↦ rw q (elim (match_request-cases names earlier request h.1) [
    | inl r ↦ inl (r.0, (λ s. cc ((requests_match_iff e.0 request).1 s, q), r.1))
    | inr n ↦ inr n
  ])
]

abbrev pub IsDistinct : List RtlName → Type 0
IsDistinct names =
    (i j : ℕ) (a b : RtlName)
    → get_elem? names i ≡ some a
    → get_elem? names j ≡ some b
    → request_of a ≡ request_of b
    → i ≡ j

-- What `names` becomes when `earlier` requests are published.
pub record Publishes (files : List SourceFile) (names : List RtlName)
    (earlier : List (NameRequest × ℕ)) (more : List RtlName) : Type 0 where
  pub keeps : (i : ℕ) (n : RtlName) → get_elem? names i ≡ some n → get_elem? more i ≡ some n
  pub resolved : All (λ (e : NameRequest × ℕ). NamedAt more e.1 e.0) earlier
  pub requested :
      (i : ℕ) (n : RtlName)
      → get_elem? more i ≡ some n
      → (get_elem? names i ≡ some n)
        ⊎ ((k : ℕ) × (e : NameRequest × ℕ) × (get_elem? earlier k ≡ some e) × (e.0 ≡ request_of n))
  pub distinct : IsDistinct names → IsDistinct more
  pub copied :
      (i : ℕ) (n : RtlName)
      → get_elem? more i ≡ some n
      → length names ≤ i
      → n.kind ≡ source_kind
      → copied_text (pigen_source_span_text files n.origin) ≡ found n.text
  pub unshared :
      (i j : ℕ) (n m : RtlName)
      → get_elem? more i ≡ some n
      → length names ≤ i
      → n.kind ≢ source_kind
      → get_elem? more j ≡ some m
      → j < i
      → m.text ≢ n.text

-- An element of a list and one more.
abbrev At : List RtlName → RtlName → ℕ → RtlName → Type 0
At more new i n = (get_elem? more i ≡ some n) ⊎ ((i ≡ length more) × (new ≡ n))

module _ (files : List SourceFile) (names : List RtlName) (earlier : List (NameRequest × ℕ))
    (more : List RtlName) (p : Publishes files names earlier more) where
  -- A request whose identity has a name already.
  pub Publishes-skip :
      (request : NameRequest) (id : ℕ)
      → NamedAt more id request
      → Publishes files names (earlier ++ (request, id) ∷ []) more
  Publishes-skip request id n = record {
    keeps = p.keeps;
    resolved =
        All-append (λ (e : NameRequest × ℕ). NamedAt more e.1 e.0) earlier ((request, id) ∷ [])
          p.resolved (n, tt);
    requested = λ i m e. elim (p.requested i m e) [
      | inl h ↦ inl h
      | inr (k, r, h, q) ↦ inr (
        k,
        r,
        get_elem?-append_left earlier ((request, id) ∷ []) k (get_elem?-lt earlier k h) ∙ h,
        q,
      )
    ];
    distinct = p.distinct;
    copied = p.copied;
    unshared = p.unshared;
  }

  module _ (request : NameRequest) (text : List ℕ) (bound : length names ≤ length more)
      (unnamed : IsUnnamed more request)
      (source : request.kind ≡ source_kind
        → copied_text (pigen_source_span_text files request.origin) ≡ found text)
      (internal : request.kind ≢ source_kind
        → All (λ (known : RtlName). known.text ≢ text) more) where
    abbrev new : RtlName
    new = new_name request text

    abbrev grown : List RtlName
    grown = more ++ new ∷ []

    older : (i : ℕ) (n : RtlName) → get_elem? more i ≡ some n → get_elem? grown i ≡ some n
    older i n e = get_elem?-append_left more (new ∷ []) i (get_elem?-lt more i e) ∙ e

    at : (i : ℕ) (n : RtlName) → get_elem? grown i ≡ some n → At more new i n
    at i n e = get_elem?-append_cases more new n i e

    new-IsDistinct : IsDistinct more → IsDistinct grown
    new-IsDistinct d i j a b e f q = elim (at i a e) [
      | inl g ↦ elim (at j b f) [
        | inl h ↦ d i j a b g h q
        | inr h ↦ absurd (unnamed i a g (q ∙ sym (ap request_of h.1)))
      ]
      | inr g ↦ elim (at j b f) [
        | inl h ↦ absurd (unnamed j b h (sym q ∙ sym (ap request_of g.1)))
        | inr h ↦ g.0 ∙ sym h.0
      ]
    ]

    new_copied :
        (i : ℕ) (n : RtlName)
        → At more new i n
        → length names ≤ i
        → n.kind ≡ source_kind
        → copied_text (pigen_source_span_text files n.origin) ≡ found n.text
    new_copied i n (inl g) l k = p.copied i n g l k
    new_copied i n (inr g) l k =
        subst
          (λ (m : RtlName).
            m.kind ≡ source_kind
            → copied_text (pigen_source_span_text files m.origin) ≡ found m.text)
          g.1 source k

    new_unshared :
        (i j : ℕ) (n m : RtlName)
        → At more new i n
        → length names ≤ i
        → n.kind ≢ source_kind
        → At more new j m
        → j < i
        → m.text ≢ n.text
    new_unshared i j n m (inl g) l k (inl h) s = p.unshared i j n m g l k h s
    new_unshared i j n m (inl g) l k (inr h) s =
        absurd (omega (arith, get_elem?-lt more i g, h.0, s))
    new_unshared i j n m (inr g) l k (inl h) s = λ q.
        All-get_elem? (λ (known : RtlName). known.text ≢ text) more j
          (internal (λ c. k (sym (ap (λ (x : RtlName). x.kind) g.1) ∙ c))) h
          (q ∙ sym (ap (λ (x : RtlName). x.text) g.1))
    new_unshared i j n m (inr g) l k (inr h) s = absurd (omega (arith, g.0, h.0, s))

    pub Publishes-new : Publishes files names (earlier ++ (request, length more) ∷ []) grown
    Publishes-new = record {
      keeps = λ i n e. older i n (p.keeps i n e);
      resolved =
          All-append (λ (e : NameRequest × ℕ). NamedAt grown e.1 e.0) earlier
            ((request, length more) ∷ [])
            (All-mono _ _ earlier (λ e n. (n.0, older e.1 n.0 n.1, n.2)) p.resolved)
            ((new, get_elem?-append_self more new, refl), tt);
      requested = λ i n e. elim (at i n e) [
        | inl g ↦ elim (p.requested i n g) [
          | inl h ↦ inl h
          | inr (k, r, h, q) ↦
              inr (k, r, get_elem?-append_left earlier _ k (get_elem?-lt earlier k h) ∙ h, q)
        ]
        | inr g ↦ inr (
          length earlier,
          (request, length more),
          get_elem?-append_self earlier _,
          ap request_of g.1,
        )
      ];
      distinct = λ d. new-IsDistinct (p.distinct d);
      copied = λ i n e l k. new_copied i n (at i n e) l k;
      unshared = λ i j n m e l k f s. new_unshared i j n m (at i n e) l k (at j m f) s;
    }
