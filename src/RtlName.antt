-- ===== src/RtlName.antt =====
-- src/rtl_name.c, include/pigen/rtl_name.h: the names of an RTL model. A text is what C reads of it,
-- the bytes before the first zero. The names that one call stages are kept in an array that is not
-- set at first: an entry is `unset` until it is `staged`. The model's other arenas are left out, and
-- so is the check that a suffix fits its buffer, which has room for all numbers of 64 bits.
pub mod Pigeonhole
pub mod Suffix
pub mod Publish
pub mod Resolve
pub mod Phases
pub mod Assign
mod Tests
use pigen.Common.{
  ℕ, zero, suc, ◌+◌, ◌/◌, ◌%◌, Bool, true, false, ◌&&◌, ◌||◌, not, Option, none, some, List, [],
  ◌∷◌, ◌++◌, ltb, leb, ◌==◌, if◌then◌else◌, u32, length, get_elem?,
}
use pigen.Integer.{invalid_id}
use pigen.TransferType.{bytes_same}
use pigen.Source.{SourceSpan, SourceFile, pigen_source_span_valid, pigen_source_span_text}

abbrev pub source_kind : ℕ
source_kind = 1

abbrev temporary_kind : ℕ
temporary_kind = 6

pub record RtlName : Type 0 where
  pub origin : SourceSpan
  pub kind : ℕ
  pub text : List ℕ

pub record NameRequest : Type 0 where
  pub kind : ℕ
  pub origin : SourceSpan

abbrev pub request_valid : List SourceFile → NameRequest → Bool
request_valid files request =
    if ltb request.kind source_kind || ltb temporary_kind request.kind
    then false
    else not (request.kind == source_kind && not (pigen_source_span_valid files request.origin))

abbrev same_identity : ℕ → SourceSpan → ℕ → SourceSpan → Bool
same_identity a_kind a b_kind b =
    a_kind == b_kind && a.source == b.source && a.start == b.start && a.end == b.end

abbrev pub request_matches_name : RtlName → NameRequest → Bool
request_matches_name name request = same_identity name.kind name.origin request.kind request.origin

abbrev pub requests_match : NameRequest → NameRequest → Bool
requests_match a b = same_identity a.kind a.origin b.kind b.origin

unfoldable pub role_stem : ℕ → List ℕ
role_stem kind =
    if kind == 1
    then b's' ∷ b'o' ∷ b'u' ∷ b'r' ∷ b'c' ∷ b'e' ∷ []
    else if kind == 2
    then b'p' ∷ b'a' ∷ b'y' ∷ b'l' ∷ b'o' ∷ b'a' ∷ b'd' ∷ []
    else if kind == 3
    then b'v' ∷ b'a' ∷ b'l' ∷ b'i' ∷ b'd' ∷ []
    else if kind == 4
    then b'r' ∷ b'e' ∷ b'a' ∷ b'd' ∷ b'y' ∷ []
    else if kind == 5
    then b'i' ∷ b'n' ∷ b's' ∷ b't' ∷ b'a' ∷ b'n' ∷ b'c' ∷ b'e' ∷ []
    else if kind == 6
    then b't' ∷ b'e' ∷ b'm' ∷ b'p' ∷ b'o' ∷ b'r' ∷ b'a' ∷ b'r' ∷ b'y' ∷ []
    else b'n' ∷ b'a' ∷ b'm' ∷ b'e' ∷ []

pub data Staged : Type 0 where
  unset : Staged
  staged : List ℕ → Staged

pub data Taken : Type 0 where
  taken : Taken
  unused : Taken
  unreadable : Taken

abbrev pub staged_taken : List Staged → List ℕ → Taken
staged_taken [] name = unused
staged_taken (unset ∷ rest) name = unreadable
staged_taken (staged text ∷ rest) name =
    let later = staged_taken rest name in if bytes_same text name then taken else later

abbrev pub name_taken : List RtlName → List Staged → List ℕ → Taken
name_taken [] stage name = staged_taken stage name
name_taken (known ∷ names) stage name =
    let later = name_taken names stage name in if bytes_same known.text name then taken else later

-- The decimal digits of a number below 10 ^ fuel, as `%zu` prints them.
abbrev pub decimal : ℕ → ℕ → List ℕ
decimal zero n = []
decimal (suc fuel) n =
    let higher = decimal fuel (n / 10) in
    if ltb n 10 then (b'0' + n) ∷ [] else higher ++ (b'0' + n % 10) ∷ []

abbrev pub suffixed_name : List ℕ → ℕ → List ℕ
suffixed_name stem candidate = stem ++ b'_' ∷ decimal (suc candidate) candidate

pub data NameText : Type 0 where
  found : List ℕ → NameText
  indeterminate_text : NameText
  no_candidate : NameText

abbrev pub taken_text : Taken → List ℕ → NameText → NameText
taken_text taken name later = later
taken_text unused name later = found name
taken_text unreadable name later = indeterminate_text

-- The search for a suffix from `candidate` on, in at most `fuel` rounds.
unfoldable pub suffix_loop : ℕ → List RtlName → List Staged → List ℕ → ℕ → NameText
suffix_loop zero names stage stem candidate = no_candidate
suffix_loop (suc fuel) names stage stem candidate =
    taken_text (name_taken names stage (suffixed_name stem candidate))
      (suffixed_name stem candidate) (suffix_loop fuel names stage stem (suc candidate))

unfoldable pub unique_name : List RtlName → List Staged → List ℕ → NameText
unique_name names stage stem =
    taken_text (name_taken names stage stem) stem
      (suffix_loop (suc (length names + length stage)) names stage stem 1)

-- The published name of the request's identity.
abbrev pub match_name : List RtlName → ℕ → NameRequest → ℕ
match_name [] j request = invalid_id
match_name (name ∷ names) j request =
    let later = match_name names (suc j) request in
    if request_matches_name name request then u32 j else later

-- What an earlier request of the same identity resolved to.
abbrev pub match_request : List (NameRequest × ℕ) → NameRequest → ℕ
match_request [] request = invalid_id
match_request (earlier ∷ rest) request =
    let later = match_request rest request in
    if requests_match earlier.0 request then earlier.1 else later

-- The second phase: the id of each request, in order.
unfoldable pub resolve_loop :
    List RtlName → List (NameRequest × ℕ) → ℕ → List NameRequest → List (NameRequest × ℕ)
resolve_loop names earlier additions [] = earlier
resolve_loop names earlier additions (request ∷ requests) =
    let known = match_name names 0 request in
    let repeated = match_request earlier request in
    let fresh = u32 (length names + additions) in
    let on_known = resolve_loop names (earlier ++ (request, known) ∷ []) additions requests in
    let on_repeated = resolve_loop names (earlier ++ (request, repeated) ∷ []) additions requests in
    let on_fresh = resolve_loop names (earlier ++ (request, fresh) ∷ []) (suc additions) requests in
    if not (known == invalid_id)
    then on_known
    else if not (repeated == invalid_id)
    then on_repeated
    else on_fresh

pub data Assigned : Type 0 where
  refused : Assigned
  assigned : List RtlName → Assigned
  indeterminate : Assigned
  out_of_fuel : Assigned

abbrev pub new_name : NameRequest → List ℕ → RtlName
new_name request text = record { origin = request.origin; kind = request.kind; text = text }

-- A text up to its first zero, as the string functions read it.
abbrev pub c_string : List ℕ → List ℕ
c_string [] = []
c_string (c ∷ text) = if c == 0 then [] else c ∷ c_string text

abbrev pub copied_text : Option (List ℕ) → NameText
copied_text none = indeterminate_text
copied_text (some text) = found (c_string text)

abbrev pub request_text : List SourceFile → List RtlName → List Staged → NameRequest → NameText
request_text files names stage request =
    if request.kind == source_kind
    then copied_text (pigen_source_span_text files request.origin)
    else unique_name names stage (role_stem request.kind)

abbrev pub publish_text :
    NameText
    → NameRequest
    → List RtlName
    → List Staged
    → (List RtlName → List Staged → Assigned)
    → Assigned
publish_text (found text) request names stage next =
    next (names ++ new_name request text ∷ []) (stage ++ staged text ∷ [])
publish_text indeterminate_text request names stage next = indeterminate
publish_text no_candidate request names stage next = out_of_fuel

-- The third phase, for the requests with their ids.
unfoldable pub publish_loop :
    List SourceFile → List (NameRequest × ℕ) → List RtlName → List Staged → Assigned
publish_loop files [] names stage = assigned names
publish_loop files (r ∷ rest) names stage =
    let skip = publish_loop files rest names (stage ++ unset ∷ []) in
    if ltb r.1 (length names)
    then skip
    else publish_text (request_text files names stage r.0) r.0 names stage
        (λ (more : List RtlName) (behind : List Staged). publish_loop files rest more behind)

abbrev pub all_valid : List SourceFile → List NameRequest → Bool
all_valid files [] = true
all_valid files (request ∷ requests) =
    let later = all_valid files requests in if request_valid files request then later else false

unfoldable pub pigen_rtl_assign_names : List SourceFile → List NameRequest → List RtlName → Assigned
pigen_rtl_assign_names files requests names =
    if length requests == 0
    then refused
    else if all_valid files requests
    then publish_loop files (resolve_loop names [] 0 requests) names []
    else refused

unfoldable pigen_rtl_name_get : List RtlName → ℕ → Option RtlName
pigen_rtl_name_get names name = if name == invalid_id then none else get_elem? names name
