-- ===== src/Tracing/Headers.antt =====
-- HeaderMatcher and valueFromCarrier of tracing/tracing.go. Keys are lists of ASCII bytes, on which
-- CanonicalMIMEHeaderKey and ToLower of Go's library are written out.
pub mod Laws
use go_rkvstcommon.Prelude.{
  ℕ, ◌+◌, ◌-◌, Bool, true, false, ◌&&◌, ◌||◌, Option, none, some, List, [], ◌∷◌, leb, nat_eq,
  if◌then◌else◌,
}

abbrev pub Key : Type 0
Key = List ℕ

abbrev pub between : ℕ → ℕ → ℕ → Bool
between a b c = leb a c && leb c b

-- 'A' to 'Z', and 'a' to 'z'
abbrev pub is_upper : ℕ → Bool
is_upper = between 65 90

abbrev pub is_lower : ℕ → Bool
is_lower = between 97 122

abbrev pub lower : ℕ → ℕ
lower c = if is_upper c then c + 32 else c

abbrev pub upper : ℕ → ℕ
upper c = if is_lower c then c - 32 else c

-- strings.ToLower
unfoldable pub to_lower : Key → Key
to_lower [] = []
to_lower (c ∷ s) = lower c ∷ to_lower s

unfoldable pub has_byte : ℕ → Key → Bool
has_byte c [] = false
has_byte c (d ∷ s) = nat_eq c d || has_byte c s

-- A byte of a header's name: a letter, a digit or one of !#$%&'*+-.^_`|~
unfoldable pub is_token : ℕ → Bool
unfolding has_byte
is_token c =
    is_upper c
    || is_lower c
    || between 48 57 c
    || has_byte c (33 ∷ 35 ∷ 36 ∷ 37 ∷ 38 ∷ 39 ∷ 42 ∷ 43 ∷ 45 ∷ 46 ∷ 94 ∷ 95 ∷ 96 ∷ 124 ∷ 126 ∷ [])

unfoldable pub all_tokens : Key → Bool
unfolding is_token
all_tokens [] = true
all_tokens (c ∷ s) = is_token c && all_tokens s

-- The first letter, and each after a dash, in upper case; the others in lower case
unfoldable pub canonical_from : Bool → Key → Key
canonical_from at_start [] = []
canonical_from at_start (c ∷ s) =
    (if at_start then upper c else lower c) ∷ canonical_from (nat_eq c 45) s

-- textproto.CanonicalMIMEHeaderKey, which leaves a key with another byte as it is
unfoldable pub canonical_mime_header_key : Key → Key
unfolding all_tokens canonical_from
canonical_mime_header_key key = if all_tokens key then canonical_from true key else key

unfoldable pub key_eq : Key → Key → Bool
key_eq [] [] = true
key_eq [] (c ∷ s) = false
key_eq (c ∷ s) [] = false
key_eq (c ∷ s) (d ∷ t) = let rest = key_eq s t in nat_eq c d && rest

-- x-request-id
abbrev pub request_id : Key
request_id = 120 ∷ 45 ∷ 114 ∷ 101 ∷ 113 ∷ 117 ∷ 101 ∷ 115 ∷ 116 ∷ 45 ∷ 105 ∷ 100 ∷ []

-- x-ot-span-context
abbrev pub ot_span_context : Key
ot_span_context =
    120 ∷ 45 ∷ 111 ∷ 116 ∷ 45 ∷ 115 ∷ 112 ∷ 97 ∷ 110 ∷ 45 ∷ 99 ∷ 111 ∷ 110 ∷ 116 ∷ 101 ∷ 120 ∷ 116
    ∷ []

-- x-b3- and what follows it
abbrev pub tracer_state : Key → Key
tracer_state rest = 120 ∷ 45 ∷ 98 ∷ 51 ∷ 45 ∷ rest

-- traceid, spanid, parentspanid, sampled and flags
abbrev pub trace_id : Key
trace_id = 116 ∷ 114 ∷ 97 ∷ 99 ∷ 101 ∷ 105 ∷ 100 ∷ []

abbrev pub span_id : Key
span_id = 115 ∷ 112 ∷ 97 ∷ 110 ∷ 105 ∷ 100 ∷ []

abbrev pub parent_span_id : Key
parent_span_id = 112 ∷ 97 ∷ 114 ∷ 101 ∷ 110 ∷ 116 ∷ 115 ∷ 112 ∷ 97 ∷ 110 ∷ 105 ∷ 100 ∷ []

abbrev pub sampled : Key
sampled = 115 ∷ 97 ∷ 109 ∷ 112 ∷ 108 ∷ 101 ∷ 100 ∷ []

abbrev pub flags : Key
flags = 102 ∷ 108 ∷ 97 ∷ 103 ∷ 115 ∷ []

-- otHeaders
abbrev pub ot_headers : List Key
ot_headers =
    request_id
    ∷ ot_span_context
    ∷ tracer_state []
    ∷ tracer_state trace_id
    ∷ tracer_state span_id
    ∷ tracer_state parent_span_id
    ∷ tracer_state sampled
    ∷ tracer_state flags
    ∷ []

-- The loop of HeaderMatcher over the tracing keys
unfoldable pub match_among : List Key → Key → Option Key
unfolding to_lower key_eq
match_among [] key = none
match_among (k ∷ ks) key =
    let later = match_among ks key in if key_eq (to_lower key) k then some key else later

-- HeaderMatcher, where none is ("", false)
unfoldable pub header_matcher : Key → Option Key
unfolding match_among canonical_mime_header_key
header_matcher key = match_among ot_headers (canonical_mime_header_key key)
