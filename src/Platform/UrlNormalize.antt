-- ===== src/Platform/UrlNormalize.antt =====
-- platform/url_normalize.py: the scope candidate of a URL. What urllib, ipaddress and the codecs
-- compute is given by functions, whose `none` is the ValueError that the code catches.
pub mod Paths
pub mod Confined
mod Examples
use research_os.Common.{
  ℕ, Bool, true, false, not, ◌&&◌, ◌||◌, Option, none, some, List, [], ◌∷◌, any, all, if◌then◌else◌,
  ◌++◌, reverse, ltb, leb, ◌==◌, is_some,
}
use research_os.Common.Text.{
  Text, codes, text_eq, strip, is_space, is_blank, lower, starts_with, ends_with, has_char,
  is_nonempty, drop,
}
use research_os.Core.ScopeCompiler.{ScopeCandidate}

-- `urllib.parse.SplitResult`: reading the port may raise.
pub record SplitResult : Type 0 where
  pub scheme : Text
  pub username : Option Text
  pub password : Option Text
  pub hostname : Option Text
  pub port : Option (Option ℕ)
  pub path : Text

-- `urlsplit`, `urljoin`, `str(IPv6Address(s))`, `str(IPv4Address(s))` and
-- `s.encode("idna").decode("ascii")`
pub record Libraries : Type 0 where
  pub urlsplit : Text → Option SplitResult
  pub urljoin : Text → Text → Option Text
  pub ipv6_address : Text → Option Text
  pub ipv4_address : Text → Option Text
  pub encode_idna : Text → Option Text

-- `t in s`
unfoldable pub contains : Text → Text → Bool
unfolding starts_with
contains t [] = starts_with [] t
contains t (c ∷ s) = starts_with (c ∷ s) t || contains t s

abbrev pub is_hex : ℕ → Bool
is_hex c = (leb 48 c && leb c 57) || (leb 65 c && leb c 70) || (leb 97 c && leb c 102)

abbrev starts_hex : Text → Bool
starts_hex (a ∷ b ∷ s) = is_hex a && is_hex b
starts_hex s = false

-- `_BAD_PERCENT.search(s)`
unfoldable pub has_bad_percent : Text → Bool
has_bad_percent [] = false
has_bad_percent (c ∷ s) = (c == 37 && not (starts_hex s)) || has_bad_percent s

-- `_ENCODED_SLASH.search(s) or _ENCODED_DOT.search(s)`
unfoldable pub has_encoded_separator : Text → Bool
unfolding contains
has_encoded_separator s =
    (contains (codes "%2f") s || contains (codes "%2F") s)
    || (contains (codes "%2e") s || contains (codes "%2E") s)

abbrev pub first_to : ℕ → List Text → List Text
first_to c [] = (c ∷ []) ∷ []
first_to c (word ∷ words) = (c ∷ word) ∷ words

-- `s.split("/")`
unfoldable pub split_slash : Text → List Text
split_slash [] = [] ∷ []
split_slash (c ∷ s) = let rest = split_slash s in if c == 47 then [] ∷ rest else first_to c rest

abbrev tail : List Text → List Text
tail [] = []
tail (word ∷ words) = words

-- The segments of a path
unfoldable pub segments_of : Text → List Text
unfolding split_slash
segments_of path = tail (split_slash path)

abbrev pub is_dots : Text → Bool
is_dots segment = text_eq segment (codes ".") || text_eq segment (codes "..")

abbrev pub is_ascii : Text → Bool
is_ascii segment = all (λ c. ltb c 128) segment

-- `segment in {".", ".."}`, or `segment.encode("ascii")` raises, for one of them
unfoldable pub is_rejected : Text → Bool
is_rejected segment = is_dots segment || not (is_ascii segment)

abbrev first_two : Text → Text
first_two (a ∷ b ∷ s) = a ∷ b ∷ []
first_two s = []

-- `"".join(_PERCENT.findall(s)).replace("%", "")`: two matches never overlap.
unfoldable pub percent_digits : Text → Text
percent_digits [] = []
percent_digits (c ∷ s) =
    let rest = percent_digits s in if c == 37 && starts_hex s then first_two s ++ rest else rest

-- Whether `bytes.fromhex` accepts the text
unfoldable pub is_hex_bytes : Text → Bool
is_hex_bytes [] = true
is_hex_bytes (a ∷ []) = false
is_hex_bytes (a ∷ b ∷ s) = is_hex a && is_hex b && is_hex_bytes s

unfoldable pub is_unambiguous_segment : Text → Bool
unfolding has_bad_percent percent_digits is_hex_bytes has_char
is_unambiguous_segment segment =
    if not (has_char 37 segment)
    then true
    else if has_bad_percent segment
    then false
    else is_hex_bytes (percent_digits segment)

-- The tests of `_scope_match_path` before the path is split
unfoldable pub is_ambiguous_text : Text → Bool
unfolding has_char has_bad_percent has_encoded_separator starts_with contains
is_ambiguous_text raw_path =
    has_char 92 raw_path
    || has_bad_percent raw_path
    || has_encoded_separator raw_path
    || not (starts_with raw_path (codes "/"))
    || contains (codes "//") raw_path

-- `_scope_match_path`: the path, or `none` where it is ambiguous. A segment that is decoded is ASCII, and so
-- it is what it was.
unfoldable pub scope_match_path_of : Text → Option Text
unfolding is_ambiguous_text segments_of is_rejected is_unambiguous_segment
scope_match_path_of raw_path =
    if is_ambiguous_text raw_path
    then none
    else if any is_rejected (segments_of raw_path)
    then none
    else if any (λ s. is_nonempty s && not (is_unambiguous_segment s)) (segments_of raw_path)
    then none
    else some raw_path

-- `_error`
abbrev pub error_candidate : Text → Text → ScopeCandidate
error_candidate raw code = record {
  raw_target = raw;
  normalized_scheme = none;
  normalized_host = none;
  normalized_port = none;
  raw_path = [];
  scope_match_path = none;
  normalization_error = some code;
}

-- `DEFAULT_PORTS`
unfoldable pub default_port : Text → Option ℕ
default_port scheme =
    if text_eq scheme (codes "http")
    then some 80
    else if text_eq scheme (codes "https")
    then some 443
    else none

-- The end of `normalize_url`, from what `_scope_match_path` returned
abbrev pub with_path : Text → Text → Text → ℕ → Text → Option Text → ScopeCandidate
with_path raw scheme host port raw_path none = record {
  raw_target = raw;
  normalized_scheme = some scheme;
  normalized_host = some host;
  normalized_port = some port;
  raw_path = raw_path;
  scope_match_path = none;
  normalization_error = some (codes "PATH_AMBIGUOUS");
}
with_path raw scheme host port raw_path (some path) = record {
  raw_target = raw;
  normalized_scheme = some scheme;
  normalized_host = some host;
  normalized_port = some port;
  raw_path = raw_path;
  scope_match_path = some path;
  normalization_error = none;
}

abbrev or_slash : Text → Text
or_slash [] = codes "/"
or_slash (c ∷ s) = c ∷ s

-- The port of the URL, or the scheme's, where reading it did not raise
abbrev port_or : Option (Option ℕ) → ℕ → Option ℕ
port_or none default = none
port_or (some none) default = some default
port_or (some (some port)) default = some port

abbrev or_empty : Option Text → Text
or_empty none = []
or_empty (some s) = s

-- `if stripped.startswith("[") and stripped.endswith("]"): stripped = stripped[1:-1]`
unfoldable pub without_brackets : Text → Text
unfolding starts_with ends_with
without_brackets s =
    if starts_with s (codes "[") && ends_with s (codes "]")
    then reverse (drop 1 (reverse (drop 1 s)))
    else s

unfoldable pub split_dot : Text → List Text
split_dot [] = [] ∷ []
split_dot (c ∷ s) = let rest = split_dot s in if c == 46 then [] ∷ rest else first_to c rest

abbrev or_error : Option Text → Text → Option Text × Text
or_error none code = (none, code)
or_error (some host) code = (some host, code)

module _ (lib : Libraries) where
  -- The host behind the addresses: a label `xn--`, or the encoding
  unfoldable pub idna_host : Text → Option Text × Text
  unfolding split_dot lower
  idna_host stripped =
      if any (λ label. text_eq (lower label) (codes "xn--")) (split_dot stripped)
      then (none, codes "IDNA")
      else or_error (map_lower (lib.encode_idna stripped)) (codes "IDNA")
    where
      map_lower : Option Text → Option Text
      map_lower none = none
      map_lower (some host) = some (lower host)

  -- `_canonical_host`: the host, or `none`, with the error that this stands for
  unfoldable pub canonical_host : Text → Option Text × Text
  unfolding strip is_space without_brackets has_char idna_host
  canonical_host host =
      let stripped = without_brackets (strip is_space host) in
      if has_char 58 stripped
      then or_error (lib.ipv6_address stripped) (codes "IPV6")
      else elim (lib.ipv4_address stripped) [
        | some address ↦ (some address, [])
        | none ↦ idna_host stripped
      ]

  -- `normalize_url` from the port on
  unfoldable pub normalize_path : Text → Text → Text → SplitResult → Option ℕ → ScopeCandidate
  unfolding scope_match_path_of
  normalize_path raw scheme host parts none = error_candidate raw (codes "PARSE")
  normalize_path raw scheme host parts (some port) =
      with_path raw scheme host port (or_slash parts.path)
        (scope_match_path_of (or_slash parts.path))

  -- From the canonical host on
  unfoldable pub normalize_host :
      Text → Text → ℕ → SplitResult → Option Text × Text → ScopeCandidate
  unfolding normalize_path
  normalize_host raw scheme default parts (none, error) = error_candidate raw error
  normalize_host raw scheme default parts (some host, error) =
      normalize_path raw scheme host parts (port_or parts.port default)

  -- From the scheme on
  unfoldable pub normalize_scheme : Text → Text → SplitResult → Option ℕ → ScopeCandidate
  unfolding canonical_host normalize_host has_char
  normalize_scheme raw scheme parts none = error_candidate raw (codes "PARSE")
  normalize_scheme raw scheme parts (some default) =
      let host = or_empty parts.hostname in
      if not (is_nonempty host)
      then error_candidate raw (codes "EMPTY_HOST")
      else if has_char 42 host
      then error_candidate raw (codes "WILDCARD")
      else normalize_host raw scheme default parts (canonical_host host)

  unfoldable pub normalize_parts : Text → Option SplitResult → ScopeCandidate
  unfolding default_port lower normalize_scheme
  normalize_parts raw none = error_candidate raw (codes "PARSE")
  normalize_parts raw (some parts) =
      if is_some parts.username || is_some parts.password
      then error_candidate raw (codes "USERINFO")
      else normalize_scheme raw (lower parts.scheme) parts (default_port (lower parts.scheme))

  unfoldable pub normalize_url : Text → ScopeCandidate
  unfolding is_blank normalize_parts
  normalize_url raw =
      if is_blank raw
      then error_candidate raw (codes "PARSE")
      else normalize_parts raw (lib.urlsplit raw)

  -- `UNSUPPORTED_REDIRECT_SCHEMES`, or no scheme
  abbrev is_unsupported_redirect : Text → Bool
  is_unsupported_redirect scheme = any (text_eq scheme) (
      codes "javascript"
      ∷ codes "data"
      ∷ codes "file"
      ∷ codes "blob"
      ∷ codes "about"
      ∷ codes ""
      ∷ [])

  unfoldable pub resolved_location : Text → Option SplitResult → ScopeCandidate
  unfolding lower normalize_url
  resolved_location resolved none = error_candidate resolved (codes "PARSE")
  resolved_location resolved (some parts) =
      if is_unsupported_redirect (lower parts.scheme)
      then error_candidate resolved (codes "PARSE")
      else normalize_url resolved

  unfoldable pub joined_location : Text → Option Text → ScopeCandidate
  unfolding resolved_location
  joined_location location none = error_candidate location (codes "PARSE")
  joined_location location (some resolved) = resolved_location resolved (lib.urlsplit resolved)

  unfoldable pub resolve_redirect_location : Text → Text → ScopeCandidate
  unfolding is_blank strip is_space joined_location
  resolve_redirect_location response_url location =
      if is_blank response_url
      then error_candidate response_url (codes "PARSE")
      else joined_location location
          (lib.urljoin (strip is_space response_url) (strip is_space location))
