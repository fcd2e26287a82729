-- ===== src/Sarif/Uri.antt =====
-- `_LocationResolver._parse_uri`, `_join` and `_relative_parts` of src/evitriage/sarif/normalizer.py.
use evi_triage_ql.Prelude.{
  ℕ, ◌-◌, Bool, true, false, not, ◌&&◌, ◌||◌, Option, none, some, List, [], ◌∷◌, ◌++◌, map, any,
  leb, ◌==◌, nat_eq, if◌then◌else◌, is_empty, Result, ok, err, raise_if, ◌>>◌, ◌>>=◌,
}
use evi_triage_ql.ContextBuilder.{Text, codes, text_beq, starts_with}
use evi_triage_ql.Sarif.{
  SarifError, invalid_uri, scheme_not_allowed, query_or_fragment, remote_authority, not_utf8,
  control_characters, parent_traversal, unsafe_colon, outside_base, Flavor, posix, windows, UriPath,
  SplitUri, UriText, slash, backslash, colon, dot, is_control,
}

-- `text.replace("\\", "/")`
abbrev pub slashed : ℕ → ℕ
slashed c = if c == backslash then slash else c

unfoldable pub with_slashes : Text → Text
with_slashes text = map slashed text

abbrev pub is_letter : ℕ → Bool
is_letter c = (leb 65 c && leb c 90) || (leb 97 c && leb c 122)

-- `character.upper()`, of a letter
abbrev pub upper : ℕ → ℕ
upper c = if leb 97 c then c - 32 else c

-- `_WINDOWS_DRIVE.match`, after the optional slash: the letter, and what follows the match.
unfoldable pub drive_at : Text → Option (ℕ × Text)
drive_at [] = none
drive_at (l ∷ []) = none
drive_at (l ∷ c ∷ []) = if is_letter l && (c == colon) then some (l, []) else none
drive_at (l ∷ c ∷ d ∷ rest) =
    if is_letter l && (c == colon)
    then (if d == slash
        then some (l, rest)
        else if (d == 10) && is_empty rest
        then some (l, d ∷ rest)
        else none)
    else none

unfoldable pub windows_drive : Text → Option (ℕ × Text)
unfolding drive_at
windows_drive [] = none
windows_drive (c ∷ text) = if c == slash then drive_at text else drive_at (c ∷ text)

-- `text.lstrip("/")`
unfoldable pub strip_slashes : Text → Text
strip_slashes [] = []
strip_slashes (c ∷ text) = let rest = strip_slashes text in if c == slash then rest else c ∷ text

-- `text.split("/")`, with the part that is being read
unfoldable pub split_path : Text → Text → List Text
split_path part [] = part ∷ []
split_path part (c ∷ text) =
    let ended = part ∷ split_path [] text in
    let goes_on = split_path (part ++ c ∷ []) text in if c == slash then ended else goes_on

-- The loop over the parts.
unfoldable pub safe_parts : List Text → Result SarifError (List Text)
unfolding any text_beq
safe_parts [] = ok []
safe_parts (part ∷ rest) =
    let later = safe_parts rest in
    if is_empty part || text_beq part (dot ∷ [])
    then later
    else if text_beq part (dot ∷ dot ∷ [])
    then err parent_traversal
    else if any (λ c. c == colon) part
    then err unsafe_colon
    else later >>= λ parts. ok (part ∷ parts)

-- A decoded path, with the drive that it starts with if there is one.
unfoldable pub path_of : Text → Option (ℕ × Text) → Result SarifError UriPath
unfolding split_path safe_parts starts_with strip_slashes
path_of decoded (some (letter, rest)) = do
  parts ← safe_parts (split_path [] rest)
  ok (record {
    flavor = windows;
    absolute =
        starts_with (letter ∷ colon ∷ slash ∷ []) decoded
        || starts_with (slash ∷ letter ∷ colon ∷ slash ∷ []) decoded;
    parts = parts;
    drive = some (upper letter);
  })
path_of decoded none = do
  parts ← safe_parts (split_path [] (strip_slashes decoded))
  ok (record {
    flavor = posix;
    absolute = starts_with (slash ∷ []) decoded;
    parts = parts;
    drive = none;
  })

module _ (texts : UriText) where
  -- The checks of what `urlsplit` gave, and the path.
  unfoldable pub split_checked : SplitUri → Result SarifError Text
  unfolding text_beq
  split_checked s = do
    raise_if (not (is_empty s.scheme) && not (text_beq s.scheme (codes "file"))) scheme_not_allowed
    raise_if (not (is_empty s.query) || not (is_empty s.fragment)) query_or_fragment
    raise_if
        ((is_empty s.scheme && not (is_empty s.netloc))
          || (text_beq s.scheme (codes "file")
              && (not (is_empty s.netloc) && not (text_beq s.netloc (codes "localhost")))))
        remote_authority
    ok s.path

  -- The path of a URI that is no path of Windows.
  unfoldable pub split_path_of : Option SplitUri → Result SarifError Text
  unfolding split_checked
  split_path_of none = err invalid_uri
  split_path_of (some s) = split_checked s

  -- `raw_path`
  unfoldable pub raw_path : Text → Result SarifError Text
  unfolding windows_drive split_path_of
  raw_path normalized = elim (windows_drive normalized) [
    | some _ ↦ ok normalized
    | none ↦ split_path_of (texts.urlsplit normalized)
  ]

  -- From the raw path on.
  unfoldable pub decoded_path : Option Text → Result SarifError UriPath
  unfolding with_slashes any path_of windows_drive
  decoded_path none = err not_utf8
  decoded_path (some unquoted) = do
    let decoded = with_slashes unquoted
    raise_if (any is_control decoded) control_characters
    path_of decoded (windows_drive decoded)

  -- `_parse_uri`
  unfoldable pub parse_uri : Text → Result SarifError UriPath
  unfolding with_slashes raw_path decoded_path
  parse_uri value = do
    raise_if (is_empty value || texts.has_bad_escape value) invalid_uri
    raw ← raw_path (with_slashes value)
    decoded_path (texts.unquote raw)

-- `_join`
unfoldable pub join : UriPath → UriPath → UriPath
join base child = elim child.absolute [
  | true ↦ child
  | false ↦ record base { parts = base.parts ++ child.parts }
]

abbrev pub same_flavor : Flavor → Flavor → Bool
same_flavor posix posix = true
same_flavor windows windows = true
same_flavor _ _ = false

abbrev pub same_drive : Option ℕ → Option ℕ → Bool
same_drive none none = true
same_drive (some a) (some b) = a == b
same_drive _ _ = false

-- `parts[len(prefix):]`, if the parts start with the prefix
unfoldable pub after_prefix : List Text → List Text → Option (List Text)
unfolding text_beq
after_prefix [] parts = some parts
after_prefix (p ∷ prefix) [] = none
after_prefix (p ∷ prefix) (q ∷ parts) =
    let rest = after_prefix prefix parts in if text_beq q p then rest else none

-- `_relative_parts`
unfoldable pub relative_parts : UriPath → UriPath → Result SarifError (List Text)
unfolding after_prefix
relative_parts path anchor =
    if not path.absolute
      || (not anchor.absolute
          || (not (same_flavor path.flavor anchor.flavor)
              || not (same_drive path.drive anchor.drive)))
    then err outside_base
    else elim (after_prefix anchor.parts path.parts) [
      | none ↦ err outside_base
      | some rest ↦ ok rest
    ]
