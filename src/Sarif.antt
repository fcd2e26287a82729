-- ===== src/Sarif.antt =====
-- The normalization of SARIF, src/evitriage/sarif/normalizer.py and raw_models.py: texts and paths.
--
-- A text that the code walks is the list of its code points, as in ContextBuilder.
pub mod Uri
pub mod PathText
pub mod Safe
pub mod Joined
pub mod Bases
pub mod Resolved
pub mod Raw
pub mod Located
pub mod Rules
pub mod Normalize
pub mod Normalized
pub mod Provenance
pub mod Accepted
mod Tests
use evi_triage_ql.Prelude.{
  ℕ, String, Bool, true, false, Option, none, some, List, [], ◌∷◌, ◌++◌, Dict, ltb, ◌||◌, ◌==◌,
  nat_eq,
}
use evi_triage_ql.ContextBuilder.{Text}

-- `InvalidSarifError` and `UnsafeSarifUriError`, by their messages.
pub data SarifError : Type 0 where
  invalid_uri scheme_not_allowed query_or_fragment remote_authority not_utf8 : SarifError
  control_characters parent_traversal unsafe_colon outside_base : SarifError
  missing_uri windows_without_base is_source_root traverses_link escapes_snapshot : SarifError
  no_physical_location no_artifact_location no_start_line no_column_kind : SarifError
  index_out_of_range no_uri_or_index invalid_region digest_mismatch : SarifError
  cannot_inspect not_a_regular_file cannot_hash : SarifError
  duplicate_rule_id rule_index_out_of_range different_rules no_rule : SarifError
  duplicate_related_id no_thread_flows no_flow_locations : SarifError
  empty_fingerprint fingerprint_control_characters not_json : SarifError
  too_many_results no_locations too_many_steps empty_message : SarifError
  base_too_deep cyclic_base unknown_base base_has_no_uri : SarifError

pub data Flavor : Type 0 where
  posix windows : Flavor

-- `_UriPath`
pub record UriPath : Type 0 where
  pub flavor : Flavor
  pub absolute : Bool
  pub parts : List Text
  pub drive : Option ℕ

-- `_BasePath`
pub record BasePath : Type 0 where
  pub path : UriPath
  pub absolute_anchor : Option UriPath

-- `ArtifactLocation`
pub record ArtifactLocation : Type 0 where
  pub uri : Option Text
  pub uri_base_id : Option String
  pub index : Option ℕ

-- What `urlsplit` gives.
pub record SplitUri : Type 0 where
  pub scheme : Text
  pub netloc : Text
  pub path : Text
  pub query : Text
  pub fragment : Text

-- What the code takes from the regular expressions and from `urllib.parse`: an error is `none`.
pub record UriText : Type 0 where
  -- `_BAD_PERCENT_ESCAPE.search`
  pub has_bad_escape : Text → Bool
  pub urlsplit : Text → Option SplitUri
  -- `unquote(text, encoding="utf-8", errors="strict")`
  pub unquote : Text → Option Text

abbrev pub slash : ℕ
slash = 47

abbrev pub backslash : ℕ
backslash = 92

abbrev pub colon : ℕ
colon = 58

abbrev pub dot : ℕ
dot = 46

-- `ord(character) < 32 or ord(character) == 127`
abbrev pub is_control : ℕ → Bool
is_control c = ltb c 32 || (c == 127)
