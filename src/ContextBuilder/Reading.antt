-- ===== src/ContextBuilder/Reading.antt =====
-- `ContextBuilder._read_source` of src/evitriage/context/builder.py, with the cache, and the lines of
-- a text.
use evi_triage_ql.Prelude.{
  ℕ, suc, String, Bool, not, ◌&&◌, ◌||◌, Option, none, some, List, [], ◌∷◌, ◌++◌, ltb, ◌==◌, nat_eq,
  string_eq, if◌then◌else◌, is_empty, length, take, elem, Dict, lookup, insert,
}
use evi_triage_ql.Evidence.{Sha256}
use evi_triage_ql.Context.{
  source_file_missing, source_not_regular, source_too_large, binary_source, unsupported_encoding,
}
use evi_triage_ql.ContextBuilder.{Text, starts_with, SourceDocument, ReadFailure}
use evi_triage_ql.ContextBuilder.Detail as Detail

abbrev carriage_return : ℕ
carriage_return = 13

-- The characters at which `str.splitlines` ends a line.
abbrev line_boundaries : List ℕ
line_boundaries = 10 ∷ 11 ∷ 12 ∷ 13 ∷ 0x1c ∷ 0x1d ∷ 0x1e ∷ 0x85 ∷ 0x2028 ∷ 0x2029 ∷ []

-- A line ends with the character, where `rest` follows: `\r\n` is one end.
unfoldable pub ends_line : ℕ → Text → Bool
unfolding elem starts_with
ends_line c rest =
    elem c line_boundaries && not ((c == carriage_return) && starts_with (10 ∷ []) rest)

-- `text.splitlines(keepends=True)`, with the line that is being read
unfoldable pub split_lines : Text → Text → List Text
unfolding ends_line
split_lines line [] = if is_empty line then [] else line ∷ []
split_lines line (c ∷ rest) =
    let ended = (line ++ c ∷ []) ∷ split_lines [] rest in
    let goes_on = split_lines (line ++ c ∷ []) rest in if ends_line c rest then ended else goes_on

-- A line with no line end, as `text.splitlines()` has it.
unfoldable pub without_end : Text → Text
unfolding elem
without_end [] = []
without_end (c ∷ []) = if elem c line_boundaries then [] else c ∷ []
without_end (c ∷ d ∷ []) =
    let rest = without_end (d ∷ []) in if (c == carriage_return) && (d == 10) then [] else c ∷ rest
without_end (c ∷ d ∷ e ∷ rest) = c ∷ without_end (d ∷ e ∷ rest)

-- `text.rstrip(...)`, of the characters of a test
unfoldable pub right_strip : (ℕ → Bool) → Text → Text
right_strip p [] = []
right_strip p (c ∷ text) =
    let rest = right_strip p text in if is_empty rest && p c then [] else c ∷ rest

unfoldable pub left_strip : (ℕ → Bool) → Text → Text
left_strip p [] = []
left_strip p (c ∷ text) = let rest = left_strip p text in if p c then rest else c ∷ text

-- A line's content, `line.rstrip("\r\n")`.
unfoldable pub line_content : Text → Text
unfolding right_strip
line_content line = right_strip (λ c. (c == 13) || (c == 10)) line

-- `tuple(text.splitlines(keepends=True))`, or one empty line
unfoldable pub lines_of : Text → List Text
unfolding split_lines
lines_of text = elim (split_lines [] text) [ [] ↦ [] ∷ [] | line ∷ lines ↦ line ∷ lines ]

-- What the operating system says of a path: `refused` has the text of the error; a file that was
-- opened has its metadata and the bytes that reading it gives.
pub record OpenFile : Type 0 where
  pub is_regular : Bool
  pub size : ℕ
  pub bytes : List ℕ

pub data Opened : Type 0 where
  crosses_link missing : Opened
  refused : String → Opened
  opened : OpenFile → Opened

pub data Source : Type 0 where
  document : SourceDocument → Source
  failure : ReadFailure → Source

abbrev failed : ReadFailure → Source
failed f = failure f

-- The operating system with a state of its own, and what decoding, SHA-256 and `str` compute.
pub record Files (S : Type 0) : Type 0 where
  pub open_path : String → S → Opened × S
  -- `bytes.decode("utf-8-sig", errors="strict")`
  pub decode : List ℕ → Option Text
  pub digest : List ℕ → Sha256
  pub number : ℕ → String

-- `self._cache` and the state of the operating system.
pub record Reader (S : Type 0) : Type 0 where
  pub cache : Dict String Source
  pub system : S

module _ {S : Type 0} (files : Files S) (maximum_source_bytes : ℕ) where
  -- The text of a file that was read whole.
  unfoldable pub decoded : String → List ℕ → Source
  unfolding lines_of
  decoded path raw = elim (files.decode raw) [
    | none ↦
        failed
          (record { code = unsupported_encoding; detail = "Gate C accepts UTF-8 source text only" })
    | some text ↦ document (record {
      path = path;
      text = text;
      lines = lines_of text;
      artifact_sha256 = files.digest raw;
    })
  ]

  -- An open file: it is read up to one byte more than the limit.
  unfoldable pub read_open : String → OpenFile → Source
  unfolding decoded elem
  read_open path file =
      let raw = take (suc maximum_source_bytes) file.bytes in
      if not file.is_regular
      then failed
          (record { code = source_not_regular; detail = "referenced source is not a regular file" })
      else if ltb maximum_source_bytes file.size
      then failed (record {
        code = source_too_large;
        detail = Detail.source_too_large files.number file.size maximum_source_bytes;
      })
      else if ltb maximum_source_bytes (length raw)
      then failed (record { code = source_too_large; detail = "source grew beyond its size limit" })
      else if elem 0 raw
      then failed (record { code = binary_source; detail = "NUL byte marks source as binary" })
      else decoded path raw

  unfoldable pub observe : String → Opened → Source
  unfolding read_open
  observe path crosses_link =
      failed (record { code = source_not_regular; detail = "source path crosses a symbolic link" })
  observe path missing =
      failed (record { code = source_file_missing; detail = "referenced snapshot file is absent" })
  observe path (refused error) = failed (record {
    code = source_not_regular;
    detail = Detail.concat ("cannot safely open source file: " ∷ error ∷ []);
  })
  observe path (opened file) = read_open path file

  -- `_read_source`
  unfoldable pub read_source : String → Reader S → Source × Reader S
  unfolding lookup insert observe
  read_source path reader = elim (lookup path reader.cache) [
    | some source ↦ (source, reader)
    | none ↦
        let (answer, system) = files.open_path path reader.system in
        let source = observe path answer in
        (source, record { cache = insert path source reader.cache; system = system })
  ]
