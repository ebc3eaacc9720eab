-- ===== src/Context/Chunk.antt =====
-- internal/contextinput/chunk.go: the lines of a diff, which of them are kept, and how one is cut. The
-- texts are sequences of bytes.
pub mod Truncate
use commiter_cli.Base.{
  ℕ, zero, suc, ◌+◌, ◌-◌, ◌*◌, ◌/◌, Bool, true, false, not, ◌&&◌, ◌||◌, List, [], ◌∷◌, ◌++◌, Option,
  none, some, if◌then◌else◌, ◌==◌, eqb, leb, length, take, drop, map,
}
use commiter_cli.Base.Str.{Str, lit, str_eq, has_prefix, split, trim_suffix}
use commiter_cli.Base.Utf8.{valid_string}

pub data CompressionProfile : Type 0 where
  compression_none compression_light compression_medium compression_strong : CompressionProfile

pub record CompressionLimits : Type 0 where
  pub chunk_lines : ℕ
  pub excerpt_lines : ℕ
  pub excerpt_bytes : ℕ

-- `compressionLimitsFor`, over `compressionProfiles`
unfoldable pub compression_limits_for : CompressionProfile → Option CompressionLimits
compression_limits_for compression_none = none
compression_limits_for compression_light =
    some (record { chunk_lines = 48; excerpt_lines = 7; excerpt_bytes = 224 })
compression_limits_for compression_medium =
    some (record { chunk_lines = 48; excerpt_lines = 5; excerpt_bytes = 176 })
compression_limits_for compression_strong =
    some (record { chunk_lines = 48; excerpt_lines = 3; excerpt_bytes = 128 })

pub record SummaryLine : Type 0 where
  pub original_index : ℕ
  pub hunk : ℕ
  pub text : Str

-- `splitLines` (internal/contextinput/summarizer.go)
unfoldable pub split_lines : Str → List Str
split_lines source = split 10 (trim_suffix source (10 ∷ []))

starts_hunk : Str → Bool
starts_hunk text = has_prefix text (lit "@@")

-- The loop of `indexSummaryLines`, at an index and a hunk.
unfoldable pub index_from : ℕ → ℕ → List Str → List SummaryLine
unfolding starts_hunk
index_from index hunk [] = []
index_from index hunk (text ∷ texts) =
    let hunk' = if starts_hunk text then suc hunk else hunk in
    record { original_index = index + 1; hunk = hunk'; text = text }
    ∷ index_from (suc index) hunk' texts

-- `indexSummaryLines`
unfoldable pub index_summary_lines : Str → List SummaryLine
unfolding split_lines index_from
index_summary_lines source = index_from 0 0 (split_lines source)

-- `redundantFileHeader` (internal/contextinput/summarizer.go)
unfoldable pub redundant_file_header : Str → Bool
redundant_file_header line =
    has_prefix line (lit "diff --git ")
    || has_prefix line (lit "index ")
    || has_prefix line (lit "--- ")
    || has_prefix line (lit "+++ ")

-- The loop of `summarizeFileLines`: whether it is in the header.
unfoldable pub summarize_from : Bool → List SummaryLine → List SummaryLine
unfolding starts_hunk redundant_file_header
summarize_from in_header [] = []
summarize_from in_header (l ∷ ls) =
    let still = if starts_hunk (l.text) then false else in_header in
    let rest = summarize_from still ls in
    if still && redundant_file_header (l.text) then rest else l ∷ rest

-- `summarizeFileLines`
unfoldable pub summarize_file_lines : List SummaryLine → List SummaryLine
unfolding summarize_from
summarize_file_lines lines = summarize_from true lines

-- `summarizeHunkLines`
unfoldable pub summarize_hunk_lines : List SummaryLine → List SummaryLine
summarize_hunk_lines [] = []
summarize_hunk_lines (l ∷ ls) =
    let rest = summarize_hunk_lines ls in if has_prefix (l.text) (lit " ") then rest else l ∷ rest

-- `isChangedSummaryLine`
unfoldable pub is_changed_summary_line : Str → Bool
is_changed_summary_line [] = false
is_changed_summary_line (c ∷ s) = eqb c b'+' || eqb c b'-'

-- The loop of `utf8Prefix`, which drops the last byte until the text is UTF-8.
unfoldable pub shrink_end : ℕ → Str → Str
shrink_end zero value = []
shrink_end (suc n) value =
    let shorter = shrink_end n value in
    if valid_string (take (suc n) value) then take (suc n) value else shorter

-- `utf8Prefix`
unfoldable pub utf8_prefix : Str → ℕ → Str
unfolding shrink_end
utf8_prefix value limit = if leb (length value) limit then value else shrink_end limit value

-- The loop of `utf8Suffix`, which drops the first byte until the text is UTF-8.
unfoldable pub shrink_start : Str → Str
shrink_start [] = []
shrink_start (c ∷ s) =
    let shorter = shrink_start s in if valid_string (c ∷ s) then c ∷ s else shorter

-- `utf8Suffix`
unfoldable pub utf8_suffix : Str → ℕ → Str
unfolding shrink_start
utf8_suffix value limit =
    if leb (length value) limit then value else shrink_start (drop (length value - limit) value)

unfoldable pub head_bytes : ℕ → ℕ
head_bytes payload = (payload * 3 + 4) / 5

-- `truncateUTF8`: the limits of the program are not negative.
unfoldable pub truncate_utf8 : Str → ℕ → Str
unfolding utf8_prefix utf8_suffix head_bytes
truncate_utf8 value limit =
    if leb (length value) limit
    then value
    else if leb limit 3
    then take limit (lit "...")
    else utf8_prefix value (head_bytes (limit - 3))
      ++ lit "..."
      ++ utf8_suffix value ((limit - 3) - head_bytes (limit - 3))
