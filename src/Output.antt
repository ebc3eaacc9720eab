-- ===== src/Output.antt =====
-- internal/output/output.go: text shown on a terminal. strconv.QuoteToGraphic is a parameter.
use commiter_cli.Base.{[], ◌∷◌}
use commiter_cli.Base.Str.{Str, trim_prefix, trim_suffix}

-- `Escape`: the quoted text without its two quotes.
unfoldable pub escape : (Str → Str) → Str → Str
unfolding trim_prefix trim_suffix
escape quote value = trim_suffix (trim_prefix (quote value) (0x22 ∷ [])) (0x22 ∷ [])
