-- ===== src/IdleEval/Parse.antt =====
-- internal/provisioner/idle_eval.go, ParseDryRunEnv: the switch that arms the evaluator.
use selfservice_api.Base.{
  ℕ, ◌+◌, Bool, true, false, ◌&&◌, List, [], ◌∷◌, map, leb, bytes_eq, ◌==◌, if◌then◌else◌,
}

pub data DryRunParseOutcome : Type 0 where
  on_default off_explicit on_unrecognised : DryRunParseOutcome

pub record DryRunEnvResult : Type 0 where
  pub dry_run : Bool
  pub outcome : DryRunParseOutcome
  pub raw : List ℕ

abbrev lower : ℕ → ℕ
lower c = if leb b'A' c && leb c b'Z' then c + 32 else c

-- strings.EqualFold with a word in small letters. The letters of `false` have one simple folding
-- each that is not ASCII's own: U+017F folds to `s`.
abbrev fold : ℕ → ℕ
fold c = if c == 383 then b's' else lower c

abbrev false_word : List ℕ
false_word = b'f' ∷ b'a' ∷ b'l' ∷ b's' ∷ b'e' ∷ []

-- `v` is the value's code points.
unfoldable pub parse_dry_run_env : List ℕ → DryRunEnvResult
parse_dry_run_env [] = record { dry_run = true; outcome = on_default; raw = [] }
parse_dry_run_env (c ∷ cs) =
    if bytes_eq (map fold (c ∷ cs)) false_word
    then record { dry_run = false; outcome = off_explicit; raw = c ∷ cs }
    else record { dry_run = true; outcome = on_unrecognised; raw = c ∷ cs }
