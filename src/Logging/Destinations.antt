-- ===== src/Logging/Destinations.antt =====
-- Where log lines go.
use disco.Base.{
  Str, Str_eq, bytes, ℤ, Bool, true, none, some, [], ◌∷◌, ◌≡◌, refl, arith, ltb_ℤ, Bool-cases,
  Option-cases, inl, inr, if◌then◌else◌, ◌≟◌, is_empty, map, sym, ◌∙◌,
}
use disco.Base.Options.{some_eq}
use disco.Dict.{Dict}
use disco.Logging.{
  LogConfig, Output, stdout, stderr, file, Line, setup, output_of, initial, log, log_line,
}

-- Where the configuration wants the lines: in the file if one is named, else on the standard output.
abbrev pub wanted : LogConfig → Output
wanted cfg = if is_empty cfg.file then stdout else file cfg.file

output_of-wanted :
    (opens : Str → Bool) (cfg : LogConfig) (o : Output)
    → output_of opens cfg.file ≡ some o
    → o ≡ wanted cfg
unfolding output_of
output_of-wanted opens cfg o h = elim (Bool-cases (is_empty cfg.file)) [
  | inl e ↦ rw e (some_eq (sym h ∙ rw e refl))
  | inr e ↦ elim (Bool-cases (opens cfg.file)) [
    | inl f ↦ rw e (some_eq (sym h ∙ rw (e, f) refl))
    | inr f ↦ absurd (ground arith)
  ]
]

after_setup :
    (opens : Str → Bool) (cfg : LogConfig)
    → (setup opens cfg initial).1 ≡ true
    → (setup opens cfg initial).0 ≡ record {
      current_level = cfg.level;
      json_log = if cfg.format ≟ bytes "json" then some (wanted cfg) else none;
    }
unfolding setup initial
after_setup opens cfg h = elim (Option-cases (output_of opens cfg.file)) [
  | inl e ↦ absurd (ground arith)
  | inr (o, e) ↦ rw (e, setup) (rw (output_of-wanted opens cfg o e) refl)
]

-- After a setup that succeeds, a line below the configured level is not written. Any other goes, in
-- the JSON format, to the configured file or else to the standard output; in any other format it goes
-- to the standard error, whatever file is configured.
pub log-destination :
    (encode : Dict Str Str → Str) (opens : Str → Bool) (cfg : LogConfig) (timestamp : Str)
    (level : ℤ) (msg : Str) (fields : Dict Str Str)
    → (setup opens cfg initial).1 ≡ true
    → map (λ (l : Line). l.0) (log encode (setup opens cfg initial).0 timestamp level msg fields)
      ≡ (if ltb_ℤ level cfg.level
          then []
          else (if cfg.format ≟ bytes "json" then wanted cfg else stderr) ∷ [])
unfolding log log_line
log-destination encode opens cfg timestamp level msg fields h =
    rw (after_setup opens cfg h) (elim (Bool-cases (ltb_ℤ level cfg.level)) [
      | inl low ↦ rw low refl
      | inr high ↦ elim (Bool-cases (cfg.format ≟ bytes "json")) [
        | inl json ↦ rw (high, json) refl
        | inr other ↦ rw (high, other) refl
      ]
    ])
