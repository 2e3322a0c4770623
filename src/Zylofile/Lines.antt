-- ===== src/Zylofile/Lines.antt =====
-- Lines that are blank or comments, and what holds along a whole file.
use zylo.Prelude.{
  ◌≡◌, refl, ◌∙◌, ap, sym, Bool, true, false, not, Option, List, [], ◌∷◌, err, arith, keep, All,
  length, ◌<◌, ◌≤◌, Bool-cases, inl, inr,
}
use native.Mathlib.Decide.{dec_lt}
use mathlib.Core.Path.{fun_ext}
use zylo.Prelude.Actions.{◌>>◌, bind_inv}
use zylo.Text.{Text, trim_space}
use zylo.Zylofile.{Parse, Fate, too_long, parse_line, parse_lines, is_skipped, max_line}

abbrev pub is_blank : Text × Fate → Bool
is_blank (raw, w) = is_skipped (trim_space raw)

abbrev pub Fits : Text × Fate → Type 0
Fits (raw, w) = length raw < max_line

module _ (decode : Text → Option (List Text)) where
  parse_lines_skip :
      (raw : Text) (w : Fate) (ls : List (Text × Fate)) (s : Parse)
      → length raw < max_line
      → is_skipped (trim_space raw) ≡ true
      → parse_lines decode ((raw, w) ∷ ls) s ≡ parse_lines decode ls s
  unfolding parse_lines
  parse_lines_skip raw w ls s fits skip = ground arith

  parse_lines_line :
      (raw : Text) (w : Fate) (ls : List (Text × Fate)) (s : Parse)
      → length raw < max_line
      → is_skipped (trim_space raw) ≡ false
      → parse_lines decode ((raw, w) ∷ ls) s
        ≡ (parse_line decode w (trim_space raw) >> parse_lines decode ls) s
  unfolding parse_lines
  parse_lines_line raw w ls s fits keep_it = ground arith

  parse_lines_long :
      (raw : Text) (w : Fate) (ls : List (Text × Fate)) (s : Parse)
      → max_line ≤ length raw
      → parse_lines decode ((raw, w) ∷ ls) s ≡ (err too_long, s)
  unfolding parse_lines
  parse_lines_long raw w ls s long = ground arith

  -- Blank lines and comments can be left out of a ZyloFile whose lines fit the scanner's buffer:
  -- the result, the configuration and the registry are the same.
  parse_lines-keep :
      (ls : List (Text × Fate)) (s : Parse)
      → All Fits ls
      → parse_lines decode (keep (λ l. not (is_blank l)) ls) s ≡ parse_lines decode ls s
  parse_lines-keep [] s fits = refl
  parse_lines-keep ((raw, w) ∷ ls) s fits =
      let rest = fun_ext (λ t. parse_lines-keep ls t fits.1) in
      elim (Bool-cases (is_skipped (trim_space raw))) [
        | inl skip ↦
            rw skip (parse_lines-keep ls s fits.1 ∙ sym (parse_lines_skip raw w ls s fits.0 skip))
        | inr line ↦ rw line (
            parse_lines_line raw w (keep (λ l. not (is_blank l)) ls) s fits.0 line
            ∙ ap (λ k. (parse_line decode w (trim_space raw) >> k) s) rest
            ∙ sym (parse_lines_line raw w ls s fits.0 line))
      ]

  -- What every good line keeps, a file of such lines keeps, whether it is parsed to its end or not.
  pub parse_lines_within {ℓ μ} :
      (Good : Text → Type μ) (P : Parse → Type ℓ)
      → ((w : Fate) (line : Text) (s : Parse) → Good line → P s → P (parse_line decode w line s).1)
      → (ls : List (Text × Fate)) (s : Parse) → All (λ l. Good (trim_space l.0)) ls
      → P s
      → P (parse_lines decode ls s).1
  parse_lines_within Good P step [] s g h = unfold parse_lines in h
  parse_lines_within Good P step ((raw, w) ∷ ls) s g h =
      let line = trim_space raw in
      let more = step w line s g.0 h in
      elim (dec_lt (length raw) max_line) [
        | no long ↦ rw (parse_lines_long raw w ls s (omega arith)) h
        | yes fits ↦ elim (Bool-cases (is_skipped line)) [
          | inl skip ↦
              rw (parse_lines_skip raw w ls s fits skip) (parse_lines_within Good P step ls s g.1 h)
          | inr full ↦ rw (parse_lines_line raw w ls s fits full) (
              bind_inv P (parse_line decode w line) (λ _. parse_lines decode ls) s more
                (λ _ _. parse_lines_within Good P step ls (parse_line decode w line s).1 g.1 more))
        ]
      ]

  any_line : (ls : List (Text × Fate)) → All (λ l. Unit {0}) ls
  any_line [] = tt
  any_line (l ∷ ls) = (tt, any_line ls)

  -- What every line keeps, a whole file keeps.
  pub parse_lines_inv {ℓ} :
      (P : Parse → Type ℓ)
      → ((w : Fate) (line : Text) (s : Parse) → P s → P (parse_line decode w line s).1)
      → (ls : List (Text × Fate)) (s : Parse) → P s
      → P (parse_lines decode ls s).1
  parse_lines_inv P step ls s h =
      parse_lines_within (λ _. Unit {0}) P (λ w line t _. step w line t) ls s (any_line ls) h
