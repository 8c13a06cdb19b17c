-- ===== src/Impact/Corpus.antt =====
-- The corpus of a valid artifact: the days of its fits, and the evidence for them.
use perpetuals_carry_strateg.Base.{
  ℕ, String, Bool, true, false, not, ◌&&◌, ◌||◌, List, [], ◌∷◌, ◌++◌, ◌≡◌, ◌⊎◌, refl, sym, ap, ◌∙◌,
  inl, inr, ltb, ◌==◌, ==→eq, and_true, Bool-cases,
}
use mathlib.Core.Path.{subst}
use perpetuals_carry_strateg.Base.Lists.{Among, all}
use perpetuals_carry_strateg.Base.Text.{str_eq, is_blank, is_digest}
use perpetuals_carry_strateg.Base.Result.{
  ok, Error, >>-eq-ok, >>=-eq-ok, raise_if-eq-ok, ok_injective,
}
use perpetuals_carry_strateg.Number.{Number}
use perpetuals_carry_strateg.Carry.Types.{is_synthetic}
use perpetuals_carry_strateg.Impact.{
  Fit, Evidence, Provenance, Artifact, identity_of, has_day, inside,
}
use perpetuals_carry_strateg.Impact.Fits.{check_days}
use perpetuals_carry_strateg.Impact.Validate.{
  Tally, no_fits, tallied, tally_from, with_day, with_days, days_eq, input_days, check_provenance,
  row_count_scope_text, validate,
}
use perpetuals_carry_strateg.Impact.Chronology.{
  unless_negated, tally_from-IsTallied, validate-IsValid,
}

with_day-new : (day : ℕ) (days : List ℕ) → Among day (with_day day days)
unfolding with_day
with_day-new day [] = inl refl
with_day-new day (d ∷ ds) = elim (Bool-cases (ltb day d)) [
  | inl before ↦ rw before (inl refl)
  | inr after ↦ elim (Bool-cases (day == d)) [
    | inl same ↦ rw (after, same) (inl (==→eq day d same))
    | inr other ↦ rw (after, other) (inr (with_day-new day ds))
  ]
]

with_day-old : (x day : ℕ) (days : List ℕ) → Among x days → Among x (with_day day days)
unfolding with_day
with_day-old x day [] h = elim h [ ]
with_day-old x day (d ∷ ds) h = elim (Bool-cases (ltb day d)) [
  | inl before ↦ rw before (inr h)
  | inr after ↦ elim (Bool-cases (day == d)) [
    | inl same ↦ rw (after, same) h
    | inr other ↦
        rw (after, other)
          (elim h [ inl here ↦ inl here | inr among ↦ inr (with_day-old x day ds among) ])
  ]
]

with_days-old : (x : ℕ) (news days : List ℕ) → Among x days → Among x (with_days news days)
unfolding with_days
with_days-old x [] days h = h
with_days-old x (new ∷ news) days h =
    with_days-old x news (with_day new days) (with_day-old x new days h)

with_days-new : (x : ℕ) (news days : List ℕ) → Among x news → Among x (with_days news days)
unfolding with_days
with_days-new x [] days h = elim h [ ]
with_days-new x (new ∷ news) days (inl same) =
    with_days-old x news (with_day new days)
      (subst (λ n. Among n (with_day new days)) (sym same) (with_day-new new days))
with_days-new x (new ∷ news) days (inr among) = with_days-new x news (with_day new days) among

days_eq→eq : (xs ys : List ℕ) → days_eq xs ys ≡ true → xs ≡ ys
days_eq→eq [] [] h = refl
days_eq→eq [] (y ∷ ys) h = cc
days_eq→eq (x ∷ xs) [] h = cc
days_eq→eq (x ∷ xs) (y ∷ ys) h =
    let (first, rest) = and_true (x == y) _ h in
    let head = ==→eq x y first in let tail = days_eq→eq xs ys rest in λ i. head i ∷ tail i

-- An input of the symbol for a day, with a digest.
pub record HasEvidence (symbol : String) (items : List Evidence) (day : ℕ) : Type 0 where
  pub item : Evidence
  pub among : Among item items
  pub of_day : item.date ≡ day
  pub of_symbol : str_eq item.symbol symbol ≡ true
  pub has_digest : is_digest item.manifest_sha256 ≡ true

input_days-HasEvidence :
    (symbol : String) (start end : ℕ) (seen : List ℕ) (items : List Evidence) {out : List ℕ}
    (day : ℕ)
    → input_days symbol start end seen items ≡ ok out
    → has_day day out ≡ true
    → (has_day day seen ≡ true) ⊎ HasEvidence symbol items day
unfolding input_days
input_days-HasEvidence symbol start end seen [] day h has =
    inl (ap (has_day day) (ok_injective h) ∙ has)
input_days-HasEvidence symbol start end seen (item ∷ items) day h has =
    let (named, h₁) =
      raise_if-eq-ok (not (str_eq item.symbol symbol)) Error.impact_model_error _ h in
    let (_, h₂) =
      raise_if-eq-ok (not (inside start end item.date) || has_day item.date seen)
        Error.impact_model_error _ h₁ in
    let (digest, h₃) =
      raise_if-eq-ok (not (is_digest item.manifest_sha256)) Error.impact_model_error _ h₂ in
    elim (input_days-HasEvidence symbol start end (item.date ∷ seen) items day h₃ has) [
      | inr later ↦ inr (record {
        item = later.item;
        among = inr later.among;
        of_day = later.of_day;
        of_symbol = later.of_symbol;
        has_digest = later.has_digest;
      })
      | inl now ↦ elim (Bool-cases (item.date == day)) [
        | inl same ↦ inr (record {
          item = item;
          among = inl refl;
          of_day = ==→eq item.date day same;
          of_symbol = unless_negated _ named;
          has_digest = unless_negated _ digest;
        })
        | inr other ↦ inl (sym (ap (λ b. b || has_day day seen) other) ∙ now)
      ]
    ]

all-Among :
    (p : ℕ → Bool) (days : List ℕ) (day : ℕ) → all p days ≡ true → Among day days → p day ≡ true
all-Among p [] day h among = elim among [ ]
all-Among p (d ∷ ds) day h (inl same) = let (first, _) = and_true (p d) _ h in ap p same ∙ first
all-Among p (d ∷ ds) day h (inr among) =
    let (_, rest) = and_true (p d) _ h in all-Among p ds day rest among

only_synthetic : (s b : Bool) → (not s && not b) ≡ false → s ≡ false → b ≡ true
only_synthetic s true h k = refl
only_synthetic s false h k = cc

check_provenance-HasEvidence :
    (p : Provenance) (symbol : String) (start end day : ℕ)
    → check_provenance p symbol start end ≡ ok tt
    → is_synthetic p.kind ≡ false
    → Among day p.corpus_days
    → HasEvidence symbol p.inputs day
unfolding check_provenance
check_provenance-HasEvidence p symbol start end day h real among =
    let (_, h₁) = raise_if-eq-ok (is_blank p.code_version) Error.impact_model_error _ h in
    let (_, h₂) =
      raise_if-eq-ok (not (is_digest p.fitting_source_sha256)) Error.impact_model_error _ h₁ in
    let (_, h₃) =
      raise_if-eq-ok (not (str_eq p.row_count_scope row_count_scope_text)) Error.impact_model_error
        _ h₂ in
    let (_, h₄) = >>-eq-ok (check_days p.corpus_days) _ h₃ in
    let (_, h₅) =
      raise_if-eq-ok (not (all (inside start end) p.corpus_days)) Error.impact_model_error _ h₄ in
    let (seen, s, h₆) = >>=-eq-ok (input_days symbol start end [] p.inputs) _ h₅ in
    let (complete, _) =
      raise_if-eq-ok (not (is_synthetic p.kind) && not (all (λ d. has_day d seen) p.corpus_days))
        Error.impact_model_error _ h₆ in
    let every = only_synthetic (is_synthetic p.kind) _ complete real in
    let has = all-Among (λ d. has_day d seen) p.corpus_days day every among in
    elim (input_days-HasEvidence symbol start end [] p.inputs day s has) [
      | inl before ↦ cc
      | inr found ↦ found
    ]

module _ {F : Type 0} ⦃n : Number F⦄ where
  tally_from-keeps :
      (start cutoff end : ℕ) (t : Tally) (fits : List (Fit F)) {last : Tally} (day : ℕ)
      → tally_from start cutoff end t fits ≡ ok last
      → Among day t.days
      → Among day last.days
  unfolding tally_from tallied
  tally_from-keeps start cutoff end t [] day h among =
      subst (λ x. Among day x.days) (ok_injective h) among
  tally_from-keeps start cutoff end t (f ∷ fits) day h among =
      let step = tally_from-IsTallied start cutoff end t f fits h in
      tally_from-keeps start cutoff end (tallied t f (identity_of f) step.days) fits day step.rest
        (with_days-old day step.days t.days among)

  tally_from-days :
      (start cutoff end : ℕ) (t : Tally) (fits : List (Fit F)) {last : Tally} (f : Fit F) (day : ℕ)
      → tally_from start cutoff end t fits ≡ ok last
      → Among f fits
      → Among day (f.train_days ++ f.test_days)
      → Among day last.days
  unfolding tallied
  tally_from-days start cutoff end t [] f day h among of_fit = elim among [ ]
  tally_from-days start cutoff end t (g ∷ fits) f day h (inl same) of_fit =
      let step = tally_from-IsTallied start cutoff end t g fits h in
      let own =
        subst (Among day) (ap (λ x. x.train_days ++ x.test_days) same ∙ step.days_of) of_fit in
      tally_from-keeps start cutoff end (tallied t g (identity_of g) step.days) fits day step.rest
        (with_days-new day step.days t.days own)
  tally_from-days start cutoff end t (g ∷ fits) f day h (inr among) of_fit =
      let step = tally_from-IsTallied start cutoff end t g fits h in
      tally_from-days start cutoff end (tallied t g (identity_of g) step.days) fits f day step.rest
        among of_fit

  -- In a valid artifact of calibrated data, every day on which a fit was trained or tested has an
  -- input of the artifact's symbol with the digest of its manifest.
  pub validate-HasEvidence :
      (a : Artifact F) (f : Fit F) (day : ℕ)
      → validate a ≡ ok tt
      → is_synthetic a.provenance.kind ≡ false
      → Among f a.fits
      → Among day (f.train_days ++ f.test_days)
      → HasEvidence a.symbol a.provenance.inputs day
  validate-HasEvidence a f day h real among of_fit =
      let valid = validate-IsValid a h in
      let tallied_day =
        tally_from-days a.train_start a.train_end_exclusive a.test_end_exclusive no_fits a.fits f
          day valid.tallied among of_fit in
      let of_corpus =
        subst (Among day) (days_eq→eq valid.last.days a.provenance.corpus_days valid.corpus)
          tallied_day in
      check_provenance-HasEvidence a.provenance a.symbol a.train_start a.test_end_exclusive day
        valid.provenance real of_corpus
