-- ===== src/Domain/Metrics.antt =====
-- internal/domain/metrics.go: the registry of the metrics that a reading can have; internal/domain/calc.go:
-- the alcohol by volume.
use Prim.Native.String
use cellarkeep_server.Prelude.{
  ℕ, String, ◌||◌, Option, none, some, List, [], ◌∷◌, All, find, find-passes, string_eq, ◌==◌, ◌≡◌,
  refl, if◌then◌else◌, eq_iff,
}
use cellarkeep_server.Store.Model.{Float64}
use cellarkeep_server.Store.Action.{Floats, Error, validation}
use cellarkeep_server.Domain.EventData.{Formats}

pub record MetricInfo : Type 0 where
  pub key : String
  pub label : String
  pub unit : String
  pub precision : ℕ
  pub min : Float64
  pub max : Float64

abbrev pub metric : String → String → String → ℕ → Float64 → Float64 → MetricInfo
metric key label unit precision min max = record {
  key = key;
  label = label;
  unit = unit;
  precision = precision;
  min = min;
  max = max;
}

module _ (fm : Formats) where
  -- registry, which Metrics returns a copy of
  unfoldable pub registry : List MetricInfo
  registry =
      metric "gravity" "Specific gravity" "SG" 3 (fm.decimal 9 1) (fm.decimal 12 1)
      ∷ metric "brix" "Brix" "°Bx" 1 (fm.decimal 0 0) (fm.decimal 50 0)
      ∷ metric "density" "Density" "g/cm³" 4 (fm.decimal 9 1) (fm.decimal 12 1)
      ∷ metric "ph" "pH" "pH" 2 (fm.decimal 2 0) (fm.decimal 5 0)
      ∷ metric "ta" "Titratable acidity" "g/L tartaric" 2 (fm.decimal 0 0) (fm.decimal 20 0)
      ∷ metric "free_so2" "Free SO₂" "mg/L" 0 (fm.decimal 0 0) (fm.decimal 200 0)
      ∷ metric "total_so2" "Total SO₂" "mg/L" 0 (fm.decimal 0 0) (fm.decimal 400 0)
      ∷ metric "malic_acid" "Malic acid" "g/L" 2 (fm.decimal 0 0) (fm.decimal 10 0)
      ∷ metric "abv" "Alcohol by volume" "% v/v" 1 (fm.decimal 0 0) (fm.decimal 25 0)
      ∷ metric "temp" "Temperature" "°C" 1 (fm.neg (fm.decimal 10 0)) (fm.decimal 60 0)
      ∷ metric "humidity" "Relative humidity" "%RH" 0 (fm.decimal 0 0) (fm.decimal 100 0)
      ∷ []

  -- LookupMetric
  unfoldable pub lookup_metric : String → Option MetricInfo
  unfolding registry
  lookup_metric key = find (λ (m : MetricInfo). m.key == key) registry

  -- MetricInfo.Validate
  unfoldable pub validate : MetricInfo → Float64 → Option Error
  validate m v =
      if fm.lt v m.min || fm.lt m.max v
      then some (
          validation "value" (
            String.◌++◌ m.key (
              String.◌++◌ " must be between " (
                String.◌++◌ (fm.show m.min)
                  (String.◌++◌ " and " (String.◌++◌ (fm.show m.max) (String.◌++◌ " " m.unit)))))))
      else none

-- round1 and ABV of internal/domain/calc.go.
module _ (fl : Floats) (fm : Formats) where
  unfoldable pub round1 : Float64 → Float64
  round1 n = fl.div (fl.round (fl.mul n (fm.decimal 10 0))) (fm.decimal 10 0)

  unfoldable pub abv : Float64 → Float64 → Float64 × Float64
  unfolding round1
  abv og fg =
      let standard = fl.mul (fl.sub og fg) (fm.decimal 13125 2) in
      let corrected =
        fl.mul (fl.div (fl.mul (fm.decimal 7608 2) (fl.sub og fg)) (fl.sub (fm.decimal 1775 3) og))
          (fl.div fg (fm.decimal 794 3)) in
      (round1 standard, round1 corrected)

-- Every metric of the registry is found by its key, so no two have the same, and what is found by a key has
-- that key.
pub lookup_metric_lem :
    (fm : Formats)
    → All (λ (m : MetricInfo). lookup_metric fm m.key ≡ some m) (registry fm)
      × ((key : String) (m : MetricInfo) → lookup_metric fm key ≡ some m → m.key ≡ key)
unfolding lookup_metric
lookup_metric_lem fm = (
  (refl, (refl, (refl, (refl, (refl, (refl, (refl, (refl, (refl, (refl, (refl, tt))))))))))),
  λ key m h.
      (eq_iff m.key key).0 (find-passes (λ (x : MetricInfo). x.key == key) (registry fm) m h),
)
