-- ===== src/Dtmf/Goertzel.antt =====
-- hw1/src/goertzel.c: the filters for one frequency. The arithmetic of `double` and the functions of
-- the library are the parameter `ToneMath`.
use c_starter_projects.Prelude.{ℕ, ◌*◌, ◌%◌, ◌^◌, Bool}
use c_starter_projects.Prelude.Int.{ℤ, pos, minus_one}

pub record ToneMath : Type 1 where
  pub Double : Type 0
  pub of_int : ℤ → Double
  -- An int16_t by its bit pattern.
  pub of_sample : ℕ → Double
  pub plus : Double → Double → Double
  pub minus : Double → Double → Double
  pub times : Double → Double → Double
  pub over : Double → Double → Double
  pub cos : Double → Double
  pub sin : Double → Double
  pub square : Double → Double
  pub exceeds : Double → Double → Bool
  pub at_least : Double → Double → Bool
  pub same : Double → Double → Bool
  pub two_pi : Double
  pub four_db : Double
  pub six_db : Double
  pub minus_20db : Double
  pub hundredth : Double
  pub min_dtmf_duration : Double

module _ (math : ToneMath) where
  pub record GoertzelState : Type 0 where
    pub samples : ℕ
    pub k : math.Double
    pub angle : math.Double
    pub factor : math.Double
    pub s₀ : math.Double
    pub s₁ : math.Double
    pub s₂ : math.Double

  unfoldable pub goertzel_init : ℕ → math.Double → GoertzelState
  goertzel_init n k =
      let angle = math.times math.two_pi (math.over k (math.of_int (pos n))) in
      let zero' = math.of_int (pos 0) in
      record {
        samples = n;
        k = k;
        angle = angle;
        factor = math.times (math.cos angle) (math.of_int (pos 2));
        s₀ = zero';
        s₁ = zero';
        s₂ = zero';
      }

  abbrev pub next_s : GoertzelState → math.Double → math.Double
  next_s g x = math.minus (math.plus (math.times g.factor g.s₁) x) g.s₂

  unfoldable pub goertzel_step : math.Double → GoertzelState → GoertzelState
  goertzel_step x g = let s = next_s g x in record g { s₀ = s; s₁ = s; s₂ = g.s₁ }

  unfoldable pub goertzel_strength : math.Double → GoertzelState → math.Double
  goertzel_strength x g =
      let minus_1 = math.of_int minus_one in
      let n = math.of_int (pos g.samples) in
      let turned = math.times g.angle (math.minus n (math.of_int (pos 1))) in
      let c_real = math.cos g.angle in
      let c_imag = math.times minus_1 (math.sin g.angle) in
      let d_real = math.cos turned in
      let d_imag = math.times minus_1 (math.sin turned) in
      let s = next_s g x in
      let y_a = math.plus (math.times (math.times minus_1 g.s₁) c_real) s in
      let y_b = math.times g.s₁ c_imag in
      let real = math.minus (math.times y_a d_real) (math.times y_b d_imag) in
      let imag = math.plus (math.times y_a d_imag) (math.times y_b d_real) in
      let magnitude = math.plus (math.square real) (math.square imag) in
      math.over (math.times (math.of_int (pos 2)) magnitude)
        (math.of_int (pos (g.samples * g.samples % 2 ^ 32)))
