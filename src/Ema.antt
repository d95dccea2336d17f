-- ===== src/Ema.antt =====
-- src/bsr_ema.c: moving averages. C's floating point is a parameter.
use bsreadrepeater.Base.{ℕ, pos, if◌then◌else◌, add64, ℤ, Bool}

-- The operations on `float` that the program uses.
pub record FloatOps (F : Type 0) : Type 0 where
  pub of_ℤ : ℤ → F
  -- the decimal literal `m / 10 ^ e`, stored in a `float`
  pub literal : ℕ → ℕ → F
  pub infinity : F
  pub neg_infinity : F
  pub add : F → F → F
  pub sub : F → F → F
  pub mul : F → F → F
  pub lt : F → F → Bool
  -- `(float)(x * 1e-6)`, with the product in `double`
  pub of_micros : F → F
  -- `x > m / 10 ^ e`, compared in `double`
  pub above : F → ℕ → ℕ → Bool
  -- `(uint64_t)((0.0099 - x) * 1e6)`, computed in `double`
  pub micros_to_0_0099 : F → ℕ

-- `struct bsr_ema`.
pub record Ema (F : Type 0) : Type 0 where
  pub k : F
  pub ema : F
  pub emv : F
  pub update_count : ℕ

-- `struct bsr_ema_ext`.
pub record EmaExt (F : Type 0) : Type 0 where
  pub k : F
  pub ema : F
  pub emv : F
  pub least : F
  pub most : F
  pub update_count : ℕ

module _ {F : Type 0} (fl : FloatOps F) where
  open fl use {of_ℤ, literal, add, sub, mul, lt}

  unfoldable pub bsr_ema_init : Ema F
  bsr_ema_init = record {
    k = literal 5 2;
    ema = of_ℤ (pos 0);
    emv = of_ℤ (pos 0);
    update_count = 0;
  }

  unfoldable pub bsr_ema_update : F → Ema F → Ema F
  bsr_ema_update v e =
      let dv = sub v e.ema in
      record e {
        update_count = add64 e.update_count 1;
        ema = add e.ema (mul e.k dv);
        emv = mul (sub (of_ℤ (pos 1)) e.k) (add e.emv (mul (mul e.k dv) dv));
      }

  unfoldable pub bsr_ema_ext_init : EmaExt F
  bsr_ema_ext_init = record {
    k = literal 5 2;
    ema = of_ℤ (pos 0);
    emv = of_ℤ (pos 0);
    least = fl.infinity;
    most = fl.neg_infinity;
    update_count = 0;
  }

  unfoldable pub bsr_ema_ext_update : F → EmaExt F → EmaExt F
  bsr_ema_ext_update v e =
      let dv = sub v e.ema in
      record e {
        update_count = add64 e.update_count 1;
        ema = add e.ema (mul e.k dv);
        emv = mul (sub (of_ℤ (pos 1)) e.k) (add e.emv (mul (mul e.k dv) dv));
        least = if lt v e.least then v else e.least;
        most = if lt e.most v then v else e.most;
      }
