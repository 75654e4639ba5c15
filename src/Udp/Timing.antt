-- ===== src/Udp/Timing.antt =====
-- How long the attempts of `drain` wait (src/usmp/transport/udp.py): the estimate of the round trip,
-- by the algorithms of Jacobson and Karn, and the timeouts that double. Floats are a parameter.
use usmp_python.Prelude.{
  ℕ, zero, suc, ◌+◌, ◌*◌, ◌≤◌, ◌≡◌, Bool, true, false, Option, none, some, List, [], ◌∷◌, ◌++◌, inl,
  inr, arith, ◌==◌, if◌then◌else◌, length, length-append, All, All-append, Bool-cases,
}

-- The floats: their operations, the constants of the code, and the powers of two.
pub record Floats : Type 1 where
  pub Float : Type 0
  pub add : Float → Float → Float
  pub sub : Float → Float → Float
  pub mul : Float → Float → Float
  pub abs : Float → Float
  pub lt : Float → Float → Bool
  -- 0.05, 0.1, 0.125, 0.2, 0.25, 0.5, 4.0 and 5.0.
  pub twentieth : Float
  pub tenth : Float
  pub eighth : Float
  pub fifth : Float
  pub quarter : Float
  pub half : Float
  pub four : Float
  pub five : Float
  pub power_of_two : ℕ → Float

-- What holds of the comparison, also where a float is not a number.
pub record IsOrdered (f : Floats) : Type 0 where
  pub asym : (x y : f.Float) → f.lt x y ≡ true → f.lt y x ≡ false
  pub irrefl : (x : f.Float) → f.lt x x ≡ false
  pub five-tenth : f.lt f.five f.tenth ≡ false
  pub five-twentieth : f.lt f.five f.twentieth ≡ false
  pub half-tenth : f.lt f.half f.tenth ≡ false
  pub five-half : f.lt f.five f.half ≡ false

module _ (f : Floats) where
  -- `min(a, b)` and `max(a, b)`, which return `a` unless `b` is less, or greater.
  abbrev pub py_min : f.Float → f.Float → f.Float
  py_min a b = if f.lt b a then b else a

  abbrev pub py_max : f.Float → f.Float → f.Float
  py_max a b = if f.lt a b then b else a

  pub record Estimate : Type 0 where
    pub srtt : f.Float
    pub rttvar : f.Float
    pub rto : f.Float

  abbrev pub new_estimate : Estimate
  new_estimate = record { srtt = f.fifth; rttvar = f.tenth; rto = f.half }

  unfoldable pub attempt_timeout : f.Float → ℕ → f.Float
  attempt_timeout base_rto attempt =
      py_min f.five (py_max f.twentieth (f.mul base_rto (f.power_of_two attempt)))

  -- The update after the first attempt was answered.
  unfoldable pub sampled : f.Float → Estimate → Estimate
  sampled sample_rtt e =
      let off = f.sub sample_rtt e.srtt in
      let rttvar' = f.add e.rttvar (f.mul f.quarter (f.sub (f.abs off) e.rttvar)) in
      let srtt' = f.add e.srtt (f.mul f.eighth off) in
      record {
        srtt = srtt';
        rttvar = rttvar';
        rto = py_max f.tenth (py_min f.five (f.add srtt' (f.mul f.four rttvar')));
      }

  -- The attempts that are left: for each the time after which it was answered, if it was. The
  -- timeouts of those that were made, and the estimate after them.
  unfoldable pub timing :
      f.Float → ℕ → ℕ → List (Option f.Float) → Estimate → List f.Float × Estimate
  timing base_rto zero attempt answers e = ([], e)
  timing base_rto (suc n) attempt [] e =
      let (timeouts, e') = timing base_rto n (attempt + 1) [] e in
      (attempt_timeout base_rto attempt ∷ timeouts, e')
  timing base_rto (suc n) attempt (none ∷ answers) e =
      let (timeouts, e') = timing base_rto n (attempt + 1) answers e in
      (attempt_timeout base_rto attempt ∷ timeouts, e')
  timing base_rto (suc n) attempt (some sample_rtt ∷ answers) e =
      (attempt_timeout base_rto attempt ∷ [], if attempt == 0 then sampled sample_rtt e else e)

  unfoldable pub drain_timing : List (Option f.Float) → Estimate → List f.Float × Estimate
  drain_timing answers e = timing e.rto 5 0 answers e

  -- One call of `drain` after another.
  unfoldable pub drains : List (List (Option f.Float)) → Estimate → List f.Float × Estimate
  drains [] e = ([], e)
  drains (answers ∷ later) e =
      let (timeouts, e') = drain_timing answers e in
      let (more, e'') = drains later e' in (timeouts ++ more, e'')

  abbrev pub IsWithin : f.Float → f.Float → f.Float → Type 0
  IsWithin low high x = (f.lt x low ≡ false) × (f.lt high x ≡ false)

  module _ (order : IsOrdered f) where
    IsWithin-max_min :
        (low high x : f.Float)
        → f.lt high low ≡ false
        → IsWithin low high (py_max low (py_min high x))
    IsWithin-max_min low high x h = elim (Bool-cases (f.lt x high)) [
      | inl less ↦ rw less (elim (Bool-cases (f.lt low x)) [
        | inl more ↦ rw more (order.asym low x more, order.asym x high less)
        | inr few ↦ rw few (order.irrefl low, h)
      ])
      | inr most ↦ rw most (elim (Bool-cases (f.lt low high)) [
        | inl more ↦ rw more (h, order.irrefl high)
        | inr few ↦ rw few (order.irrefl low, h)
      ])
    ]

    IsWithin-min_max :
        (low high x : f.Float)
        → f.lt high low ≡ false
        → IsWithin low high (py_min high (py_max low x))
    IsWithin-min_max low high x h = elim (Bool-cases (f.lt low x)) [
      | inl more ↦ rw more (elim (Bool-cases (f.lt x high)) [
        | inl less ↦ rw less (order.asym low x more, order.asym x high less)
        | inr most ↦ rw most (h, order.irrefl high)
      ])
      | inr few ↦ rw few (elim (Bool-cases (f.lt low high)) [
        | inl less ↦ rw less (order.irrefl low, h)
        | inr most ↦ rw most (h, order.irrefl high)
      ])
    ]

    attempt_timeout-IsWithin :
        (base_rto : f.Float) (attempt : ℕ)
        → IsWithin f.twentieth f.five (attempt_timeout base_rto attempt)
    unfolding attempt_timeout
    attempt_timeout-IsWithin base_rto attempt =
        IsWithin-min_max f.twentieth f.five (f.mul base_rto (f.power_of_two attempt))
          order.five-twentieth

    sampled-IsWithin :
        (sample_rtt : f.Float) (e : Estimate) → IsWithin f.tenth f.five (sampled sample_rtt e).rto
    unfolding sampled
    sampled-IsWithin sample_rtt e = IsWithin-max_min f.tenth f.five _ order.five-tenth

    -- The timeouts of at most so many attempts, and the estimate after them.
    abbrev Bounds : ℕ → List f.Float × Estimate → Type 0
    Bounds n (timeouts, e) =
        All (IsWithin f.twentieth f.five) timeouts
        × (length timeouts ≤ n)
        × IsWithin f.tenth f.five e.rto

    timing-Bounds :
        (base_rto : f.Float) (n attempt : ℕ) (answers : List (Option f.Float)) (e : Estimate)
        → IsWithin f.tenth f.five e.rto
        → Bounds n (timing base_rto n attempt answers e)
    unfolding timing
    timing-Bounds base_rto zero attempt answers e h = (tt, omega arith, h)
    timing-Bounds base_rto (suc n) attempt [] e h =
        let (all, few, low) = timing-Bounds base_rto n (attempt + 1) [] e h in
        ((attempt_timeout-IsWithin base_rto attempt, all), omega (arith, few), low)
    timing-Bounds base_rto (suc n) attempt (none ∷ answers) e h =
        let (all, few, low) = timing-Bounds base_rto n (attempt + 1) answers e h in
        ((attempt_timeout-IsWithin base_rto attempt, all), omega (arith, few), low)
    timing-Bounds base_rto (suc n) attempt (some sample_rtt ∷ answers) e h = (
      (attempt_timeout-IsWithin base_rto attempt, tt),
      omega arith,
      elim (Bool-cases (attempt == 0)) [
        | inl first ↦ rw first (sampled-IsWithin sample_rtt e)
        | inr later ↦ rw later h
      ],
    )

    drains-Bounds :
        (calls : List (List (Option f.Float))) (e : Estimate)
        → IsWithin f.tenth f.five e.rto
        → Bounds (5 * length calls) (drains calls e)
    unfolding drains drain_timing
    drains-Bounds [] e h = (tt, omega arith, h)
    drains-Bounds (answers ∷ later) e h =
        let first = timing e.rto 5 0 answers e in
        let (all, few, low) = timing-Bounds e.rto 5 0 answers e h in
        let (all', few', low') = drains-Bounds later first.1 low in
        (
          All-append _ first.0 (drains later first.1).0 all all',
          omega (arith, few, few', length-append first.0 (drains later first.1).0),
          low',
        )

    -- Over any calls of `drain` on a new stream, whatever the clock says, every attempt waits between
    -- 0.05 and 5 seconds, there are at most five attempts to a call, and the estimate stays between
    -- 0.1 and 5 seconds.
    pub drains-IsWithin :
        (calls : List (List (Option f.Float)))
        → let (timeouts, e) = drains calls new_estimate in
          All (IsWithin f.twentieth f.five) timeouts
          × (length timeouts ≤ 5 * length calls)
          × IsWithin f.tenth f.five e.rto
    drains-IsWithin calls = drains-Bounds calls new_estimate (order.half-tenth, order.five-half)
