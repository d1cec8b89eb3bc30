-- ===== src/Replay/Weighted.antt =====
-- A sample raises when too few recent episodes have a weight.
use omni_aegis.Prelude.{
  ℕ, suc, ◌-◌, ◌≤◌, ◌<◌, ◌≡◌, refl, ap, Bool, true, false, inl, inr, List, [], ◌∷◌, map, none,
  if◌then◌else◌, ge→ltb, ◌==◌, arith, length, min, Bool-cases,
}
use omni_aegis.Doubles.{Doubles, FiniteLaws, null, fmax, le_refl}
use omni_aegis.Values.{Conversions}
use omni_aegis.Replay.{
  ReplayConfig, Buffer, Packing, Random, nonzero, get_weight_slice, clipped,
  weighted_sample_indices, recent_start, recent_target, drawn_indices, sampled_indices, unpacked_at,
  append_drawn, sample_batch,
}

fmax_low :
    {fl : Doubles} (finite : FiniteLaws fl) (w : fl.Float)
    → fl.le w (null fl) ≡ true
    → fmax fl w (null fl) ≡ null fl
fmax_low {fl = fl} finite w low = elim (Bool-cases (fl.le (null fl) w)) [
  | inl high ↦ rw (high) (finite.le-antisym w (null fl) low high)
  | inr under ↦ rw (under, low) refl
]

module _ {fl : Doubles} (finite : FiniteLaws fl) (rng : Random fl)
    (zero_div : (x : fl.Float) → fl.div (null fl) x ≡ null fl) where
  open fl use {Float}

  -- Clipping and dividing make no weight positive.
  nonzero_div :
      (t : Float) (weights : List Float)
      → nonzero fl (map (λ w. fl.div w t) (clipped rng weights)) ≤ nonzero fl weights
  nonzero_div t [] = omega arith
  nonzero_div t (w ∷ weights) =
      let rest = nonzero_div t weights in
      elim (Bool-cases (fl.le w (null fl))) [
        | inl low ↦ rw (fmax_low finite w low, zero_div t, low, le_refl finite (null fl)) rest
        | inr high ↦
            let over : fl.le (null fl) w ≡ true =
              ground (arith, high, finite.le-total w (null fl)) in
            rw (high, over) (counted _ _ _ rest)
      ]
    where
      counted : (b : Bool) (x y : ℕ) → x ≤ y → (if b then suc x else x) ≤ suc y
      counted true x y h = omega (arith, h)
      counted false x y h = omega (arith, h)

  -- A draw without replacement of more indices than there are positive weights raises.
  weighted_sample_indices-few :
      (k count offset : ℕ) (weights : List Float)
      → count ≤ length weights
      → nonzero fl weights < count
      → fl.le (rng.np_sum (clipped rng weights)) (null fl) ≡ false
      → weighted_sample_indices rng k weights count offset ≡ none
  unfolding weighted_sample_indices
  weighted_sample_indices-few k count offset weights enough few heavy =
      let asked : (count == 0) ≡ false = ground (arith, few) in
      let filled : (length weights == 0) ≡ false = ground (arith, few, enough) in
      let raises =
        rng.choice-few k (length weights) count
          (map (λ w. fl.div w (rng.np_sum (clipped rng weights))) (clipped rng weights))
          (omega (arith, nonzero_div (rng.np_sum (clipped rng weights)) weights, few)) in
      rw
        (
          weighted_sample_indices,
          asked,
          filled,
          ge→ltb (length weights) count enough,
          heavy,
          raises,
        )
        refl

module _ {fl : Doubles} (finite : FiniteLaws fl) (py : Conversions fl) (rng : Random fl)
    (pk : Packing fl) (c : ReplayConfig)
    (zero_div : (x : fl.Float) → fl.div (null fl) x ≡ null fl) where
  open fl use {Float}

  -- Among finite numbers, `sample_batch` raises, though there are recent episodes enough, when the
  -- weights of the recent window do not sum to zero and fewer of them are positive than the recent
  -- episodes it asks for, if zero divided by a number is zero.
  pub sample_batch-raises :
      (s : Buffer pk.Blob) (batch_size : ℕ)
      → 0 < length s.episodes
      → 0 < batch_size
      → recent_target (min batch_size (length s.episodes))
        ≤ length (get_weight_slice py (recent_start c (length s.episodes)) s.weights)
      → nonzero fl (get_weight_slice py (recent_start c (length s.episodes)) s.weights)
        < recent_target (min batch_size (length s.episodes))
      → fl.le
          (rng.np_sum
            (clipped rng (get_weight_slice py (recent_start c (length s.episodes)) s.weights)))
          (null fl)
        ≡ false
      → sample_batch py rng pk c batch_size s ≡ none
  unfolding sample_batch
  sample_batch-raises s batch_size p p' enough few heavy =
      let asked : (batch_size == 0) ≡ false = ground (arith, p') in
      let filled : (length s.episodes == 0) ≡ false = ground (arith, p) in
      let n : ℕ = min batch_size (length s.episodes) in
      let start : ℕ = recent_start c (length s.episodes) in
      let raises : drawn_indices py rng pk c n s ≡ none =
        ap
          (λ o. append_drawn o (
            weighted_sample_indices rng 1 (get_weight_slice py 0 s.weights) (n - recent_target n)
              0))
          (weighted_sample_indices-few finite rng zero_div 0 (recent_target n) start
            (get_weight_slice py start s.weights) enough few heavy) in
      rw (sample_batch, asked, filled)
        (ap (λ o. unpacked_at py rng pk c n s (sampled_indices py rng pk c n s o)) raises)
