-- ===== src/Merkle/Canonical.antt =====
-- `_canonical_bytes` tells decisions apart.
use omni_aegis.Prelude.{
  ℕ, ◌+◌, ◌*◌, ◌^◌, ◌<◌, ◌≡◌, refl, sym, ap, ◌∙◌, inl, inr, [], ◌∷◌, ◌++◌, length, arith, ltb,
  Bool-cases, ltb→lt,
}
use omni_aegis.Merkle.{
  Bytes, Outcome, ok, raise, ◌>>=◌, big_endian, to_bytes, int_to_bytes, confidence_scaled,
  canonical_bytes,
}
use omni_aegis.Prelude.Int.{ℤ, pos, negsuc}
use omni_aegis.Doubles.{Doubles}
use omni_aegis.Values.{Conversions}
use omni_aegis.Merkle.Binding.{append-cancel}

to_bytes-ok : (n v : ℕ) (b : Bytes) → to_bytes n v ≡ ok b → (v < 256 ^ n) × (b ≡ big_endian n v)
to_bytes-ok n v b e = elim (Bool-cases (ltb v (256 ^ n))) [
  | inl fits ↦ let e' = rw fits at e in (ltb→lt v (256 ^ n) fits, cc e')
  | inr large ↦ let e' = rw large at e in absurd (cc e')
]

-- The digits of a number to base 256, read back.
from_bytes : ℕ → Bytes → ℕ
from_bytes acc [] = acc
from_bytes acc (b ∷ bs) = from_bytes (acc * 256 + b) bs

from_bytes-1 : (v : ℕ) → v < 256 → from_bytes 0 (big_endian 1 v) ≡ v
unfolding from_bytes
from_bytes-1 v h = omega arith

from_bytes-4 : (v : ℕ) → v < 256 ^ 4 → from_bytes 0 (big_endian 4 v) ≡ v
unfolding from_bytes
from_bytes-4 v h = omega arith

from_bytes-8 : (v : ℕ) → v < 256 ^ 8 → from_bytes 0 (big_endian 8 v) ≡ v
unfolding from_bytes
from_bytes-8 v h = omega arith

-- The parts of a leaf that was encoded, and the bytes that they give.
record Encoded (a : Bytes) (action : ℕ) (scaled : ℤ) (timestamp : ℕ) (b : Bytes) : Type 0 where
  confidence : ℕ
  is_scaled : scaled ≡ pos confidence
  action_fits : action < 256
  confidence_fits : confidence < 256 ^ 4
  timestamp_fits : timestamp < 256 ^ 8
  bytes : b ≡ a ++ (big_endian 1 action ++ (big_endian 4 confidence ++ big_endian 8 timestamp))

>>=-ok :
    {A : Type 0} (m : Outcome A) (f : A → Outcome Bytes) (b : Bytes)
    → (m >>= f) ≡ ok b
    → (a : A) × (m ≡ ok a) × (f a ≡ ok b)
>>=-ok (ok a) f b e = (a, refl, e)
>>=-ok (raise x) f b e = absurd (cc e)

int_to_bytes-ok :
    (n : ℕ) (z : ℤ) (b : Bytes)
    → int_to_bytes n z ≡ ok b
    → (v : ℕ) × (z ≡ pos v) × (to_bytes n v ≡ ok b)
int_to_bytes-ok n (pos v) b e = (v, refl, e)
int_to_bytes-ok n (negsuc v) b e = absurd (cc e)

module _ {fl : Doubles} (py : Conversions fl) (scale : ℕ) where
  canonical_bytes-Encoded :
      (a : Bytes) (x : ℕ) (c : fl.Float) (t : ℕ) (b : Bytes)
      → canonical_bytes py scale a x c t ≡ ok b
      → Encoded a x (confidence_scaled py scale c) t b
  unfolding canonical_bytes
  canonical_bytes-Encoded a x c t b e =
      let (bx, ex, e1) = >>=-ok (to_bytes 1 x) _ b e in
      let (bc, ec, e2) = >>=-ok (int_to_bytes 4 (confidence_scaled py scale c)) _ b e1 in
      let (bt, et, e3) = >>=-ok (to_bytes 8 t) _ b e2 in
      let (n, c_scaled, en) = int_to_bytes-ok 4 (confidence_scaled py scale c) bc ec in
      let (x_fits, x_is) = to_bytes-ok 1 x bx ex in
      let (c_fits, c_is) = to_bytes-ok 4 n bc en in
      let (t_fits, t_is) = to_bytes-ok 8 t bt et in
      record {
        confidence = n;
        is_scaled = c_scaled;
        action_fits = x_fits;
        confidence_fits = c_fits;
        timestamp_fits = t_fits;
        bytes = cc (e3, x_is, c_is, t_is);
      }

  -- Two decisions whose canonical bytes are equal, with asset hashes of one length, agree in the
  -- asset hash, the action, the timestamp, and the confidence as far as it is encoded: clamped to
  -- the range from 0 to 1, scaled and cut off to an integer.
  pub canonical_bytes-injective :
      (a a' : Bytes) (x x' : ℕ) (c c' : fl.Float) (t t' : ℕ) (b : Bytes)
      → length a ≡ length a'
      → canonical_bytes py scale a x c t ≡ ok b
      → canonical_bytes py scale a' x' c' t' ≡ ok b
      → (a ≡ a')
        × (x ≡ x')
        × (confidence_scaled py scale c ≡ confidence_scaled py scale c')
        × (t ≡ t')
  canonical_bytes-injective a a' x x' c c' t t' b l e e' =
      let p = canonical_bytes-Encoded a x c t b e in
      let q = canonical_bytes-Encoded a' x' c' t' b e' in
      let (same, rest) = append-cancel a _ a' _ l (sym p.bytes ∙ q.bytes) in
      let (dx, rest1) = append-cancel (big_endian 1 x) _ (big_endian 1 x') _ refl rest in
      let (dc, dt) =
        append-cancel (big_endian 4 p.confidence) _ (big_endian 4 q.confidence) _ refl rest1 in
      let n : p.confidence ≡ q.confidence =
        sym (from_bytes-4 p.confidence p.confidence_fits)
        ∙ ap (from_bytes 0) dc
        ∙ from_bytes-4 q.confidence q.confidence_fits in
      (
        same,
        sym (from_bytes-1 x p.action_fits) ∙ ap (from_bytes 0) dx ∙ from_bytes-1 x' q.action_fits,
        p.is_scaled ∙ ap pos n ∙ sym q.is_scaled,
        sym (from_bytes-8 t p.timestamp_fits)
            ∙ ap (from_bytes 0) dt
            ∙ from_bytes-8 t' q.timestamp_fits,
      )
