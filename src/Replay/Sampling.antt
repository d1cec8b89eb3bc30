-- ===== src/Replay/Sampling.antt =====
-- What `sample_batch` returns.
use Prim.Native.String.{String}
use mathlib.Core.Option.{some-injective}
use mathlib.Core.Option
use mathlib.Core.Path.{subst}
use omni_aegis.Prelude.{
  ℕ, zero, suc, ◌+◌, ◌-◌, ◌≤◌, ◌<◌, ◌≡◌, refl, sym, ap, ◌∙◌, false, inl, inr, List, [], ◌∷◌, ◌++◌,
  map, Option, none, some, ltb, ◌==◌, ==_iff, arith, length, take, min, get_elem?, length-append,
  length-map, Bool-cases, Option-cases, All, map-All,
}
use omni_aegis.Doubles.{Doubles}
use omni_aegis.Values.{Entries, Conversions}
use omni_aegis.Replay.{
  drop, ReplayConfig, Buffer, Packing, Random, weight_of, get_weight_slice, probs,
  weighted_sample_indices, fetch_episodes_by_indices, cons_found, append_drawn, cons_unpacked,
  unpack_all, recent_start, recent_target, drawn_indices, refilled, sampled_indices, unpacked_at,
  sample_positive, sample_batch,
}
use omni_aegis.Replay.Fifo.{Represents}

length-drop {ℓ} : {A : Type ℓ} (n : ℕ) (xs : List A) → length (drop n xs) ≡ length xs - n
length-drop zero xs = omega arith
length-drop (suc n) [] = omega arith
length-drop (suc n) (x ∷ xs) = length-drop n xs ∙ omega arith

take_whole {ℓ} : {A : Type ℓ} (n : ℕ) (xs : List A) → length xs ≤ n → take n xs ≡ xs
take_whole zero [] h = refl
take_whole zero (x ∷ xs) h = absurd (omega (arith, h))
take_whole (suc n) [] h = refl
take_whole (suc n) (x ∷ xs) h = ap (◌∷◌ x) (take_whole n xs (omega (arith, h)))

get_elem?-some {ℓ} :
    {A : Type ℓ} (xs : List A) (i : ℕ) → i < length xs → (x : A) × (get_elem? xs i ≡ some x)
get_elem?-some [] i h = absurd (omega (arith, h))
get_elem?-some (x ∷ xs) zero h = (x, refl)
get_elem?-some (x ∷ xs) (suc i) h = get_elem?-some xs i (omega (arith, h))

append_drawn-some :
    (a b : Option (List ℕ)) (zs : List ℕ)
    → append_drawn a b ≡ some zs
    → (xs : List ℕ) × (ys : List ℕ) × (a ≡ some xs) × (b ≡ some ys) × (xs ++ ys ≡ zs)
append_drawn-some none b zs e = absurd (cc e)
append_drawn-some (some xs) none zs e = absurd (cc e)
append_drawn-some (some xs) (some ys) zs e = (xs, ys, refl, refl, some-injective _ _ e)

-- Indices from `low` on, below `high`.
abbrev pub Between : ℕ → ℕ → ℕ → Type 0
Between low high i = (low ≤ i) × (i < high)

module _ {fl : Doubles} (py : Conversions fl) (rng : Random fl) where
  open fl use {Float}

  weighted_sample_indices-Between :
      (k count offset : ℕ) (weights : List Float) (xs : List ℕ)
      → 0 < length weights
      → weighted_sample_indices rng k weights count offset ≡ some xs
      → (length xs ≡ count) × All (Between offset (length weights + offset)) xs
  unfolding weighted_sample_indices
  weighted_sample_indices-Between k count offset weights xs h e = elim (Bool-cases (count == 0)) [
    | inl zeros ↦
        let e' : some [] ≡ some xs = rw (weighted_sample_indices, zeros) at e in
        let nothing = some-injective _ _ e' in
        (
          sym (ap length nothing) ∙ sym ((==_iff count 0).0 zeros),
          subst (All (Between offset (length weights + offset))) nothing tt,
        )
    | inr more ↦
        let some_weight : (length weights == 0) ≡ false = ground (arith, h) in
        let e' : Option.map (map (λ x. x + offset))
              (rng.choice k (length weights) count (ltb (length weights) count) (probs rng weights))
            ≡ some xs =
          rw (weighted_sample_indices, more, some_weight) at e in
        elim (Option-cases
          (rng.choice k (length weights) count (ltb (length weights) count) (probs rng weights))) [
            | inl raises ↦
                absurd (let x = sym (ap (Option.map (map (λ x. x + offset))) raises) ∙ e' in cc x)
            | inr (chosen, drawn) ↦
                let shifted : map (λ x. x + offset) chosen ≡ xs =
                  some-injective _ _ (sym (ap (Option.map (map (λ x. x + offset))) drawn) ∙ e') in
                let (sized, ranged) = rng.choice-range k _ count _ _ chosen drawn in
                (
                  sym (ap length shifted) ∙ length-map chosen (λ x. x + offset) ∙ sized,
                  subst (All (Between offset (length weights + offset))) shifted (
                      map-All (λ x. x + offset) (Between offset (length weights + offset))
                        (λ i below. (omega arith, omega (arith, below))) chosen ranged),
                )
          ]
  ]

  length-get_weight_slice :
      (start : ℕ) (weights : List String)
      → length (get_weight_slice py start weights) ≡ length weights - start
  length-get_weight_slice start weights =
      length-map (drop start weights) (weight_of py) ∙ length-drop start weights

module _ {fl : Doubles} (pk : Packing fl) where
  open fl use {Float}

  -- An unpacked episode of the buffer, from an index on.
  abbrev pub StoredFrom : List pk.Blob → ℕ → Entries Float → Type 0
  StoredFrom episodes low e =
      (i : ℕ) × (blob : pk.Blob) × (low ≤ i)
      × (get_elem? episodes i ≡ some blob)
      × (pk.unpackb blob ≡ some e)

  cons_unpacked-some :
      (o : Option (Entries Float)) (os : Option (List (Entries Float))) (es : List (Entries Float))
      → cons_unpacked pk o os ≡ some es
      → (x : Entries Float) × (xs : List (Entries Float)) × (o ≡ some x)
        × (os ≡ some xs)
        × (x ∷ xs ≡ es)
  cons_unpacked-some none os es e = absurd (cc e)
  cons_unpacked-some (some x) none es e = absurd (cc e)
  cons_unpacked-some (some x) (some xs) es e = (x, xs, refl, refl, some-injective _ _ e)

  -- The episodes at indices of two kinds.
  abbrev pub Sampled : List pk.Blob → ℕ → ℕ → ℕ → List (Entries Float) → Type 0
  Sampled episodes low m n es =
      (recent : List (Entries Float)) × (global : List (Entries Float)) × (recent ++ global ≡ es)
      × (length recent ≡ m)
      × (length global ≡ n)
      × All (StoredFrom episodes low) recent
      × All (StoredFrom episodes 0) global

  unpack_all-cons :
      (episodes : List pk.Blob) (i low : ℕ) (indices : List ℕ) (es : List (Entries Float))
      → Between low (length episodes) i
      → unpack_all pk (fetch_episodes_by_indices episodes (i ∷ indices)) ≡ some es
      → (x : Entries Float) × (xs : List (Entries Float)) × StoredFrom episodes low x
        × (unpack_all pk (fetch_episodes_by_indices episodes indices) ≡ some xs)
        × (x ∷ xs ≡ es)
  unpack_all-cons episodes i low indices es h e =
      let (blob, found) = get_elem?-some episodes i h.1 in
      let rest = fetch_episodes_by_indices episodes indices in
      let e' : unpack_all pk (blob ∷ rest) ≡ some es =
        sym (ap (λ o. unpack_all pk (cons_found o rest)) found) ∙ e in
      let (x, xs, first, later, whole) = cons_unpacked-some _ _ es e' in
      (x, xs, (i, blob, h.0, found, first), later, whole)

  unpack_all-StoredFrom :
      (episodes : List pk.Blob) (low : ℕ) (indices : List ℕ) (es : List (Entries Float))
      → All (Between low (length episodes)) indices
      → unpack_all pk (fetch_episodes_by_indices episodes indices) ≡ some es
      → (length es ≡ length indices) × All (StoredFrom episodes low) es
  unpack_all-StoredFrom episodes low [] es h e =
      let nothing = some-injective _ _ e in
      (sym (ap length nothing), subst (All (StoredFrom episodes low)) nothing tt)
  unpack_all-StoredFrom episodes low (i ∷ indices) es h e =
      let (x, xs, stored, later, whole) = unpack_all-cons episodes i low indices es h.0 e in
      let (sized, all) = unpack_all-StoredFrom episodes low indices xs h.1 later in
      (
        sym (ap length whole) ∙ ap suc sized,
        subst (All (StoredFrom episodes low)) whole (stored, all),
      )

  unpack_all-Sampled :
      (episodes : List pk.Blob) (low : ℕ) (xs ys : List ℕ) (es : List (Entries Float))
      → All (Between low (length episodes)) xs
      → All (Between 0 (length episodes)) ys
      → unpack_all pk (fetch_episodes_by_indices episodes (xs ++ ys)) ≡ some es
      → Sampled episodes low (length xs) (length ys) es
  unpack_all-Sampled episodes low [] ys es h h' e =
      let (sized, all) = unpack_all-StoredFrom episodes 0 ys es h' e in
      ([], es, refl, refl, sized, tt, all)
  unpack_all-Sampled episodes low (i ∷ xs) ys es h h' e =
      let (x, rest, stored, later, whole) = unpack_all-cons episodes i low (xs ++ ys) es h.0 e in
      let (recent, global, joined, m, n, all, all') =
        unpack_all-Sampled episodes low xs ys rest h.1 h' later in
      (x ∷ recent, global, ap (◌∷◌ x) joined ∙ whole, ap suc m, n, (stored, all), all')

module _ {fl : Doubles} (py : Conversions fl) (rng : Random fl) (pk : Packing fl)
    (c : ReplayConfig) where
  open fl use {Float}

  module _ (s : Buffer pk.Blob) (q : List (pk.Blob × String)) (r : Represents s q) where
    same_length : length s.weights ≡ length s.episodes
    same_length =
        ap length r.weights
        ∙ length-map q (λ x. x.1)
        ∙ sym (length-map q (λ x. x.0))
        ∙ sym (ap length r.episodes)

    drawn :
        (k start count : ℕ) (xs : List ℕ)
        → start < length s.episodes
        → weighted_sample_indices rng k (get_weight_slice py start s.weights) count start ≡ some xs
        → (length xs ≡ count) × All (Between start (length s.episodes)) xs
    drawn k start count xs below e =
        let n = length-get_weight_slice py rng start s.weights in
        let (sized, all) =
          weighted_sample_indices-Between py rng k count start _ xs
            (omega (arith, n, same_length, below)) e in
        (
          sized,
          subst (λ high. All (Between start high) xs) (omega (arith, n, same_length, below)) all,
        )

  unpacked_at-some :
      (s : Buffer pk.Blob) (n : ℕ) (es : List (Entries Float)) (o : Option (List ℕ))
      → unpacked_at py rng pk c n s o ≡ some es
      → (indices : List ℕ) × (o ≡ some indices)
        × (unpack_all pk (fetch_episodes_by_indices s.episodes (take n indices)) ≡ some es)
  unpacked_at-some s n es none e = absurd (cc e)
  unpacked_at-some s n es (some indices) e = (indices, refl, e)

  sampled_indices-some :
      (s : Buffer pk.Blob) (n : ℕ) (indices : List ℕ) (o : Option (List ℕ))
      → sampled_indices py rng pk c n s o ≡ some indices
      → (sampled : List ℕ) × (o ≡ some sampled) × (refilled py rng pk c n s sampled ≡ some indices)
  sampled_indices-some s n indices none e = absurd (cc e)
  sampled_indices-some s n indices (some sampled) e = (sampled, refl, e)

  refilled-full :
      (s : Buffer pk.Blob) (n : ℕ) (sampled indices : List ℕ)
      → length sampled ≡ n
      → refilled py rng pk c n s sampled ≡ some indices
      → sampled ≡ indices
  refilled-full s n sampled indices size e =
      let full : ltb (length sampled) n ≡ false = ground (arith, size) in
      let e' : some sampled ≡ some indices = rw (refilled, full) at e in some-injective _ _ e'

  -- Where a sample is drawn from a buffer that represents a queue and holds some episodes, the recent
  -- window is not empty and nothing raises, the sample has as many episodes as asked for, at most all:
  -- first nine tenths, rounded down, unpacked from the window of recent episodes, and then the rest,
  -- unpacked from the whole buffer.
  pub sample_batch-Sampled :
      (s : Buffer pk.Blob) (q : List (pk.Blob × String)) (batch_size : ℕ)
      (es : List (Entries Float))
      → Represents s q
      → 0 < length s.episodes
      → 0 < batch_size
      → 0 < c.recent_window_size
      → sample_batch py rng pk c batch_size s ≡ some es
      → (n : ℕ) × (n ≡ min batch_size (length s.episodes))
        × Sampled pk s.episodes
            (recent_start c (length s.episodes))
            (recent_target n)
            (n - recent_target n)
            es
  unfolding sample_batch
  sample_batch-Sampled s q batch_size es r p p' window e =
      let n : ℕ = min batch_size (length s.episodes) in
      let asked : (batch_size == 0) ≡ false = ground (arith, p') in
      let filled : (length s.episodes == 0) ≡ false = ground (arith, p) in
      let e' : sample_positive py rng pk c n s ≡ some es = rw (sample_batch, asked, filled) at e in
      let (indices, found, unpacked) =
        unpacked_at-some s n es (sampled_indices py rng pk c n s (drawn_indices py rng pk c n s))
          e' in
      let (sampled, drew, full) =
        sampled_indices-some s n indices (drawn_indices py rng pk c n s) found in
      let (xs, ys, recent, global, joined) = append_drawn-some _ _ sampled drew in
      let start = recent_start c (length s.episodes) in
      let (m, in_window) = drawn s q r 0 start _ xs (omega (arith, p, window)) recent in
      let (k, in_buffer) = drawn s q r 1 0 _ ys p global in
      let most : recent_target n ≤ n = omega arith in
      let size : length sampled ≡ n =
        sym (ap length joined) ∙ length-append xs ys ∙ omega (arith, m, k, most) in
      let whole = joined ∙ refilled-full s n sampled indices size full in
      let taken = take_whole n indices (omega (arith, size, ap length whole, ap length joined)) in
      let unpacked' =
        ap (λ l. unpack_all pk (fetch_episodes_by_indices s.episodes l)) (whole ∙ sym taken)
        ∙ unpacked in
      (
        n,
        refl,
        subst (λ a. Sampled pk s.episodes start a (n - recent_target n) es) m
            (subst (λ b. Sampled pk s.episodes start (length xs) b es) k
              (unpack_all-Sampled pk s.episodes start xs ys es in_window in_buffer unpacked')),
      )
