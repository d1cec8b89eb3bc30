-- ===== src/Replay/Tests.antt =====
-- The buffer with naturals for floats and a generator that takes the first indices.
use Prim.Native.String.{String}
use text.Mathlib.Text.{◌==◌ as str_eq}
use mathlib.Core.Option.{some-injective}
use mathlib.Core.Path.{subst}
use omni_aegis.Prelude.{
  ℕ, zero, suc, ◌+◌, ◌-◌, ◌*◌, ◌/◌, ◌≤◌, ◌<◌, ◌≡◌, refl, Bool, true, false, inl, inr, List, [], ◌∷◌,
  foldl, Option, none, some, if◌then◌else◌, ltb, leb, ltb→lt, leb→le, arith, length, All,
  Bool-cases,
}
use omni_aegis.Prelude.Int.{ℤ, pos, pos_part}
use omni_aegis.Doubles.{Doubles, FiniteLaws}
use omni_aegis.Values.{Entries, end, entry, number, sequence, cons, nil, Conversions, none_value}
use omni_aegis.Replay.{
  PreparedEpisode, ReplayConfig, Buffer, Packing, Random, nonzero, append_and_trim, prepare_episode,
  add_episode, weighted_sample_indices, sample_batch, recent_start, recent_target,
}
use omni_aegis.Replay.Fifo.{Represents, add_all, push_all, add_all-Represents}
use omni_aegis.Replay.Sampling.{Sampled, sample_batch-Sampled}
use omni_aegis.Replay.Weighted.{sample_batch-raises}

abbrev naturals : Doubles
naturals = record {
  Float = ℕ;
  is_nan = λ x. false;
  is_infinite = λ x. false;
  le = leb;
  add = λ a b. a + b;
  sub = λ a b. a - b;
  mul = λ a b. a * b;
  div = λ a b. a;
  decimal = λ n d. n / d;
}

finite_naturals : FiniteLaws naturals
finite_naturals = record {
  le-total = λ a b. ground arith;
  le-antisym = λ a b h k. ground arith;
  add-zero = λ a. omega arith;
  zero-add = λ a. omega arith;
  mul-zero = λ a. omega arith;
  zero-mul = λ a. omega arith;
}

-- Weights are written in unary.
abbrev unary : ℕ → String
unary zero = "0"
unary (suc zero) = "1"
unary (suc (suc n)) = "2"

abbrev read : String → Option ℕ
read t =
    if str_eq t "0"
    then some 0
    else if str_eq t "1"
    then some 1
    else if str_eq t "2"
    then some 2
    else none

abbrev conversions : Conversions naturals
conversions = record {
  float_of_text = read;
  int_of_text = λ t. none;
  of_int = λ i. pos_part i;
  truncate = λ x. pos x;
  strip = λ t. t;
  lower = λ t. t;
}

abbrev unpacked : PreparedEpisode ℕ → Entries ℕ
unpacked e = entry "total_return" (number e.total_return) end

abbrev packing : Packing naturals
packing = record {
  Blob = PreparedEpisode ℕ;
  packb = λ e. e;
  unpackb = λ e. some (unpacked e);
  fixed = unary;
}

abbrev first : ℕ → List ℕ
first zero = []
first (suc n) = n ∷ first n

first_range : (n size : ℕ) → n ≤ size → (length (first n) ≡ n) × All (λ i. i < size) (first n)
first_range zero size h = (refl, tt)
first_range (suc n) size h =
    let (sized, ranged) = first_range n size (omega (arith, h)) in
    (omega (arith, sized), (omega (arith, h), ranged))

-- Zeros, as long as the draw is with replacement.
abbrev zeros : ℕ → List ℕ
zeros zero = []
zeros (suc n) = 0 ∷ zeros n

zeros_range : (n size : ℕ) → 0 < size → (length (zeros n) ≡ n) × All (λ i. i < size) (zeros n)
zeros_range zero size h = (refl, tt)
zeros_range (suc n) size h =
    let (sized, ranged) = zeros_range n size h in (omega (arith, sized), (h, ranged))

abbrev entries_above : Option (List ℕ) → ℕ → ℕ
entries_above none size = size
entries_above (some p) size = nonzero naturals p

abbrev choose : ℕ → ℕ → Bool → Option (List ℕ) → Option (List ℕ)
choose size count true p = if ltb 0 size then some (zeros count) else none
choose size count false p =
    if leb count size
    then if leb count (entries_above p size) then some (first count) else none
    else none

choose_range :
    (size count : ℕ) (replace : Bool) (p : Option (List ℕ)) (chosen : List ℕ)
    → choose size count replace p ≡ some chosen
    → (length chosen ≡ count) × All (λ i. i < size) chosen
choose_range size count true p chosen e = elim (Bool-cases (ltb 0 size)) [
  | inl positive ↦
      let e' : some (zeros count) ≡ some chosen = rw (positive) at e in
      subst (λ xs. (length xs ≡ count) × All (λ i. i < size) xs) (some-injective _ _ e')
        (zeros_range count size (ltb→lt 0 size positive))
  | inr empty ↦ absurd (let e' = rw (empty) at e in cc e')
]
choose_range size count false p chosen e = elim (Bool-cases (leb count size)) [
  | inl enough ↦ elim (Bool-cases (leb count (entries_above p size))) [
    | inl above ↦
        let e' : some (first count) ≡ some chosen = rw (enough, above) at e in
        subst (λ xs. (length xs ≡ count) × All (λ i. i < size) xs) (some-injective _ _ e')
          (first_range count size (leb→le count size enough))
    | inr few ↦ absurd (let e' = rw (enough, few) at e in cc e')
  ]
  | inr more ↦ absurd (let e' = rw (more) at e in cc e')
]

gt→leb : (a b : ℕ) → b < a → leb a b ≡ false
gt→leb a b h = ground arith

choose_few :
    (size count : ℕ) (p : List ℕ)
    → nonzero naturals p < count
    → choose size count false (some p) ≡ none
choose_few size count p few = elim (Bool-cases (leb count size)) [
  | inl enough ↦ rw (enough, gt→leb count (nonzero naturals p) few) refl
  | inr more ↦ rw (more) refl
]

abbrev random : Random naturals
random = record {
  np_sum = foldl (λ a b. a + b) 0;
  choice = λ k. choose;
  choice-range = λ k. choose_range;
  choice-few = λ k. choose_few;
}

program : Unit {0}
unfolding append_and_trim prepare_episode add_episode weighted_sample_indices sample_batch
program = tt

abbrev config : ReplayConfig
config = record { capacity = 3; recent_window_size = 2 }

abbrev episode : ℕ → ℤ × Entries ℕ
episode n = (pos 0, entry "rewards" (sequence (cons (number n) (cons (number 1) nil))) end)

-- The third call raises: its rewards are no numbers.
abbrev calls : List (ℤ × Entries ℕ)
calls =
    episode 0
    ∷ episode 1
    ∷ (pos 0, entry "rewards" (sequence (cons none_value nil)) end)
    ∷ episode 0
    ∷ episode 1
    ∷ []

abbrev empty : Buffer (PreparedEpisode ℕ)
empty = record { episodes = []; weights = [] }

kept_weights : List String
kept_weights = (add_all conversions packing config calls empty).weights

kept_weights_lem : kept_weights ≡ "2" ∷ "1" ∷ "2" ∷ []
unfolding kept_weights program
kept_weights_lem = refl

add_all-Represents_example :
    Represents
      (add_all conversions packing config calls empty)
      (push_all conversions packing config calls [])
    × (length (push_all conversions packing config calls []) ≤ 3)
add_all-Represents_example =
    add_all-Represents conversions packing config calls empty [] (omega arith) (omega arith)
      (record { episodes = refl; weights = refl })

abbrev prepared : ℕ → PreparedEpisode ℕ
prepared n = record {
  states = none_value;
  actions = none_value;
  rewards = [];
  next_states = none_value;
  dones = none_value;
  infos = none_value;
  total_return = n;
  abs_return = n;
  created_at_ms = pos 0;
  metadata = none_value;
}

abbrev pairs : List (PreparedEpisode ℕ × String)
pairs = (prepared 2, "2") ∷ (prepared 1, "1") ∷ (prepared 2, "2") ∷ []

abbrev stored : Buffer (PreparedEpisode ℕ)
stored = record {
  episodes = prepared 2 ∷ prepared 1 ∷ prepared 2 ∷ [];
  weights = "2" ∷ "1" ∷ "2" ∷ [];
}

abbrev total : ℕ → Entries ℕ
total n = entry "total_return" (number n) end

-- Two episodes: one of the window of two, and one of all.
sample_batch-Sampled_example :
    (n : ℕ) × (n ≡ 2)
    × Sampled packing stored.episodes
        (recent_start config 3)
        (recent_target n)
        (n - recent_target n)
        (total 1 ∷ total 2 ∷ [])
unfolding program
sample_batch-Sampled_example =
    sample_batch-Sampled conversions random packing config stored pairs 2 (total 1 ∷ total 2 ∷ [])
      (record { episodes = refl; weights = refl }) (omega arith) (omega arith) (omega arith) refl

-- Five episodes of which only the last has a return.
abbrev one_positive : Buffer (PreparedEpisode ℕ)
one_positive = record {
  episodes = prepared 0 ∷ prepared 0 ∷ prepared 0 ∷ prepared 0 ∷ prepared 1 ∷ [];
  weights = "0" ∷ "0" ∷ "0" ∷ "0" ∷ "1" ∷ [];
}

abbrev wide : ReplayConfig
wide = record { capacity = 10; recent_window_size = 5 }

sample_batch-raises_example : sample_batch conversions random packing wide 3 one_positive ≡ none
sample_batch-raises_example =
    sample_batch-raises finite_naturals conversions random packing wide (λ x. refl) one_positive 3
      (omega arith) (omega arith) (omega arith) (omega arith) refl
