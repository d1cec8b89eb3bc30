-- ===== src/Replay.antt =====
-- The replay buffer of episodes (decision_layer/services/fl_edge/redis_experience_buffer.py).
-- The two Redis lists are lists; MessagePack, the format of a weight, numpy's sum and its random
-- choices are parameters. `_to_serializable` is the identity on the values of the model.
pub mod Fifo
pub mod Sampling
pub mod Weighted
mod Tests
use Prim.Native.String.{String}
use mathlib.Core.Option
use omni_aegis.Prelude.{
  ℕ, zero, suc, ◌+◌, ◌-◌, ◌*◌, ◌/◌, ◌≡◌, ◌<◌, ◌≤◌, Bool, true, false, not, List, [], ◌∷◌, ◌++◌, map,
  foldl, Option, none, some, if◌then◌else◌, ltb, leb, ◌==◌, min, max, length, get_elem?, All, take,
}
use omni_aegis.Prelude.Int.{ℤ, pos}
use omni_aegis.Doubles.{Doubles, null, lt, fmax}
use omni_aegis.Values.{
  Value, Values, nil, cons, Entries, none_value, sequence, mapping, integer, Conversions, find,
  list_of, to_float, to_int,
}

-- The elements from the n-th on.
abbrev pub drop {ℓ} : {A : Type ℓ} → ℕ → List A → List A
drop zero xs = xs
drop (suc n) [] = []
drop (suc n) (x ∷ xs) = drop n xs

-- LTRIM key -n -1: the last n elements, and all of them for n = 0.
abbrev pub ltrim_last {ℓ} : {A : Type ℓ} → ℕ → List A → List A
ltrim_last zero xs = xs
ltrim_last (suc n) xs = drop (length xs - suc n) xs

-- `prepared` of `_prepare_episode`.
pub record PreparedEpisode (Float : Type 0) : Type 0 where
  pub states : Value Float
  pub actions : Value Float
  pub rewards : List Float
  pub next_states : Value Float
  pub dones : Value Float
  pub infos : Value Float
  pub total_return : Float
  pub abs_return : Float
  pub created_at_ms : ℤ
  pub metadata : Value Float

-- The configuration's numbers.
pub record ReplayConfig : Type 0 where
  pub capacity : ℕ
  pub recent_window_size : ℕ

-- The lists under `episodes_key` and `weights_key`.
pub record Buffer (Blob : Type 0) : Type 0 where
  pub episodes : List Blob
  pub weights : List String

-- The script `_APPEND_AND_TRIM_LUA`.
unfoldable pub append_and_trim : {Blob : Type 0} → ℕ → Blob → String → Buffer Blob → Buffer Blob × ℕ
append_and_trim capacity episode_blob abs_return s =
    let episodes' = ltrim_last capacity (s.episodes ++ episode_blob ∷ []) in
    (
      record { episodes = episodes'; weights = ltrim_last capacity (s.weights ++ abs_return ∷ []) },
      length episodes',
    )

-- MessagePack, none where unpacking raises, and f"{x:.12f}".
pub record Packing (fl : Doubles) : Type 1 where
  pub Blob : Type 0
  pub packb : PreparedEpisode fl.Float → Blob
  pub unpackb : Blob → Option (Entries fl.Float)
  pub fixed : fl.Float → String

module _ {fl : Doubles} (py : Conversions fl) where
  open fl use {Float, add, sub}

  -- `abs(x)`.
  abbrev pub fabs : Float → Float
  fabs x = if lt fl x (null fl) then sub (null fl) x else x

  -- `[float(x) for x in values]`, none if one raises.
  abbrev pub cons_float : Option Float → Option (List Float) → Option (List Float)
  cons_float none xs = none
  cons_float (some x) none = none
  cons_float (some x) (some xs) = some (x ∷ xs)

  abbrev pub floats_of : List (Value Float) → Option (List Float)
  floats_of [] = some []
  floats_of (v ∷ vs) = cons_float (to_float py v) (floats_of vs)

  -- `data.get(key, default)`.
  abbrev pub get_default : String → Value Float → Entries Float → Value Float
  get_default key default entries = Option.get_or (find key entries) default

  abbrev pub rewards_of : Value Float → Option (List Float)
  rewards_of none_value = some []
  rewards_of (sequence vs) = floats_of (list_of vs)
  rewards_of v = Option.map (λ x. x ∷ []) (to_float py v)

  abbrev pub total_return_of : Value Float → List Float → Option Float
  total_return_of none_value rewards = some (foldl add (null fl) rewards)
  total_return_of v rewards = to_float py v

  -- `_prepare_episode`; none where a conversion raises.
  unfoldable pub prepare_episode : ℤ → Entries Float → Option (PreparedEpisode Float)
  prepare_episode now episode_data =
      let empty = sequence nil in
      elim (rewards_of (get_default "rewards" empty episode_data)) [
        | none ↦ none
        | some rewards ↦
            elim (total_return_of (get_default "total_return" none_value episode_data) rewards) [
              | none ↦ none
              | some total_return ↦
                  Option.map
                    (λ created_at_ms. record {
                      states = get_default "states" empty episode_data;
                      actions = get_default "actions" empty episode_data;
                      rewards = rewards;
                      next_states = get_default "next_states" empty episode_data;
                      dones = get_default "dones" empty episode_data;
                      infos = get_default "infos" empty episode_data;
                      total_return = total_return;
                      abs_return = fabs total_return;
                      created_at_ms = created_at_ms;
                      metadata = get_default "metadata" (mapping Entries.end) episode_data;
                    })
                    (to_int py (get_default "created_at_ms" (integer now) episode_data))
            ]
      ]

  module _ (pk : Packing fl) (c : ReplayConfig) where
    -- `add_episode`.
    unfoldable pub add_episode : ℤ → Entries Float → Buffer pk.Blob → Option (Buffer pk.Blob × ℕ)
    add_episode now episode_data s =
        Option.map
          (λ prepared.
            append_and_trim c.capacity (pk.packb prepared) (pk.fixed (fabs prepared.total_return))
              s)
          (prepare_episode now episode_data)

-- What the code relies on of numpy: `np.sum`, and `rng.choice(size, size=count, replace=…, p=…)` as
-- the k-th draw of the generator, none where it raises. A draw without replacement raises if fewer than
-- `count` entries of p are above zero.
abbrev pub nonzero : (fl : Doubles) → List fl.Float → ℕ
nonzero fl [] = 0
nonzero fl (x ∷ xs) = if lt fl (null fl) x then suc (nonzero fl xs) else nonzero fl xs

pub record Random (fl : Doubles) : Type 0 where
  pub np_sum : List fl.Float → fl.Float
  pub choice : ℕ → ℕ → ℕ → Bool → Option (List fl.Float) → Option (List ℕ)
  pub choice-range :
      (k size count : ℕ) (replace : Bool) (p : Option (List fl.Float)) (chosen : List ℕ)
      → choice k size count replace p ≡ some chosen
      → (length chosen ≡ count) × All (λ i. i < size) chosen
  pub choice-few :
      (k size count : ℕ) (p : List fl.Float)
      → nonzero fl p < count
      → choice k size count false (some p) ≡ none

module _ {fl : Doubles} (py : Conversions fl) where
  open fl use {Float}

  -- `_get_weight_slice` from a start: what is no number counts as 0.0.
  abbrev pub weight_of : String → Float
  weight_of text = Option.get_or (py.float_of_text text) (null fl)

  abbrev pub get_weight_slice : ℕ → List String → List Float
  get_weight_slice start weights = map weight_of (drop start weights)

module _ {fl : Doubles} (rng : Random fl) where
  open fl use {Float, div}

  -- `_weighted_sample_indices` at the k-th draw.
  abbrev pub clipped : List Float → List Float
  clipped = map (λ w. fmax fl w (null fl))

  abbrev pub probs : List Float → Option (List Float)
  probs weights =
      let total_weight = rng.np_sum (clipped weights) in
      if fl.le total_weight (null fl)
      then none
      else some (map (λ w. div w total_weight) (clipped weights))

  unfoldable pub weighted_sample_indices : ℕ → List Float → ℕ → ℕ → Option (List ℕ)
  weighted_sample_indices k weights count offset =
      if count == 0
      then some []
      else if length weights == 0
      then some []
      else Option.map (map (λ x. x + offset))
          (rng.choice k (length weights) count (ltb (length weights) count) (probs weights))

-- `_fetch_episodes_by_indices`.
abbrev pub cons_found {ℓ} : {A : Type ℓ} → Option A → List A → List A
cons_found none xs = xs
cons_found (some x) xs = x ∷ xs

abbrev pub fetch_episodes_by_indices {ℓ} : {A : Type ℓ} → List A → List ℕ → List A
fetch_episodes_by_indices episodes [] = []
fetch_episodes_by_indices episodes (idx ∷ indices) =
    cons_found (get_elem? episodes idx) (fetch_episodes_by_indices episodes indices)

-- Two results, none if one raises.
abbrev pub append_drawn : Option (List ℕ) → Option (List ℕ) → Option (List ℕ)
append_drawn none ys = none
append_drawn (some xs) none = none
append_drawn (some xs) (some ys) = some (xs ++ ys)

module _ {fl : Doubles} (pk : Packing fl) where
  open fl use {Float}

  abbrev pub cons_unpacked :
      Option (Entries Float) → Option (List (Entries Float)) → Option (List (Entries Float))
  cons_unpacked none es = none
  cons_unpacked (some e) none = none
  cons_unpacked (some e) (some es) = some (e ∷ es)

  abbrev pub unpack_all : List pk.Blob → Option (List (Entries Float))
  unpack_all [] = some []
  unpack_all (blob ∷ blobs) = cons_unpacked (pk.unpackb blob) (unpack_all blobs)

-- The window of recent episodes begins here.
abbrev pub recent_start : ReplayConfig → ℕ → ℕ
recent_start c total = total - min c.recent_window_size total

-- `int(np.floor(batch_size * 0.9))`, which the rounding of 0.9 leaves exact.
abbrev pub recent_target : ℕ → ℕ
recent_target batch_size = batch_size * 9 / 10

module _ {fl : Doubles} (py : Conversions fl) (rng : Random fl) (pk : Packing fl)
    (c : ReplayConfig) where
  open fl use {Float}

  -- The recent and the global draw.
  abbrev pub drawn_indices : ℕ → Buffer pk.Blob → Option (List ℕ)
  drawn_indices batch_size s =
      let start = recent_start c (length s.episodes) in
      append_drawn
        (weighted_sample_indices rng 0 (get_weight_slice py start s.weights)
          (recent_target batch_size) start)
        (weighted_sample_indices rng 1 (get_weight_slice py 0 s.weights)
          (batch_size - recent_target batch_size) 0)

  -- The refill of a deficit.
  abbrev pub refilled : ℕ → Buffer pk.Blob → List ℕ → Option (List ℕ)
  refilled batch_size s sampled =
      if ltb (length sampled) batch_size
      then append_drawn (some sampled) (
          weighted_sample_indices rng 2 (get_weight_slice py 0 s.weights)
            (batch_size - length sampled) 0)
      else some sampled

  abbrev pub sampled_indices : ℕ → Buffer pk.Blob → Option (List ℕ) → Option (List ℕ)
  sampled_indices batch_size s none = none
  sampled_indices batch_size s (some sampled) = refilled batch_size s sampled

  abbrev pub unpacked_at : ℕ → Buffer pk.Blob → Option (List ℕ) → Option (List (Entries Float))
  unpacked_at batch_size s none = none
  unpacked_at batch_size s (some indices) =
      unpack_all pk (fetch_episodes_by_indices s.episodes (take batch_size indices))

  abbrev pub sample_positive : ℕ → Buffer pk.Blob → Option (List (Entries Float))
  sample_positive batch_size s =
      unpacked_at batch_size s (sampled_indices batch_size s (drawn_indices batch_size s))

  -- `sample_batch`; none where it raises.
  unfoldable pub sample_batch : ℕ → Buffer pk.Blob → Option (List (Entries Float))
  sample_batch batch_size s =
      if batch_size == 0
      then some []
      else if length s.episodes == 0
      then some []
      else sample_positive (min batch_size (length s.episodes)) s
