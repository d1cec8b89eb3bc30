-- ===== src/Replay/Fifo.antt =====
-- The buffer implements a bounded queue of episodes with their weights.
use Prim.Native.String.{String}
use omni_aegis.Prelude.{
  ℕ, zero, suc, ◌+◌, ◌-◌, ◌≤◌, ◌<◌, ◌≡◌, refl, sym, ap, ◌∙◌, inl, inr, List, [], ◌∷◌, ◌++◌, map,
  Option, none, some, if◌then◌else◌, ltb, ltb→lt, arith, length, length-append, length-map,
  Bool-cases, Option-cases,
}
use omni_aegis.Prelude.Int.{ℤ}
use omni_aegis.Doubles.{Doubles}
use omni_aegis.Values.{Entries, Conversions}
use omni_aegis.Replay.{
  drop, ltrim_last, ReplayConfig, Buffer, append_and_trim, Packing, PreparedEpisode, fabs,
  prepare_episode, add_episode,
}

-- The specification: a queue of at most `capacity` entries, which drops its oldest one when it is full.
abbrev pub push {ℓ} : {A : Type ℓ} → ℕ → A → List A → List A
push capacity x [] = x ∷ []
push capacity x (y ∷ q) = if ltb (length (y ∷ q)) capacity then y ∷ q ++ x ∷ [] else q ++ x ∷ []

-- A buffer that holds the entries of a queue, an episode and its weight at the same place.
pub record Represents {Blob : Type 0} (s : Buffer Blob) (q : List (Blob × String)) : Type 0 where
  pub episodes : s.episodes ≡ map (λ x. x.0) q
  pub weights : s.weights ≡ map (λ x. x.1) q

map-append {ℓ κ} :
    {A : Type ℓ} {B : Type κ} (f : A → B) (xs ys : List A) → map f (xs ++ ys) ≡ map f xs ++ map f ys
map-append f [] ys = refl
map-append f (x ∷ xs) ys = ap (◌∷◌ (f x)) (map-append f xs ys)

module _ {ℓ κ} {A : Type ℓ} {B : Type κ} (f : A → B) where
  push-map : (c : ℕ) (x : A) (q : List A) → push c (f x) (map f q) ≡ map f (push c x q)
  push-map c x [] = refl
  push-map c x (y ∷ q) =
      let n = length-map q f in
      elim (Bool-cases (ltb (length (y ∷ q)) c)) [
        | inl e ↦ rw (n, e) (sym (map-append f (y ∷ q) (x ∷ [])))
        | inr e ↦ rw (n, e) (sym (map-append f q (x ∷ [])))
      ]

pub ltrim_last-drop {ℓ} :
    {A : Type ℓ} (c k : ℕ) (xs : List A) → 0 < c → length xs - c ≡ k → ltrim_last c xs ≡ drop k xs
ltrim_last-drop zero k xs p e = absurd (omega (arith, p))
ltrim_last-drop (suc c) k xs p e = ap (λ n. drop n xs) e

ltrim_last-push {ℓ} :
    {A : Type ℓ} (c : ℕ) (x : A) (q : List A)
    → 0 < c
    → length q ≤ c
    → ltrim_last c (q ++ x ∷ []) ≡ push c x q
ltrim_last-push c x [] p h = ltrim_last-drop c 0 (x ∷ []) p (omega (arith, p))
ltrim_last-push c x (y ∷ q) p h =
    let n : length (y ∷ q ++ x ∷ []) ≡ length (y ∷ q) + 1 = length-append (y ∷ q) (x ∷ []) in
    elim (Bool-cases (ltb (length (y ∷ q)) c)) [
      | inl e ↦
          rw (e) (
            ltrim_last-drop c 0 (y ∷ q ++ x ∷ []) p (omega (arith, n, ltb→lt (length (y ∷ q)) c e)))
      | inr e ↦ rw (e) (
          ltrim_last-drop c 1 (y ∷ q ++ x ∷ []) p
            (let full : length (y ∷ q) ≡ c = ground (arith, e, h) in omega (arith, n, full)))
    ]

pub length-push {ℓ} :
    {A : Type ℓ} (c : ℕ) (x : A) (q : List A) → 0 < c → length q ≤ c → length (push c x q) ≤ c
length-push c x [] p h = omega (arith, p)
length-push c x (y ∷ q) p h = elim (Bool-cases (ltb (length (y ∷ q)) c)) [
  | inl e ↦ rw (e) (omega (arith, length-append (y ∷ q) (x ∷ []), ltb→lt (length (y ∷ q)) c e))
  | inr e ↦ rw (e) (omega (arith, length-append q (x ∷ []), h))
]

module _ {Blob : Type 0} (capacity : ℕ) (positive : 0 < capacity) where
  pushed_list :
      {B : Type 0} (f : Blob × String → B) (x : Blob × String) (q : List (Blob × String))
      (list : List B)
      → length q ≤ capacity
      → list ≡ map f q
      → ltrim_last capacity (list ++ f x ∷ []) ≡ map f (push capacity x q)
  pushed_list f x q list h e =
      ap (λ l. ltrim_last capacity (l ++ f x ∷ [])) e
      ∙ ltrim_last-push capacity (f x) (map f q) positive (omega (arith, length-map q f, h))
      ∙ push-map f capacity x q

  -- The script pushes an entry, and returns the queue's new size.
  append_and_trim-Represents :
      (blob : Blob) (weight : String) (s : Buffer Blob) (q : List (Blob × String))
      → length q ≤ capacity
      → Represents s q
      → Represents (append_and_trim capacity blob weight s).0 (push capacity (blob, weight) q)
  unfolding append_and_trim
  append_and_trim-Represents blob weight s q h r = record {
    episodes = pushed_list (λ x. x.0) (blob, weight) q s.episodes h r.episodes;
    weights = pushed_list (λ x. x.1) (blob, weight) q s.weights h r.weights;
  }

module _ {fl : Doubles} (py : Conversions fl) (pk : Packing fl) (c : ReplayConfig) where
  -- Calls of `add_episode` with the clock, in order; a call that raises leaves the buffer.
  abbrev pub kept_or : Option (Buffer pk.Blob × ℕ) → Buffer pk.Blob → Buffer pk.Blob
  kept_or none s = s
  kept_or (some r) s = r.0

  abbrev pub add_all : List (ℤ × Entries fl.Float) → Buffer pk.Blob → Buffer pk.Blob
  add_all [] s = s
  add_all ((now, d) ∷ calls) s = add_all calls (kept_or (add_episode py pk c now d s) s)

  -- The same calls on the queue.
  abbrev pub push_prepared :
      Option (PreparedEpisode fl.Float) → List (pk.Blob × String) → List (pk.Blob × String)
  push_prepared none q = q
  push_prepared (some e) q = push c.capacity (pk.packb e, pk.fixed (fabs py e.total_return)) q

  abbrev pub push_all :
      List (ℤ × Entries fl.Float) → List (pk.Blob × String) → List (pk.Blob × String)
  push_all [] q = q
  push_all ((now, d) ∷ calls) q = push_all calls (push_prepared (prepare_episode py now d) q)

  add_episode-Represents :
      (now : ℤ) (d : Entries fl.Float) (s : Buffer pk.Blob) (q : List (pk.Blob × String))
      → 0 < c.capacity
      → length q ≤ c.capacity
      → Represents s q
      → Represents
          (kept_or (add_episode py pk c now d s) s)
          (push_prepared (prepare_episode py now d) q)
        × (length (push_prepared (prepare_episode py now d) q) ≤ c.capacity)
  unfolding add_episode
  add_episode-Represents now d s q p h r = elim (Option-cases (prepare_episode py now d)) [
    | inl e ↦ rw (add_episode, e) (r, h)
    | inr (episode, e) ↦
        rw (add_episode, e)
          (
            append_and_trim-Represents c.capacity p (pk.packb episode)
                (pk.fixed (fabs py episode.total_return)) s q h r,
            length-push c.capacity _ q p h,
          )
  ]

  -- From a buffer that represents a queue of at most a positive capacity, any sequence of episodes
  -- leaves in the two Redis lists what it leaves in the queue: the newest episodes, each with its
  -- weight at the same place, and no more than the capacity.
  pub add_all-Represents :
      (calls : List (ℤ × Entries fl.Float)) (s : Buffer pk.Blob) (q : List (pk.Blob × String))
      → 0 < c.capacity
      → length q ≤ c.capacity
      → Represents s q
      → Represents (add_all calls s) (push_all calls q) × (length (push_all calls q) ≤ c.capacity)
  add_all-Represents [] s q p h r = (r, h)
  add_all-Represents ((now, d) ∷ calls) s q p h r =
      let (r', h') = add_episode-Represents now d s q p h r in add_all-Represents calls _ _ p h' r'
