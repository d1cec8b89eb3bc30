-- ===== src/Shadow/Actions.antt =====
-- An action that is extracted is 0, 1 or 2.
use Prim.Native.String.{String}
use text.Mathlib.Text.{◌==◌ as str_eq}
use mathlib.Core.Option.{some-injective}
use omni_aegis.Prelude.{ℕ, ◌≡◌, sym, ap, ◌∙◌, true, inl, inr, Option, none, some, ltb, Bool-cases}
use omni_aegis.Doubles.{Doubles}
use omni_aegis.Prelude.Int.{ℤ, pos, negsuc}
use omni_aegis.Values.{
  to_int, Value, nil, cons, Entries, end, entry, none_value, boolean, integer, number, string,
  sequence, mapping, Conversions, int_of_bool,
}
use omni_aegis.Shadow.{in_range, bind_range, or_next, extract_action, key_action, only_action}

in_range-lt : (i : ℤ) (a : ℕ) → in_range i ≡ some a → ltb a 3 ≡ true
in_range-lt (pos n) a e = elim (Bool-cases (ltb n 3)) [
  | inl below ↦
      let e' : some n ≡ some a = rw (in_range, below) at e in
      sym (ap (λ k. ltb k 3) (some-injective _ _ e')) ∙ below
  | inr above ↦ absurd (let e' = rw (in_range, above) at e in cc e')
]
in_range-lt (negsuc n) a e = absurd (cc e)

bind_range-lt : (o : Option ℤ) (a : ℕ) → bind_range o ≡ some a → ltb a 3 ≡ true
bind_range-lt none a e = absurd (cc e)
bind_range-lt (some i) a e = in_range-lt i a e

module _ {fl : Doubles} (py : Conversions fl) where
  open fl use {Float}

  or_next-lt :
      (o : Option (Option ℕ)) (n : Option ℕ) (a : ℕ)
      → ((b : ℕ) → o ≡ some (some b) → ltb b 3 ≡ true)
      → ((b : ℕ) → n ≡ some b → ltb b 3 ≡ true)
      → or_next o n ≡ some a
      → ltb a 3 ≡ true
  or_next-lt none n a h k e = k a e
  or_next-lt (some x) n a h k e = h a (ap some e)

  mutual
    unfolding extract_action

    extract_action-lt : (v : Value Float) (a : ℕ) → extract_action py v ≡ some a → ltb a 3 ≡ true
    extract_action-lt none_value a e = absurd (cc e)
    extract_action-lt (boolean b) a e = in_range-lt (int_of_bool py b) a e
    extract_action-lt (integer i) a e = in_range-lt i a e
    extract_action-lt (number x) a e = bind_range-lt (to_int py (number x)) a e
    extract_action-lt (string t) a e = bind_range-lt (py.int_of_text t) a e
    extract_action-lt (sequence nil) a e = absurd (cc e)
    extract_action-lt (sequence (cons v vs)) a e = extract_action-lt v a e
    extract_action-lt (mapping d) a e =
        or_next-lt _ _ a (key_action-lt "action" d)
          (λ b. or_next-lt _ _ b (key_action-lt "decision" d) (λ b.
            or_next-lt _ _ b (key_action-lt "label" d)
              (λ b. or_next-lt _ _ b (key_action-lt "prediction" d) (only_action-lt d))))
          e

    key_action-lt :
        (key : String) (d : Entries Float) (a : ℕ)
        → key_action py key d ≡ some (some a)
        → ltb a 3 ≡ true
    key_action-lt key end a e = absurd (cc e)
    key_action-lt key (entry k v d) a e =
        let here = extract_action-lt v a in
        let later = key_action-lt key d a in
        elim (Bool-cases (str_eq k key)) [
          | inl same ↦
              let e' : some (extract_action py v) ≡ some (some a) = rw (key_action, same) at e in
              here (some-injective _ _ e')
          | inr other ↦
              let e' : key_action py key d ≡ some (some a) = rw (key_action, other) at e in later e'
        ]

    only_action-lt : (d : Entries Float) (a : ℕ) → only_action py d ≡ some a → ltb a 3 ≡ true
    only_action-lt end a e = absurd (cc e)
    only_action-lt (entry k v end) a e = extract_action-lt v a e
    only_action-lt (entry k v (entry k' v' d)) a e = absurd (cc e)

  pub action-lt : (v : Value Float) (a : ℕ) → extract_action py v ≡ some a → ltb a 3 ≡ true
  action-lt v a e = extract_action-lt v a e
