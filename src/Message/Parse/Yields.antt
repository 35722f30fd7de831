-- ===== src/Message/Parse/Yields.antt =====
-- What each read of the parser can come to, for objects that are not marked as parsed.
use nymph_mqtt.Common.{
  ℕ, ◌+◌, ◌≡◌, Bool, true, false, List, length, if◌then◌else◌, ltb, leb, ◌==◌, Bool-cases, inl, inr,
}
use nymph_mqtt.Message.{NmqttMessage}
use nymph_mqtt.Message.Exec.{
  Platform, Exec, ok, failed, out_of_range, undefined, ◌>>=◌, require, char_at, substr, substr_from,
  read16,
}

-- What holds of a result, with the object of a `return -1` not marked as parsed.
abbrev pub Yields {ℓ} : {A : Type ℓ} → (A → Type 0) → Exec A → Type 0
Yields Q (ok a) = Q a
Yields Q (failed m) = m.parse_good ≡ false
Yields Q out_of_range = Unit
Yields Q undefined = Unit

pub Yields-bind {ℓ κ} :
    {A : Type ℓ} {B : Type κ} (Q : A → Type 0) (P : B → Type 0) (r : Exec A) (f : A → Exec B)
    → Yields Q r
    → ((a : A) → Q a → Yields P (f a))
    → Yields P (r >>= f)
Yields-bind Q P (ok a) f h k = k a h
Yields-bind Q P (failed m) f h k = h
Yields-bind Q P out_of_range f h k = tt
Yields-bind Q P undefined f h k = tt

abbrev pub Any {ℓ} : {A : Type ℓ} → A → Type 0
Any a = Unit

abbrev pub Clean : NmqttMessage → Type 0
Clean m = m.parse_good ≡ false

abbrev pub CleanFirst : NmqttMessage × ℕ → Type 0
CleanFirst r = Clean r.0

pub require-Yields : (b : Bool) (m : NmqttMessage) → Clean m → Yields (λ u. Any u) (require b m)
require-Yields true m c = tt
require-Yields false m c = c

pub char_at-Yields : (msg : List ℕ) (i : ℕ) → Yields (λ u. Any u) (char_at msg i)
unfolding char_at
char_at-Yields msg i = elim (Bool-cases (ltb i (length msg))) [
  | inl e ↦ rw e tt
  | inr e ↦ elim (Bool-cases (i == length msg)) [ inl d ↦ rw (e, d) tt | inr d ↦ rw (e, d) tt ]
]

pub substr-Yields : (msg : List ℕ) (pos n : ℕ) → Yields (λ u. Any u) (substr msg pos n)
unfolding substr
substr-Yields msg pos n = elim (Bool-cases (leb pos (length msg))) [
  | inl e ↦ rw e tt
  | inr e ↦ rw e tt
]

pub substr_from-Yields : (msg : List ℕ) (pos : ℕ) → Yields (λ u. Any u) (substr_from msg pos)
unfolding substr_from
substr_from-Yields msg pos = elim (Bool-cases (leb pos (length msg))) [
  | inl e ↦ rw e tt
  | inr e ↦ rw e tt
]

pub read16-Yields : (p : Platform) (msg : List ℕ) (idx : ℕ) → Yields (λ u. Any u) (read16 p msg idx)
unfolding read16
read16-Yields p msg idx =
    Yields-bind (λ u. Any u) (λ u. Any u) _ _ (char_at-Yields msg idx)
      λ a _. Yields-bind (λ u. Any u) (λ u. Any u) _ _ (char_at-Yields msg (idx + 1)) λ b _. tt

pub if-Yields {ℓ} :
    {A : Type ℓ} (Q : A → Type 0) (b : Bool) (r s : Exec A)
    → Yields Q r
    → Yields Q s
    → Yields Q (if b then r else s)
if-Yields Q true r s h k = h
if-Yields Q false r s h k = k
