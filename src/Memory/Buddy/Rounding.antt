-- ===== src/Memory/Buddy/Rounding.antt =====
-- The rounding of a request in `malloc` of mem_buddy.c.
use boke_os.Base.{
  ℕ, zero, suc, ◌*◌, ◌^◌, ◌≤◌, ◌<◌, ◌≡◌, refl, ◌⊎◌, inl, inr, arith, ltb, Bool-cases, ltb→lt, ap,
  Option, some,
}
use native.Mathlib.Nat.{pow-suc}
use boke_os.Memory.Buddy.{double_up, is_power_of_two, rounded}

-- What the loop of `malloc` finds from `i` on: the first of `i`, `2 i`, `4 i`, ... that is enough.
pub data Doubled (bytes : ℕ) : ℕ → Option ℕ → Type 0 where
  enough : {i : ℕ} → bytes ≤ i → Doubled bytes i (some i)
  twice : {i : ℕ} {o : Option ℕ} → i < bytes → Doubled bytes (i * 2) o → Doubled bytes i o

double_up-Doubled :
    (k f i bytes : ℕ) → k < f → bytes ≤ i * 2 ^ k → Doubled bytes i (double_up f i bytes)
unfolding double_up
double_up-Doubled k zero i bytes h le = absurd (omega arith)
double_up-Doubled zero (suc f) i bytes h le = elim (Bool-cases (ltb i bytes)) [
  | inl lt ↦ absurd (omega (arith, ltb→lt _ _ lt))
  | inr ge ↦ rw (ge, double_up) (enough (ground arith))
]
double_up-Doubled (suc k) (suc f) i bytes h le = elim (Bool-cases (ltb i bytes)) [
  | inl lt ↦
      rw (lt, double_up)
        (twice (ltb→lt _ _ lt) (
          double_up-Doubled k f (i * 2) bytes (omega arith)
            (omega (arith, ap (λ (t : ℕ). i * t) (pow-suc 2 k)))))
  | inr ge ↦ rw (ge, double_up) (enough (ground arith))
]

-- A size that `rounded` gives is not 0, is enough, and less than twice the request, or 1.
pub record Rounds (bytes b : ℕ) : Type 0 where
  pub positive : 0 < b
  pub enough : bytes ≤ b
  pub tight : (b ≡ 1) ⊎ (b < bytes * 2)

Doubled-Rounds :
    (bytes i : ℕ) {o : Option ℕ}
    → Doubled bytes i o
    → (i ≡ 1) ⊎ (i < bytes * 2)
    → 0 < i
    → (b : ℕ) × (o ≡ some b) × Rounds bytes b
Doubled-Rounds bytes i (enough h) t pos =
    (i, refl, record { positive = pos; enough = h; tight = t })
Doubled-Rounds bytes i (twice h d) t pos =
    Doubled-Rounds bytes (i * 2) d (inr (omega arith)) (omega arith)

-- For a request of up to 2 ^ 30 bytes the loop ends, with such a size.
pub rounded-Rounds :
    (bytes : ℕ) → bytes ≤ 2 ^ 30 → (b : ℕ) × (rounded bytes ≡ some b) × Rounds bytes b
unfolding rounded is_power_of_two
rounded-Rounds bytes h = elim (Bool-cases (is_power_of_two bytes)) [
  | inl e ↦ (
    bytes,
    rw e,
    record { positive = ground arith; enough = omega arith; tight = inr (ground arith) },
  )
  | inr e ↦ rw e (
      Doubled-Rounds bytes 1 (double_up-Doubled 30 32 1 bytes (omega arith) (omega arith))
        (inl refl) (omega arith))
]

double_up-le : (f i bytes b : ℕ) → double_up f i bytes ≡ some b → bytes ≤ b
unfolding double_up
double_up-le zero i bytes b e = cc
double_up-le (suc f) i bytes b e = ground (arith, double_up-le f (i * 2) bytes b)

-- No rounded size is less than the request.
pub rounded-le : (bytes b : ℕ) → rounded bytes ≡ some b → bytes ≤ b
unfolding rounded
rounded-le bytes b e = ground (arith, double_up-le 32 1 bytes b)
