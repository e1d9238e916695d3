-- ===== src/Pipe/Fifo.antt =====
-- A pipe of Kernel/pipe.c as a queue of bytes: what `put` and `get` do to the bytes that it holds.
use boke_os.Base.{
  ℕ, zero, suc, ◌+◌, ◌-◌, ◌%◌, ◌≤◌, ◌<◌, ◌≡◌, ap, ap₂, List, [], ◌∷◌, ◌++◌, update, arith,
}
use native.Mathlib.Numerals.{add-one}
use boke_os.Pipe.Entry.{Pipe, buffer_size, wrapped, put, get}

-- The `n` bytes from `h` on, going round at the end of the buffer.
abbrev pub window : (ℕ → ℕ) → (h n : ℕ) → List ℕ
window b h zero = []
window b h (suc n) = b h ∷ window b ((h + 1) % buffer_size) n

-- The bytes that have been written and not read, oldest first.
abbrev pub held : Pipe → List ℕ
held p = window p.buffer (wrapped p.read_pos) p.left_to_read

pub record IsValid (p : Pipe) : Type 0 where
  pub write_in : p.write_pos ≤ buffer_size
  pub read_in : p.read_pos ≤ buffer_size
  pub left_in : p.left_to_read ≤ buffer_size
  pub meet : wrapped p.write_pos ≡ (wrapped p.read_pos + p.left_to_read) % buffer_size

window-update :
    (b : ℕ → ℕ) (c h n i : ℕ)
    → h < buffer_size
    → n < buffer_size
    → i ≡ (h + n) % buffer_size
    → window (update b i c) h (suc n) ≡ window b h n ++ c ∷ []
window-update b c h zero i hh hn e = ground arith
window-update b c h (suc n) i hh hn e =
    ap₂ ◌∷◌ (ground arith)
      (window-update b c ((h + 1) % buffer_size) n i (omega arith) (omega arith) (omega arith))

-- `put` appends its byte, if the buffer is not full.
pub put-held :
    (c : ℕ) (p : Pipe)
    → IsValid p
    → p.left_to_read < buffer_size
    → IsValid (put c p) × (held (put c p) ≡ held p ++ c ∷ [])
unfolding put
put-held c p v h = (
  ground arith,
  rw add-one (
      window-update p.buffer c (wrapped p.read_pos) p.left_to_read (wrapped p.write_pos)
        (ground arith) h v.meet),
)

window_of_pos :
    (b : ℕ → ℕ) (h n : ℕ) → 0 < n → window b h n ≡ b h ∷ window b ((h + 1) % buffer_size) (n - 1)
window_of_pos b h zero l = elim l [ ]
window_of_pos b h (suc n) l = ap (λ j. b h ∷ window b ((h + 1) % buffer_size) j) (omega arith)

wrapped_next :
    (pos : ℕ) → pos ≤ buffer_size → wrapped (wrapped pos + 1) ≡ (wrapped pos + 1) % buffer_size
wrapped_next pos h = ground arith

-- `get` gives the oldest byte and leaves the rest, if there is a byte.
pub get-held :
    (p : Pipe)
    → IsValid p
    → 0 < p.left_to_read
    → IsValid (get p).1 × (held p ≡ (get p).0 ∷ held (get p).1)
unfolding get
get-held p v h = (
  ground arith,
  rw (wrapped_next p.read_pos v.read_in)
      (window_of_pos p.buffer (wrapped p.read_pos) p.left_to_read h),
)
